-- ===== src/Handler/Accounts/Serving.antt =====
-- Requests of accounts one after the other, and the goroutines that the handlers start.
pub mod Hashes
pub mod Passwords
use hzchat_server.Common.{ℕ, zero, suc, ◌≡◌, refl, List, [], ◌∷◌, Option, none, some}
use mathlib.Core.Option
use hzchat_server.Text.{Bytes}
use hzchat_server.Users.{
  User, Queried, row, new_user, insert_user, update_last_login, update_user_password,
  update_user_profile, get_user_by_id, set_password, set_profile, with_password, with_profile,
  update_where,
}
use hzchat_server.Users.Laws.{
  IsValid, KeepsKeys, update_where-IsValid, insert_user-IsValid, update_user_profile-keeps,
  update_user_password-keeps,
}
use hzchat_server.Handler.Accounts.{
  Job, touch_login, delete_object, Store, Services, Request, Action, ◌>>=◌, ◌>>◌, reply, tick,
  touch,
}
use hzchat_server.Handler.Accounts.Sessions.{handle_register, handle_login}
use hzchat_server.Handler.Accounts.Passwords.{handle_change_password}
use hzchat_server.Handler.Accounts.Profiles.{handle_get_user_profile, handle_update_user_profile}
use hzchat_server.Handler.Accounts.Keeping.{
  Keeps, Keeps-bind, Keeps-tick, Keeps-reply, Keeps-touch, Keeps-handle_register,
  Keeps-handle_login, Keeps-handle_get_user_profile, Keeps-handle_update_user_profile,
  Keeps-handle_change_password,
}

-- A request of one of the routes, or the end of the n-th goroutine that waits.
pub data Event : Type 0 where
  registration : Request → Event
  login : Request → Event
  reading : Request → Event
  updating : Request → Event
  changing : Request → Event
  finishing : ℕ → Event

-- The n-th job, and the others.
unfoldable pub pick : ℕ → List Job → Option (Job × List Job)
pick n [] = none
pick zero (job ∷ jobs) = some (job, jobs)
pick (suc n) (job ∷ jobs) = Option.map (λ (j, rest). (j, job ∷ rest)) (pick n jobs)

module _ (sv : Services) where
  -- The body of a goroutine: UpdateLastLogin, or Delete of the storage.
  unfoldable pub run_job : Job → Action (Unit {0})
  run_job (touch_login id) = touch sv (some id)
  run_job (delete_object k) = tick >> reply tt

  unfoldable pub run_picked : Option (Job × List Job) → Store → Store
  run_picked none s = s
  run_picked (some (job, jobs)) s = (run_job job (record s { jobs = jobs })).1

  unfoldable pub serve : Event → Store → Store
  serve (registration r) s = (handle_register sv r s).1
  serve (login r) s = (handle_login sv r s).1
  serve (reading r) s = (handle_get_user_profile sv r s).1
  serve (updating r) s = (handle_update_user_profile sv r s).1
  serve (changing r) s = (handle_change_password sv r s).1
  serve (finishing n) s = run_picked (pick n s.jobs) s

  unfoldable pub serve_all : List Event → Store → Store
  serve_all [] s = s
  serve_all (e ∷ events) s = serve_all events (serve e s)

  -- What every statement keeps, every request and every goroutine keeps.
  module _ (P : List User → Type 0)
      (inserts : (u : User) (users : List User) → P users → P (insert_user u users).1)
      (touches : (id : Option Bytes) (now : ℕ) (users : List User)
        → P users
        → P (update_last_login id now users))
      (profiles : (id : Option Bytes) (nickname avatar_url : Bytes) (now : ℕ) (users : List User)
        → P users
        → P (update_user_profile id nickname avatar_url now users).1) where
    Keeps-run_job : (job : Job) → Keeps P (run_job job)
    unfolding run_job
    Keeps-run_job (touch_login id) = Keeps-touch P sv inserts touches (some id)
    Keeps-run_job (delete_object k) = Keeps-bind P (Keeps-tick P) λ _. Keeps-reply P tt

    run_picked-keeps :
        (o : Option (Job × List Job)) (s : Store) → P s.users → P (run_picked o s).users
    unfolding run_picked
    run_picked-keeps none s p = p
    run_picked-keeps (some (job, jobs)) s p = (Keeps-run_job job).kept (record s { jobs = jobs }) p

    pub serve-keeps :
        (e : Event)
        → ((r : Request) → e ≡ changing r → Keeps P (handle_change_password sv r))
        → (s : Store) → P s.users
        → P (serve e s).users
    unfolding serve
    serve-keeps (registration r) change s p =
        (Keeps-handle_register P sv inserts touches r).kept s p
    serve-keeps (login r) change s p = (Keeps-handle_login P sv inserts touches r).kept s p
    serve-keeps (reading r) change s p = (Keeps-handle_get_user_profile P sv r).kept s p
    serve-keeps (updating r) change s p =
        (Keeps-handle_update_user_profile P sv profiles r).kept s p
    serve-keeps (changing r) change s p = (change r refl).kept s p
    serve-keeps (finishing n) change s p = run_picked-keeps (pick n s.jobs) s p

  update_user_profile-IsValid :
      (id : Option Bytes) (nickname avatar_url : Bytes) (now : ℕ) (users : List User)
      → IsValid users
      → IsValid (update_user_profile id nickname avatar_url now users).1
  update_user_profile-IsValid id nickname avatar_url now users v =
      update_user_profile-keeps IsValid id nickname avatar_url now users
        (update_where-IsValid id (with_profile nickname avatar_url now) users
          (record { id = λ u. refl; username = λ u. refl; deleted_at = λ u. refl }) v)
        v

  update_user_password-IsValid :
      (id : Option Bytes) (password_hash : Bytes) (now : ℕ) (users : List User)
      → IsValid users
      → IsValid (update_user_password id password_hash now users).1
  update_user_password-IsValid id password_hash now users v =
      update_user_password-keeps IsValid id password_hash now users
        (update_where-IsValid id (with_password password_hash now) users
          (record { id = λ u. refl; username = λ u. refl; deleted_at = λ u. refl }) v)
        v

  update_last_login-IsValid :
      (id : Option Bytes) (now : ℕ) (users : List User)
      → IsValid users
      → IsValid (update_last_login id now users)
  unfolding update_last_login
  update_last_login-IsValid id now users v =
      update_where-IsValid id (λ u. record u { last_login_at = some now }) users
        (record { id = λ u. refl; username = λ u. refl; deleted_at = λ u. refl }) v

  serve-IsValid : (e : Event) (s : Store) → IsValid s.users → IsValid (serve e s).users
  serve-IsValid e s v =
      serve-keeps IsValid insert_user-IsValid update_last_login-IsValid update_user_profile-IsValid
        e (λ r _. Keeps-handle_change_password IsValid sv update_user_password-IsValid r) s v

  -- From a table with this property on, whatever requests come in whatever order, and however late the
  -- goroutines run: no id stands twice, and no username twice among the accounts that are not deleted.
  pub serve_all-IsValid :
      (events : List Event) (s : Store) → IsValid s.users → IsValid (serve_all events s).users
  unfolding serve_all
  serve_all-IsValid [] s v = v
  serve_all-IsValid (e ∷ events) s v = serve_all-IsValid events (serve e s) (serve-IsValid e s v)
