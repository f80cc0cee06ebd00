-- ===== src/Handler/Accounts/Keeping.antt =====
-- What the handlers of accounts keep of the table of users, from what their statements keep.
pub mod Guards
use hzchat_server.Common.{
  ℕ, suc, Bool, true, false, List, Option, none, some, not, Bool-cases, inl, inr, if◌then◌else◌,
}
use hzchat_server.Text.{Bytes, bytes, bytes_eq}
use hzchat_server.Errs.{CustomError, err_unknown}
use hzchat_server.Jwt
use hzchat_server.Jwt.{generate_token, user_identity_expiration}
use hzchat_server.Randx.{Drawn, text, failed, out_of_range, user_nickname}
use hzchat_server.Http.{Bound, bound, unbound}
use hzchat_server.Users
use hzchat_server.Users.{
  User, Queried, row, no_rows, unique_violation, new_user, insert_user, update_last_login,
  update_user_password, update_user_profile,
}
use hzchat_server.Handler.Assets.{Normalized, key, invalid_url}
use hzchat_server.Handler.Accounts.{
  Job, Store, Services, Request, Credentials, Answer, replied, refused, crashed, Action, ◌>>=◌,
  ◌>>◌, reply, refuse, refuse_if, or_refuse, from_bound, from_row, tick, start, query, query_at,
  select, touch, issue_token,
}
use hzchat_server.Handler.Accounts.Sessions.{
  nickname_of, from_created, create_user, hash_password, draw_nickname, create_account,
  open_session, handle_register, handle_login,
}
use hzchat_server.Handler.Accounts.Passwords.{registered_identity, handle_change_password}
use hzchat_server.Handler.Accounts.Profiles.{
  from_normalized, start_if, handle_get_user_profile, handle_update_user_profile,
}

-- What a statement does to the table.
abbrev pub Statement : Type 0 → Type 0
Statement A = ℕ → List User → Queried A × List User

module _ (P : List User → Type 0) where
  pub record Keeps {A : Type 0} (m : Action A) : Type 0 where
    pub kept : (s : Store) → P s.users → P (m s).1.users

  pub Keeps-bind :
      {A B : Type 0} {m : Action A} {k : A → Action B}
      → Keeps m
      → ((a : A) → Keeps (k a))
      → Keeps (m >>= k)
  unfolding ◌>>=◌
  Keeps-bind {A} {B} {m} {k} keep next = record { kept = λ s p. go (m s) (keep.kept s p) }
    where
      go :
          (q : Answer A × Store)
          → P q.1.users
          → P
              (elim q.0 as (λ _. Answer B × Store) [
                | replied a ↦ k a q.1
                | refused e ↦ (refused e, q.1)
                | crashed ↦ (crashed, q.1)
              ]).1.users
      go (replied a, v) p = (next a).kept v p
      go (refused e, v) p = p
      go (crashed, v) p = p

  pub Keeps-reply : {A : Type 0} (a : A) → Keeps (reply a)
  Keeps-reply a = record { kept = λ s p. p }

  pub Keeps-tick : Keeps tick
  unfolding tick
  Keeps-tick = record { kept = λ s p. p }

  pub Keeps-refuse_if : (test : Bool) (code : ℕ) → Keeps (refuse_if test code)
  unfolding refuse_if
  Keeps-refuse_if test code = record { kept = λ s p. p }

  pub Keeps-or_refuse : {A : Type 0} (code : ℕ) (o : Option A) → Keeps (or_refuse code o)
  unfolding or_refuse
  Keeps-or_refuse code none = record { kept = λ s p. p }
  Keeps-or_refuse code (some a) = record { kept = λ s p. p }

  Keeps-from_bound : {A : Type 0} (b : Bound A) → Keeps (from_bound b)
  unfolding from_bound
  Keeps-from_bound (bound a) = record { kept = λ s p. p }
  Keeps-from_bound (unbound e) = record { kept = λ s p. p }

  pub Keeps-from_row : {A : Type 0} (code : ℕ) (q : Queried A) → Keeps (from_row code q)
  unfolding from_row
  Keeps-from_row code (row a) = record { kept = λ s p. p }
  Keeps-from_row code no_rows = record { kept = λ s p. p }
  Keeps-from_row code unique_violation = record { kept = λ s p. p }
  Keeps-from_row code Users.failed = record { kept = λ s p. p }

  Keeps-from_normalized : (n : Normalized) → Keeps (from_normalized n)
  unfolding from_normalized
  Keeps-from_normalized (key k) = record { kept = λ s p. p }
  Keeps-from_normalized invalid_url = record { kept = λ s p. p }

  Keeps-registered_identity : (i : Option Jwt.Payload) → Keeps (registered_identity i)
  unfolding registered_identity
  Keeps-registered_identity none = record { kept = λ s p. p }
  Keeps-registered_identity (some i) = record {
    kept = λ s p. elim (Bool-cases (bytes_eq i.user_type (bytes "registered"))) [
      | inl e ↦ rw (e) p
      | inr e ↦ rw (e) p
    ];
  }

  Keeps-start_if : (test : Bool) (job : Job) → Keeps (start_if test job)
  unfolding start_if start
  Keeps-start_if true job = record { kept = λ s p. p }
  Keeps-start_if false job = record { kept = λ s p. p }

  Keeps-nickname_of : (d : Drawn) → Keeps (nickname_of d)
  unfolding nickname_of
  Keeps-nickname_of (text n) = record { kept = λ s p. p }
  Keeps-nickname_of failed = record { kept = λ s p. p }
  Keeps-nickname_of out_of_range = record { kept = λ s p. p }

  Keeps-from_created : (q : Queried User) → Keeps (from_created q)
  unfolding from_created
  Keeps-from_created (row a) = record { kept = λ s p. p }
  Keeps-from_created no_rows = record { kept = λ s p. p }
  Keeps-from_created unique_violation = record { kept = λ s p. p }
  Keeps-from_created Users.failed = record { kept = λ s p. p }

  abbrev pub KeepsTable : {A : Type 0} → Statement A → Type 0
  KeepsTable q = (now : ℕ) (users : List User) → P users → P (q now users).1

  module _ (sv : Services) where
    pub Keeps-query : {A : Type 0} (q : Statement A) → KeepsTable q → Keeps (query sv q)
    unfolding query query_at
    Keeps-query q keep = Keeps-bind Keeps-tick λ n. at n (sv.fails n)
      where
        at : (n : ℕ) (down : Bool) → Keeps (query_at sv q n down)
        at n true = record { kept = λ s p. p }
        at n false = record { kept = λ s p. keep (sv.now n) s.users p }

    pub Keeps-select : {A : Type 0} (q : List User → Queried A) → Keeps (select sv q)
    Keeps-select q = Keeps-query (λ _ users. (q users, users)) (λ _ users p. p)

    pub Keeps-issue_token : (claims : Jwt.Payload) → Keeps (issue_token sv claims)
    unfolding issue_token
    Keeps-issue_token claims = Keeps-bind Keeps-tick λ n. Keeps-or_refuse _ _

    module _ (inserts : (u : User) (users : List User) → P users → P (insert_user u users).1)
        (touches : (id : Option Bytes) (now : ℕ) (users : List User)
          → P users
          → P (update_last_login id now users)) where
      pub Keeps-touch : (id : Option Bytes) → Keeps (touch sv id)
      unfolding touch
      Keeps-touch id = Keeps-bind (Keeps-query _ (touches id)) λ _. Keeps-reply tt

      Keeps-open_session :
          (u : User) (avatar plan_type : Bytes) → Keeps (open_session sv u avatar plan_type)
      unfolding open_session
      Keeps-open_session u avatar plan_type =
          Keeps-bind (Keeps-touch (some u.id))
            λ _. Keeps-bind (Keeps-issue_token _) λ _. Keeps-bind Keeps-tick λ _. Keeps-reply _

      Keeps-create_account : (c : Credentials) → Keeps (create_account sv c)
      unfolding create_account hash_password draw_nickname create_user
      Keeps-create_account c = Keeps-bind (Keeps-bind Keeps-tick λ _. Keeps-or_refuse _ _) λ _.
          Keeps-bind (Keeps-bind Keeps-tick λ _. Keeps-nickname_of _) λ _.
            Keeps-bind Keeps-tick
              λ _. Keeps-bind (Keeps-query _ λ now users. inserts _ users) Keeps-from_created

      pub Keeps-handle_register : (r : Request) → Keeps (handle_register sv r)
      unfolding handle_register
      Keeps-handle_register r = Keeps-bind (Keeps-refuse_if _ _) λ _.
          Keeps-bind (Keeps-from_bound _) λ c. Keeps-bind (Keeps-refuse_if _ _) λ _.
            Keeps-bind (Keeps-refuse_if _ _)
              λ _. Keeps-bind (Keeps-create_account c) λ u. Keeps-open_session u _ _

      pub Keeps-handle_login : (r : Request) → Keeps (handle_login sv r)
      unfolding handle_login
      Keeps-handle_login r = Keeps-bind (Keeps-refuse_if _ _) λ _.
          Keeps-bind (Keeps-from_bound _) λ c. Keeps-bind (Keeps-select _) λ q.
            Keeps-bind (Keeps-from_row _ q)
              λ u. Keeps-bind (Keeps-refuse_if _ _) λ _. Keeps-open_session u _ _

    pub Keeps-handle_get_user_profile : (r : Request) → Keeps (handle_get_user_profile sv r)
    unfolding handle_get_user_profile
    Keeps-handle_get_user_profile r = Keeps-bind (Keeps-or_refuse _ _) λ _.
        Keeps-bind (Keeps-or_refuse _ _) λ _. Keeps-bind (Keeps-select _) λ q.
          Keeps-bind (Keeps-from_row _ q)
            λ _. Keeps-bind Keeps-tick λ _. Keeps-bind (Keeps-start_if _ _) λ _. Keeps-reply _

    pub Keeps-handle_update_user_profile :
        ((id : Option Bytes) (nickname avatar_url : Bytes) (now : ℕ) (users : List User)
          → P users
          → P (update_user_profile id nickname avatar_url now users).1)
        → (r : Request) → Keeps (handle_update_user_profile sv r)
    unfolding handle_update_user_profile
    Keeps-handle_update_user_profile profiles r = Keeps-bind (Keeps-registered_identity _) λ _.
        Keeps-bind (Keeps-from_bound _) λ _. Keeps-bind (Keeps-from_normalized _) λ _.
          Keeps-bind (Keeps-select _) λ q. Keeps-bind (Keeps-from_row _ q) λ _.
            Keeps-bind (Keeps-query _ (profiles _ _ _)) λ changed.
              Keeps-bind (Keeps-from_row _ changed)
                λ _. Keeps-bind (Keeps-start_if _ _) λ _. Keeps-bind Keeps-tick λ _. Keeps-reply _

    pub Keeps-handle_change_password :
        ((id : Option Bytes) (password_hash : Bytes) (now : ℕ) (users : List User)
          → P users
          → P (update_user_password id password_hash now users).1)
        → (r : Request) → Keeps (handle_change_password sv r)
    unfolding handle_change_password hash_password
    Keeps-handle_change_password passwords r = Keeps-bind (Keeps-registered_identity _) λ _.
        Keeps-bind (Keeps-from_bound _) λ _. Keeps-bind (Keeps-refuse_if _ _) λ _.
          Keeps-bind (Keeps-select _) λ q. Keeps-bind (Keeps-from_row _ q) λ _.
            Keeps-bind (Keeps-refuse_if _ _) λ _.
              Keeps-bind (Keeps-bind Keeps-tick λ _. Keeps-or_refuse _ _) λ _.
                Keeps-bind (Keeps-query _ (passwords _ _))
                  λ updated. Keeps-bind (Keeps-from_row _ updated) λ _. Keeps-issue_token _
