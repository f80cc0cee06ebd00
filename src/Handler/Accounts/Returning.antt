-- ===== src/Handler/Accounts/Returning.antt =====
-- HandleRegister and then HandleLogin: an account can be used by who made it.
use hzchat_server.Common.{
  ℕ, suc, ◌≡◌, refl, sym, ap, ◌∙◌, inl, inr, true, false, List, [], none, some, arith, Bool-cases,
}
use mathlib.Core.Option
use hzchat_server.Text.{Bytes, bytes, bytes_eq_iff}
use hzchat_server.Jwt
use hzchat_server.Jwt.{generate_token, user_identity_expiration}
use hzchat_server.Http.{bind_json, bound}
use hzchat_server.Users.{
  User, row, found, find, is_active_name, is_active_id, get_user_by_username, update_last_login,
  update_where,
}
use hzchat_server.Users.Laws.{
  KeepsKeys, updated, updated-KeepsKeys, find-map, is_active_name-KeepsKeys,
}
use hzchat_server.Handler.Accounts.{
  Store, Services, Request, Credentials, replied, or_empty, claims_of,
}
use hzchat_server.Handler.Accounts.Steps.{touched}
use hzchat_server.Handler.Accounts.Sessions.{Session, handle_register, handle_login}
use hzchat_server.Handler.Accounts.Creating.{IsInserted, account_at, create_account-inv}
use hzchat_server.Handler.Accounts.Profiles.{avatar_of}
use hzchat_server.Handler.Accounts.Login.{session_of, after_session, login_found, open_session_lem}
use hzchat_server.Handler.Accounts.Registering.{handle_register-inv, open_session-inv}

abbrev stamped : ℕ → User → User
stamped now u = record u { last_login_at = some now }

-- The same account, at another time.
abbrev IsSame : User → User → Type 0
IsSame u w = (w.id ≡ u.id) × (w.nickname ≡ u.nickname) × (w.password_hash ≡ u.password_hash)

updated-IsSame : (id : Bytes) (now : ℕ) (u : User) → IsSame u (updated id (stamped now) u)
updated-IsSame id now u = elim (Bool-cases (is_active_id id u)) [
  | inl e ↦ (ground (arith, e), ground (arith, e), ground (arith, e))
  | inr e ↦ (ground (arith, e), ground (arith, e), ground (arith, e))
]

stamped-KeepsKeys : (now : ℕ) → KeepsKeys (stamped now)
stamped-KeepsKeys now = record { id = λ u. refl; username = λ u. refl; deleted_at = λ u. refl }

find-update_last_login :
    (id username : Bytes) (now : ℕ) (users : List User) (u : User)
    → find (is_active_name username) users ≡ some u
    → find (is_active_name username) (update_last_login (some id) now users)
      ≡ some (updated id (stamped now) u)
unfolding update_last_login update_where
find-update_last_login id username now users u e =
    find-map (is_active_name username) (updated id (stamped now)) users (
      is_active_name-KeepsKeys (updated-KeepsKeys id (stamped now) (stamped-KeepsKeys now))
        username)
    ∙ ap (Option.map (updated id (stamped now))) e

module _ (sv : Services) where
  find-touched :
      (id username : Bytes) (s : Store) (u : User)
      → find (is_active_name username) s.users ≡ some u
      → (w : User) × (find (is_active_name username) (touched sv s id) ≡ some w) × IsSame u w
  find-touched id username s u e = elim (Bool-cases (sv.fails s.ticks)) [
    | inl down ↦ (u, ground (arith, down, e), (refl, refl, refl))
    | inr up ↦ (
      updated id (stamped (sv.now s.ticks)) u,
      ground (arith, up, find-update_last_login id username (sv.now s.ticks) s.users u e),
      updated-IsSame id (sv.now s.ticks) u,
    )
  ]

  find-IsInserted :
      (n : ℕ) (username password_hash nickname : Bytes) (u : User) (users users' : List User)
      → IsInserted (account_at sv n username password_hash nickname) users u users'
      → (find (is_active_name username) users' ≡ some u) × (u.password_hash ≡ password_hash)
  unfolding find
  find-IsInserted n username password_hash nickname u users users' (same, grown, _, _) =
      (ground (arith, same, grown, bytes_eq_iff username username), ap (λ v. v.password_hash) same)

  -- What stands in the table after a registration that replied a session.
  registered :
      (r : Request) (s s' : Store) (session : Session)
      → handle_register sv r s ≡ (replied session, s')
      → (c : Credentials) × (w : User) × (n : ℕ) × (bind_json sv.decode_credentials r.content_type
            r.body
          ≡ bound c)
        × (get_user_by_username c.username s'.users ≡ row w)
        × (sv.generate_from_password n c.password ≡ some w.password_hash)
        × (session.user.id ≡ sv.uuid_string w.id)
        × (session.user.nickname ≡ or_empty w.nickname)
  unfolding get_user_by_username
  registered r s s' session h =
      let (c, u, v, (_, read, made, done)) = handle_register-inv sv r s s' session h in
      let (password_hash, nickname, hashed, inserted) = create_account-inv sv c s v u made in
      let (there, own) =
        find-IsInserted (suc (suc s.ticks)) c.username password_hash nickname u s.users v.users
          inserted in
      let (token, replied_with, after) =
        open_session-inv sv u [] (bytes "FREE") v s' session done in
      let (w, still, (id, name, hash)) = find-touched u.id c.username v u there in
      (
        c,
        w,
        s.ticks,
        read,
        ap found (ap (λ t. find (is_active_name c.username) t.users) after ∙ still),
        hashed ∙ ap some (sym own ∙ sym hash),
        ap (λ t. t.user.id) replied_with ∙ ap sv.uuid_string (sym id),
        ap (λ t. t.user.nickname) replied_with ∙ ap or_empty (sym name),
      )

  -- If HandleRegister replies a session, then HandleLogin of an anonymous request with the same
  -- credentials replies a session of the same user id and nickname at once, where the query reaches the
  -- database, bcrypt compares a password with its own hashes as equal, and signing does not fail.
  pub register_login :
      ((n : ℕ) (password hash : Bytes)
        → sv.generate_from_password n password ≡ some hash
        → sv.compare_hash_and_password hash password ≡ true)
      → ((claims : Jwt.Payload) (secret : Bytes)
          → (token : Bytes) × (sv.sign claims secret ≡ some token))
      → (r r' : Request) (s s' : Store) (session : Session)
      → handle_register sv r s ≡ (replied session, s')
      → r'.identity ≡ none
      → (bind_json sv.decode_credentials r'.content_type r'.body
          ≡ bind_json sv.decode_credentials r.content_type r.body)
      → sv.fails s'.ticks ≡ false
      → (again : Session) × (s'' : Store) × (handle_login sv r' s' ≡ (replied again, s''))
        × (again.user.id ≡ session.user.id)
        × (again.user.nickname ≡ session.user.nickname)
  unfolding generate_token
  register_login compares signs r r' s s' session h anonymous same up =
      let (c, w, n, read, there, hashed, id, name) = registered r s s' session h in
      let (token, signed) =
        signs
          (generate_token sv.sign (sv.now (suc (suc s'.ticks)))
            (claims_of (sv.uuid_string w.id) (bytes "registered") (or_empty w.nickname)
              (avatar_of sv w))
            sv.jwt_secret user_identity_expiration).0
          sv.jwt_secret in
      let t : Store = record s' { ticks = suc s'.ticks } in
      (
        session_of sv t w (avatar_of sv w) w.plan_type token,
        after_session sv t w,
        login_found sv r' c w s' (anonymous, same ∙ read) up
              (there, compares n c.password w.password_hash hashed)
            ∙ open_session_lem sv w (avatar_of sv w) w.plan_type token t signed,
        sym id,
        sym name,
      )
