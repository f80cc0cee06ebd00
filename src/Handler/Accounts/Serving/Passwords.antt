-- ===== src/Handler/Accounts/Serving/Passwords.antt =====
-- internal/handler/auth_handler.go: who can change the password of an account, over all requests.
use hzchat_server.Common.{
  ◌≡◌, ◌≢◌, sym, ap, ◌∙◌, ◌⊎◌, inl, inr, true, false, not, List, [], ◌∷◌, Option, some, arith,
  Bool-cases, Option-cases,
}
use mathlib.Core.List.{Memᴰ}
use hzchat_server.Text.{Bytes, bytes, bytes_eq, bytes_eq_iff}
use hzchat_server.Errs.{err_unknown}
use hzchat_server.Jwt
use hzchat_server.Http.{bound, bind_json}
use hzchat_server.Users.{User, row, failed, get_user_by_id, update_user_password}
use hzchat_server.Handler.Accounts.{
  Store, Services, Request, ChangePasswordInput, ◌>>=◌, ◌>>◌, from_row, issue_token, query,
}
use hzchat_server.Handler.Accounts.Sessions.{hash_password}
use hzchat_server.Handler.Accounts.Passwords.{handle_change_password}
use hzchat_server.Handler.Accounts.Keeping.{
  Keeps, Keeps-bind, Keeps-tick, Keeps-query, Keeps-refuse_if, Keeps-or_refuse, Keeps-from_row,
  Keeps-issue_token,
}
use hzchat_server.Handler.Accounts.Serving.Hashes.{
  HasHash, insert-HasHash, touch-HasHash, profile-HasHash, password-HasHash,
}
use hzchat_server.Handler.Accounts.Keeping.Guards.{
  refuse_if-then, from_bound-then, from_row-then, registered_identity-then, select-then,
}
use hzchat_server.Handler.Accounts.Serving.{Event, changing, serve, serve_all, serve-keeps}

module _ (sv : Services) where
  -- The request changes a password by HandleChangePassword, with the identity of this registered account
  -- and its current password.
  abbrev pub IsOwnChange : Bytes → Bytes → Request → Type 0
  IsOwnChange id hash r =
      (identity : Jwt.Payload) × (input : ChangePasswordInput) × (r.identity ≡ some identity)
      × (bytes_eq identity.user_type (bytes "registered") ≡ true)
      × (sv.scan_uuid identity.id ≡ some id)
      × (bind_json sv.decode_change_password r.content_type r.body ≡ bound input)
      × (sv.compare_hash_and_password hash input.old_password ≡ true)

  decide_own : (name own : Bytes) → (sv.scan_uuid name ≡ some own) ⊎ (sv.scan_uuid name ≢ some own)
  decide_own name own = elim (Option-cases (sv.scan_uuid name)) [
    | inl e ↦ inr λ f. cc (e, f)
    | inr (found_id, e) ↦ elim (Bool-cases (bytes_eq found_id own)) [
      | inl same ↦ inl (e ∙ ap some ((bytes_eq_iff found_id own).0 same))
      | inr other ↦ inr λ f. ground (arith, e, f, other, bytes_eq_iff found_id own)
    ]
  ]

  -- The user that the handler reads has this hash.
  matches :
      (id hash : Bytes) (users : List User) (user : User) (name old_password : Bytes)
      → HasHash id hash users
      → sv.scan_uuid name ≡ some id
      → get_user_by_id (sv.scan_uuid name) users ≡ row user
      → not (sv.compare_hash_and_password user.password_hash old_password) ≡ false
      → sv.compare_hash_and_password hash old_password ≡ true
  unfolding get_user_by_id
  matches id hash users user name old_password (u, there, same) own read right =
      ground (arith, same, right, own, there, read)

  -- Behind the query of the user.
  other_change :
      (id hash : Bytes) (user_uuid : Option Bytes) (password_hash : Bytes) (identity : Jwt.Payload)
      → user_uuid ≢ some id
      → Keeps (HasHash id hash) (do
        updated ← query sv (update_user_password user_uuid password_hash)
        from_row err_unknown updated
        issue_token sv identity)
  other_change id hash user_uuid password_hash identity other =
      Keeps-bind _
        (Keeps-query _ sv _
          λ now users. password-HasHash id hash user_uuid password_hash now users other)
        λ q. Keeps-bind _ (Keeps-from_row _ _ q) λ _. Keeps-issue_token _ sv identity

  Keeps-change :
      (id hash : Bytes) (r : Request)
      → ¬ IsOwnChange id hash r
      → Keeps (HasHash id hash) (handle_change_password sv r)
  unfolding handle_change_password hash_password
  Keeps-change id hash r foreign =
      registered_identity-then _ r.identity λ identity known registered.
        from_bound-then _ _ λ input read. refuse_if-then _ _ λ _. elim (decide_own identity.id id) [
          | inl own ↦
              select-then _ sv _ _
                (λ users h.
                  from_row-then _ _ (get_user_by_id (sv.scan_uuid identity.id) users) λ user there.
                    refuse_if-then _ _ λ right. absurd (
                      foreign (
                        identity,
                        input,
                        known,
                        registered,
                        own,
                        read,
                        matches id hash users user identity.id input.old_password h own there right,
                      )))
                (from_row-then _ _ failed λ user e. absurd (cc e))
          | inr other ↦ Keeps-bind _ (Keeps-query _ sv _ (λ _ users p. p)) λ queried.
              Keeps-bind _ (Keeps-from_row _ _ queried) λ user.
                Keeps-bind _ (Keeps-refuse_if _ _ _) λ _.
                  Keeps-bind _ (Keeps-bind _ (Keeps-tick _) λ _. Keeps-or_refuse _ _ _)
                    λ password_hash.
                      other_change id hash (sv.scan_uuid identity.id) password_hash identity other
        ]

  serve-HasHash :
      (id hash : Bytes) (e : Event) (s : Store)
      → ((r : Request) → e ≡ changing r → ¬ IsOwnChange id hash r)
      → HasHash id hash s.users
      → HasHash id hash (serve sv e s).users
  serve-HasHash id hash e s foreign h =
      serve-keeps sv (HasHash id hash) (insert-HasHash id hash) (touch-HasHash id hash)
        (profile-HasHash id hash) e (λ r own. Keeps-change id hash r (foreign r own)) s h

  -- Over any sequence of requests and ends of goroutines, an active account keeps its password hash,
  -- unless a HandleChangePassword is among them with the registered identity of this account and a
  -- password that the hash fits.
  pub serve_all-HasHash :
      (id hash : Bytes) (events : List Event) (s : Store)
      → ((r : Request) → Memᴰ (changing r) events → ¬ IsOwnChange id hash r)
      → HasHash id hash s.users
      → HasHash id hash (serve_all sv events s).users
  unfolding serve_all
  serve_all-HasHash id hash [] s foreign h = h
  serve_all-HasHash id hash (e ∷ events) s foreign h =
      serve_all-HasHash id hash events (serve sv e s) (λ r m. foreign r (Memᴰ.tail m))
        (serve-HasHash id hash e s (λ r same. foreign r (Memᴰ.head (sym same))) h)
