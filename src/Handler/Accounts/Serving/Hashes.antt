-- ===== src/Handler/Accounts/Serving/Hashes.antt =====
-- The password hash of an account, under the statements of internal/app/db.
use hzchat_server.Common.{ℕ, ◌≡◌, ◌≢◌, refl, ap, ◌∙◌, inl, inr, List, Option, some}
use hzchat_server.Text.{Bytes}
use hzchat_server.Users.{
  User, find, is_active_id, insert_user, update_where, update_last_login, update_user_password,
  update_user_profile, with_profile, with_password,
}
use hzchat_server.Users.Laws.{
  KeepsKeys, find-update_where, find-insert_user, update_user_profile-keeps,
  update_user_password-keeps,
}

-- The active account of an id has this password hash.
abbrev pub HasHash : Bytes → Bytes → List User → Type 0
HasHash id hash users =
    (u : User) × (find (is_active_id id) users ≡ some u) × (u.password_hash ≡ hash)

module _ (id hash : Bytes) where
  pub insert-HasHash :
      (u : User) (users : List User)
      → HasHash id hash users
      → HasHash id hash (insert_user u users).1
  insert-HasHash u users (w, there, same) = (w, find-insert_user u w users id there, same)

  update-HasHash :
      (updated_id : Option Bytes) (f : User → User) (users : List User)
      → KeepsKeys f
      → (updated_id ≡ some id → (u : User) → (f u).password_hash ≡ u.password_hash)
      → HasHash id hash users
      → HasHash id hash (update_where updated_id f users)
  update-HasHash updated_id f users k keep (u, there, same) =
      let (w, then_there, which) = find-update_where updated_id f id users u k there in
      (
        w,
        then_there,
        elim which [
          | inl e ↦ ap (λ v. v.password_hash) e ∙ same
          | inr (own, e) ↦ ap (λ v. v.password_hash) e ∙ keep own u ∙ same
        ],
      )

  pub touch-HasHash :
      (touched_id : Option Bytes) (now : ℕ) (users : List User)
      → HasHash id hash users
      → HasHash id hash (update_last_login touched_id now users)
  unfolding update_last_login
  touch-HasHash touched_id now users =
      update-HasHash touched_id (λ u. record u { last_login_at = some now }) users
        (record { id = λ u. refl; username = λ u. refl; deleted_at = λ u. refl }) (λ _ u. refl)

  pub profile-HasHash :
      (updated_id : Option Bytes) (nickname avatar_url : Bytes) (now : ℕ) (users : List User)
      → HasHash id hash users
      → HasHash id hash (update_user_profile updated_id nickname avatar_url now users).1
  profile-HasHash updated_id nickname avatar_url now users h =
      update_user_profile-keeps (HasHash id hash) updated_id nickname avatar_url now users
        (update-HasHash updated_id (with_profile nickname avatar_url now) users
          (record { id = λ u. refl; username = λ u. refl; deleted_at = λ u. refl }) (λ _ u. refl) h)
        h

  pub password-HasHash :
      (updated_id : Option Bytes) (password_hash : Bytes) (now : ℕ) (users : List User)
      → updated_id ≢ some id
      → HasHash id hash users
      → HasHash id hash (update_user_password updated_id password_hash now users).1
  password-HasHash updated_id password_hash now users other h =
      update_user_password-keeps (HasHash id hash) updated_id password_hash now users
        (update-HasHash updated_id (with_password password_hash now) users
          (record { id = λ u. refl; username = λ u. refl; deleted_at = λ u. refl })
          (λ own. absurd (other own)) h)
        h
