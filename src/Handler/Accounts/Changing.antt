-- ===== src/Handler/Accounts/Changing.antt =====
-- HandleChangePassword: what a reply means.
use hzchat_server.Common.{
  ℕ, suc, ◌≡◌, refl, sym, subst, ap, ◌∙◌, inl, inr, true, false, List, Option, none, some, arith,
  Bool-cases, Option-cases, leb, not-false,
}
use mathlib.Core.Option
use hzchat_server.Text.{Bytes, bytes, bytes_eq, rune_count}
use hzchat_server.Jwt
use hzchat_server.Jwt.{generate_token, user_identity_expiration}
use hzchat_server.Http.{bound, bind_json}
use hzchat_server.Users.{
  User, row, find, is_active_id, get_user_by_id, update_where, with_password, set_password,
  update_user_password,
}
use hzchat_server.Users.Laws.{
  updated, updated-KeepsKeys, is_active_id-KeepsKeys, find-map, find-holds,
}
use hzchat_server.Handler.Accounts.{
  Store, Services, Request, ChangePasswordInput, Action, replied, ◌>>=◌, or_refuse, tick,
  issue_token, is_bad_password,
}
use hzchat_server.Handler.Accounts.Sessions.{hash_password}
use hzchat_server.Handler.Accounts.Passwords.{handle_change_password}
use hzchat_server.Handler.Accounts.Replying.{
  Replies, Replies-bind, behind-step, behind-refuse_if, behind-from_bound, behind-from_row,
  behind-registered_identity, behind-query,
}
use hzchat_server.Handler.Accounts.Serving.Hashes.{HasHash}

-- The row that an id names.
pub get_user_by_id-inv :
    (o : Option Bytes) (users : List User) (user : User)
    → get_user_by_id o users ≡ row user
    → (id : Bytes) × (o ≡ some id) × (find (is_active_id id) users ≡ some user)
unfolding get_user_by_id
get_user_by_id-inv none users user h = absurd (cc h)
get_user_by_id-inv (some id) users user h = (
  id,
  refl,
  elim (Option-cases (find (is_active_id id) users)) [
    | inl e ↦ absurd (ground (arith, e, h))
    | inr (w, e) ↦ ground (arith, e, h)
  ],
)

-- An UPDATE of the hash of a row that is there, which did not fail.
update_user_password-inv :
    (id hash : Bytes) (now : ℕ) (users : List User) (user : User)
    → find (is_active_id id) users ≡ some user
    → (update_user_password (some id) hash now users).0 ≡ row tt
    → (update_user_password (some id) hash now users).1
      ≡ update_where (some id) (with_password hash now) users
unfolding update_user_password set_password get_user_by_id
update_user_password-inv id hash now users user there h =
    elim (Bool-cases (leb (rune_count hash) 255)) [
      | inl e ↦ ground (arith, there, e)
      | inr e ↦ absurd (ground (arith, there, e, h))
    ]

-- The account has the new hash, whatever its other rows are.
update-hash :
    (id hash : Bytes) (now : ℕ) (users : List User) (user : User)
    → find (is_active_id id) users ≡ some user
    → HasHash id hash (update_where (some id) (with_password hash now) users)
unfolding update_where
update-hash id hash now users user there = (
  updated id (with_password hash now) user,
  find-map (is_active_id id) (updated id (with_password hash now)) users (
        is_active_id-KeepsKeys
          (updated-KeepsKeys id (with_password hash now)
            (record { id = λ u. refl; username = λ u. refl; deleted_at = λ u. refl }))
          id)
      ∙ ap (Option.map (updated id (with_password hash now))) there,
  ground (arith, find-holds (is_active_id id) users user there),
)

changed :
    (o : Option Bytes) (id hash : Bytes) (now : ℕ) (users users' : List User) (user : User)
    → o ≡ some id
    → find (is_active_id id) users ≡ some user
    → (update_user_password o hash now users).0 ≡ row tt
    → users' ≡ (update_user_password o hash now users).1
    → (users' ≡ update_where (some id) (with_password hash now) users) × HasHash id hash users'
changed o id hash now users users' user scanned there ok same =
    let written =
      same
      ∙ ap (λ p. (update_user_password p hash now users).1) scanned
      ∙ update_user_password-inv id hash now users user there
          (ap (λ p. (update_user_password p hash now users).0) (sym scanned) ∙ ok) in
    (written, subst (HasHash id hash) (sym written) (update-hash id hash now users user there))

module _ (sv : Services) where
  hashed-eq :
      (password hash : Bytes) (s : Store)
      → sv.generate_from_password s.ticks password ≡ some hash
      → hash_password sv password s ≡ (replied hash, record s { ticks = suc s.ticks })
  unfolding hash_password tick ◌>>=◌ or_refuse
  hashed-eq password hash s e = ground (arith, e)

  unhashed :
      (password hash : Bytes) (s v : Store)
      → sv.generate_from_password s.ticks password ≡ none
      → ¬ Replies (hash_password sv password) s hash v
  unfolding hash_password tick ◌>>=◌ or_refuse
  unhashed password hash s v e h = ground (arith, e, h.runs)

  behind-hash_password :
      {B : Type 0} {b : B} (password : Bytes) (k : Bytes → Action B) (s s' : Store)
      → Replies (hash_password sv password >>= k) s b s'
      → (hash : Bytes) × (sv.generate_from_password s.ticks password ≡ some hash)
        × Replies (k hash) (record s { ticks = suc s.ticks }) b s'
  behind-hash_password password k s s' h =
      elim (Option-cases (sv.generate_from_password s.ticks password)) [
        | inl e ↦
            let (hash, v, first, _) = Replies-bind h in absurd (unhashed password hash s v e first)
        | inr (hash, e) ↦ (hash, e, behind-step _ _ (hashed-eq password hash s e) h)
      ]

  -- The identity as the new token carries it.
  abbrev reissued : ℕ → Jwt.Payload → Jwt.Payload
  reissued now identity =
      (generate_token sv.sign now identity sv.jwt_secret user_identity_expiration).0

  issued-inv :
      (identity : Jwt.Payload) (s s' : Store) (token : Bytes)
      → Replies (issue_token sv identity) s token s'
      → (sv.sign (reissued (sv.now s.ticks) identity) sv.jwt_secret ≡ some token)
        × (s' ≡ record s { ticks = suc s.ticks })
  unfolding issue_token tick ◌>>=◌ generate_token or_refuse
  issued-inv identity s s' token h =
      elim (Option-cases (sv.sign (reissued (sv.now s.ticks) identity) sv.jwt_secret)) [
        | inl e ↦ absurd (ground (arith, e, h.runs))
        | inr (t, e) ↦ (ground (arith, e, h.runs), ground (arith, e, h.runs))
      ]

  -- What the reply of a token means, in three parts: who asked, with what input; which account it is, that
  -- the old password is its password, and what bcrypt made of the new one; the table afterwards, and the
  -- token.
  abbrev pub IsChanged :
      Request
      → Store
      → Store
      → Bytes
      → Jwt.Payload
      → ChangePasswordInput
      → Bytes
      → User
      → Bytes
      → Type 0
  IsChanged r s s' token identity input id user hash =
      ((r.identity ≡ some identity)
        × (bytes_eq identity.user_type (bytes "registered") ≡ true)
        × (sv.scan_uuid identity.id ≡ some id)
        × (bind_json sv.decode_change_password r.content_type r.body ≡ bound input))
      × ((find (is_active_id id) s.users ≡ some user)
          × (sv.compare_hash_and_password user.password_hash input.old_password ≡ true)
          × (is_bad_password input.new_password ≡ false)
          × (sv.generate_from_password (suc s.ticks) input.new_password ≡ some hash))
      × ((s'.users
            ≡ update_where (some id) (with_password hash (sv.now (suc (suc s.ticks)))) s.users)
          × HasHash id hash s'.users
          × (sv.sign (reissued (sv.now (suc (suc (suc s.ticks)))) identity) sv.jwt_secret
              ≡ some token))

  change-inv :
      (r : Request) (s s' : Store) (token : Bytes)
      → Replies (handle_change_password sv r) s token s'
      → (identity : Jwt.Payload) × (input : ChangePasswordInput) × (id : Bytes) × (user : User)
        × (hash : Bytes) × IsChanged r s s' token identity input id user hash
  unfolding handle_change_password
  change-inv r s s' token h =
      let (identity, (known, registered), h1) = behind-registered_identity r.identity h in
      let (input, read, h2) = behind-from_bound _ h1 in
      let (good, h3) = behind-refuse_if _ _ h2 in
      elim (behind-query sv _ _ h3) [
        | inr h4 ↦ absurd (let (_, e, _) = behind-from_row _ _ h4 in cc e)
        | inl h4 ↦
            let (user, there, h5) = behind-from_row _ _ h4 in
            let (id, scanned, row_there) =
              get_user_by_id-inv (sv.scan_uuid identity.id) s.users user there in
            let (right, h6) = behind-refuse_if _ _ h5 in
            let (hash, hashed, h7) = behind-hash_password _ _ _ _ h6 in
            elim (behind-query sv _ _ h7) [
              | inr h8 ↦ absurd (let (_, e, _) = behind-from_row _ _ h8 in cc e)
              | inl h8 ↦
                  let (_, ok, h9) = behind-from_row _ _ h8 in
                  let (signed, ended) = issued-inv identity _ s' token h9 in
                  (
                    identity,
                    input,
                    id,
                    user,
                    hash,
                    (
                      (known, registered, scanned, read),
                      (row_there, not-false _ right, good, hashed),
                      (let (rows, has) =
                            changed (sv.scan_uuid identity.id) id hash (sv.now (suc (suc s.ticks)))
                              s.users s'.users user scanned row_there ok
                              (ap (λ t. t.users) ended) in
                          (rows, has, signed)),
                    ),
                  )
            ]
      ]

  -- If HandleChangePassword replies a token, then the request had the identity of a registered user with
  -- an active account, the old password fitted its hash, and the new password has a length that is allowed;
  -- the one change to the table is that this account has a hash of the new password, and the token is
  -- signed over all claims of the identity, with new times and the issuer.
  pub handle_change_password_lem :
      (r : Request) (s s' : Store) (token : Bytes)
      → handle_change_password sv r s ≡ (replied token, s')
      → (identity : Jwt.Payload) × (input : ChangePasswordInput) × (id : Bytes) × (user : User)
        × (hash : Bytes) × IsChanged r s s' token identity input id user hash
  handle_change_password_lem r s s' token h = change-inv r s s' token (record { runs = h })
