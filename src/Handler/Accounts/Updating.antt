-- ===== src/Handler/Accounts/Updating.antt =====
-- HandleUpdateUserProfile: what a reply means, and which file is deleted.
use hzchat_server.Common.{
  ℕ, suc, ◌≡◌, refl, sym, ap, ◌∙◌, inl, inr, Bool, true, false, List, [], ◌∷◌, ◌++◌, Option, some,
  arith, if◌then◌else◌, Bool-cases, leb,
}
use mathlib.Core.List.{append-nil}
use hzchat_server.Text.{Bytes, bytes, bytes_eq, rune_count}
use hzchat_server.Jwt
use hzchat_server.Http.{bound, bind_json}
use hzchat_server.Users.{
  User, row, find, is_active_id, get_user_by_id, update_where, with_profile, set_profile,
  update_user_profile,
}
use hzchat_server.Handler.Assets.{key, normalize_asset_key, full_asset_url}
use hzchat_server.Handler.Accounts.{
  Job, delete_object, Store, Services, Request, UpdateProfileInput, replied, start, or_empty,
}
use hzchat_server.Handler.Accounts.Profiles.{
  UpdatedProfile, start_if, is_replaced, handle_update_user_profile, avatar_of,
}
use hzchat_server.Handler.Accounts.Replying.{
  Replies, Replies-reply, behind-step, behind-from_bound, behind-from_row, behind-from_normalized,
  behind-registered_identity, behind-tick, behind-query,
}
use hzchat_server.Handler.Accounts.Changing.{get_user_by_id-inv}

update_user_profile-inv :
    (id nickname avatar_url : Bytes) (now : ℕ) (users : List User) (user changed : User)
    → find (is_active_id id) users ≡ some user
    → (update_user_profile (some id) nickname avatar_url now users).0 ≡ row changed
    → ((update_user_profile (some id) nickname avatar_url now users).1
        ≡ update_where (some id) (with_profile nickname avatar_url now) users)
      × (changed ≡ with_profile nickname avatar_url now user)
unfolding update_user_profile set_profile get_user_by_id
update_user_profile-inv id nickname avatar_url now users user changed there h =
    elim (Bool-cases (leb (rune_count nickname) 50)) [
      | inl e ↦ (ground (arith, there, e), ground (arith, there, e, h))
      | inr e ↦ absurd (ground (arith, there, e, h))
    ]

changed_row :
    (o : Option Bytes) (id nickname avatar_url : Bytes) (now : ℕ) (users : List User)
    (user changed : User)
    → o ≡ some id
    → find (is_active_id id) users ≡ some user
    → (update_user_profile o nickname avatar_url now users).0 ≡ row changed
    → ((update_user_profile o nickname avatar_url now users).1
        ≡ update_where (some id) (with_profile nickname avatar_url now) users)
      × (changed ≡ with_profile nickname avatar_url now user)
changed_row o id nickname avatar_url now users user changed scanned there ok =
    let (rows, row_is) =
      update_user_profile-inv id nickname avatar_url now users user changed there
        (ap (λ p. (update_user_profile p nickname avatar_url now users).0) (sym scanned) ∙ ok) in
    (ap (λ p. (update_user_profile p nickname avatar_url now users).1) scanned ∙ rows, row_is)

-- What is to be deleted when a key takes the place of another.
abbrev pub deleted : Bytes → Bytes → List Job
deleted old_key avatar_key =
    if is_replaced old_key avatar_key then delete_object old_key ∷ [] else []

start_if-eq :
    (test : Bool) (job : Job) (s : Store)
    → start_if test job s
      ≡ (replied tt, record s { jobs = s.jobs ++ (if test then job ∷ [] else []) })
unfolding start_if start
start_if-eq true job s = refl
start_if-eq false job s = ap (λ js. (replied tt, record s { jobs = js })) (sym (append-nil s.jobs))

module _ (sv : Services) where
  -- What the reply of a profile means, in three parts: who asked, with what input; the key of the avatar and
  -- the account; the table, the jobs and the response afterwards.
  abbrev pub IsUpdated :
      Request
      → Store
      → Store
      → UpdatedProfile
      → Jwt.Payload
      → UpdateProfileInput
      → Bytes
      → Bytes
      → User
      → Type 0
  IsUpdated r s s' response identity input avatar_key id user =
      ((r.identity ≡ some identity)
        × (bytes_eq identity.user_type (bytes "registered") ≡ true)
        × (sv.scan_uuid identity.id ≡ some id)
        × (bind_json sv.decode_update_profile r.content_type r.body ≡ bound input))
      × ((normalize_asset_key sv.s3_public_base_url input.avatar_url ≡ key avatar_key)
          × (find (is_active_id id) s.users ≡ some user))
      × ((s'.users
            ≡ update_where (some id) (with_profile input.nickname avatar_key (sv.now (suc s.ticks)))
                s.users)
          × (s'.jobs ≡ s.jobs ++ deleted (or_empty user.avatar_url) avatar_key)
          × (response.user.nickname ≡ input.nickname)
          × (response.user.avatar ≡ full_asset_url sv.s3_public_base_url avatar_key))

  update-inv :
      (r : Request) (s s' : Store) (response : UpdatedProfile)
      → Replies (handle_update_user_profile sv r) s response s'
      → (identity : Jwt.Payload) × (input : UpdateProfileInput) × (avatar_key id : Bytes)
        × (user : User) × IsUpdated r s s' response identity input avatar_key id user
  unfolding handle_update_user_profile
  update-inv r s s' response h =
      let (identity, (known, registered), h1) = behind-registered_identity r.identity h in
      let (input, read, h2) = behind-from_bound _ h1 in
      let (avatar_key, normal, h3) = behind-from_normalized _ h2 in
      elim (behind-query sv _ _ h3) [
        | inr h4 ↦ absurd (let (_, e, _) = behind-from_row _ _ h4 in cc e)
        | inl h4 ↦
            let (user, there, h5) = behind-from_row _ _ h4 in
            let (id, scanned, row_there) =
              get_user_by_id-inv (sv.scan_uuid identity.id) s.users user there in
            elim (behind-query sv _ _ h5) [
              | inr h6 ↦ absurd (let (_, e, _) = behind-from_row _ _ h6 in cc e)
              | inl h6 ↦
                  let (changed, ok, h7) = behind-from_row _ _ h6 in
                  let h8 = behind-step _ _ (start_if-eq _ _ _) h7 in
                  let h9 = behind-tick _ h8 in
                  let (reply_is, end_is) = Replies-reply _ h9 in
                  let (rows, row_is) =
                    changed_row (sv.scan_uuid identity.id) id input.nickname avatar_key
                      (sv.now (suc s.ticks)) s.users user changed scanned row_there ok in
                  (
                    identity,
                    input,
                    avatar_key,
                    id,
                    user,
                    (
                      (known, registered, scanned, read),
                      (normal, row_there),
                      (
                        ap (λ t. t.users) end_is ∙ rows,
                        ap (λ t. t.jobs) end_is,
                        ap (λ t. t.user.nickname) reply_is ∙ ap (λ u. or_empty u.nickname) row_is,
                        ap (λ t. t.user.avatar) reply_is ∙ ap (avatar_of sv) row_is,
                      ),
                    ),
                  )
            ]
      ]

  -- If HandleUpdateUserProfile replies, then the request had the identity of a registered user with an
  -- active account and an avatar that NormalizeAssetKey accepts; the one change to the table is that this
  -- account has the nickname and the key of the input, as the response shows them; and the one job that is
  -- started deletes the key that the account had as its avatar before, where both keys are given and
  -- differ.
  pub handle_update_user_profile_lem :
      (r : Request) (s s' : Store) (response : UpdatedProfile)
      → handle_update_user_profile sv r s ≡ (replied response, s')
      → (identity : Jwt.Payload) × (input : UpdateProfileInput) × (avatar_key id : Bytes)
        × (user : User) × IsUpdated r s s' response identity input avatar_key id user
  handle_update_user_profile_lem r s s' response h =
      update-inv r s s' response (record { runs = h })
