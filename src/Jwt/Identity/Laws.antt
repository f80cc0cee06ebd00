-- ===== src/Jwt/Identity/Laws.antt =====
-- Which requests have an identity.
use hzchat_server.Common.{
  ◌≡◌, ◌≢◌, refl, ap, ◌∙◌, ◌↔◌, ◌⊎◌, inl, inr, Bool, false, [], ◌∷◌, ◌++◌, Option, none, some, ◌==◌,
  arith, Bool-cases, Option-cases, ==_iff,
}
use hzchat_server.Text.{Bytes, bytes, bytes_eq, bytes_eq_iff, bytes_eq_refl}
use hzchat_server.Jwt.{Payload, parse_token}
use hzchat_server.Jwt.Identity.{split_space, bearer, token_string, parsed, extract_identity}

-- No space among the bytes.
abbrev IsWord : Bytes → Type 0
IsWord [] = Unit
IsWord (c ∷ s) = ((c == b' ') ≡ false) × IsWord s

split_space_word : (a b : Bytes) → IsWord a → split_space (a ++ b' ' ∷ b) ≡ some (a, b)
unfolding split_space
split_space_word [] b w = refl
split_space_word (c ∷ a) b (other, w) = ground (arith, other, split_space_word a b w)

split_space-inv : (s a b : Bytes) → split_space s ≡ some (a, b) → s ≡ a ++ b' ' ∷ b
unfolding split_space
split_space-inv [] a b h = absurd (cc h)
split_space-inv (c ∷ s) a b h = elim (Bool-cases (c == b' ')) [
  | inl space ↦
      let same : ◌≡◌ {A = Option (Bytes × Bytes)} (some ([], s)) (some (a, b)) = rw (space) at h in
      let left : ◌≡◌ {A = Bytes} [] a = ap (λ o. elim o [ none ↦ [] | some (x, _) ↦ x ]) same in
      let right : s ≡ b = ap (λ o. elim o [ none ↦ [] | some (_, y) ↦ y ]) same in
      rw (← left, ← right, (==_iff c b' ').0 space) refl
  | inr other ↦ elim (Option-cases (split_space s)) [
    | inl e ↦ absurd (ground (arith, other, e, h))
    | inr ((x, y), e) ↦
        let same : ◌≡◌ {A = Option (Bytes × Bytes)} (some (c ∷ x, y)) (some (a, b)) =
          rw (other, e) at h in
        let left : c ∷ x ≡ a = ap (λ o. elim o [ none ↦ [] | some (v, _) ↦ v ]) same in
        let right : y ≡ b = ap (λ o. elim o [ none ↦ [] | some (_, w) ↦ w ]) same in
        rw (← left, ← right) (ap (◌∷◌ c) (split_space-inv s x y e))
  ]
]

-- A header that carries a token.
bearer_iff :
    (auth_header token : Bytes)
    → (bearer (split_space auth_header) ≡ some token) ↔ (auth_header ≡ bytes "Bearer " ++ token)
unfolding bearer
bearer_iff auth_header token = (
  λ h. elim (Option-cases (split_space auth_header)) [
    | inl e ↦ absurd (ground (arith, e, h))
    | inr ((scheme, rest), e) ↦ elim (Bool-cases (bytes_eq scheme (bytes "Bearer"))) [
      | inl right ↦
          split_space-inv auth_header scheme rest e
          ∙ rw ((bytes_eq_iff scheme (bytes "Bearer")).0 right)
              (ap (λ t. bytes "Bearer " ++ t) (ground (arith, e, right, h)))
      | inr wrong ↦ absurd (ground (arith, e, wrong, h))
    ]
  ],
  λ e.
      rw
        (
          e,
          split_space_word (bytes "Bearer") token
              (refl, (refl, (refl, (refl, (refl, (refl, tt)))))),
          bytes_eq_refl (bytes "Bearer"),
        )
        refl,
)

abbrev download_path : Bytes
download_path = bytes "/api/file/presign-download"

-- Where a token comes from: the header, or for downloads without one the query.
abbrev pub IsPresented : Bytes → Bytes → Bytes → Bytes → Type 0
IsPresented auth_header path t token =
    (auth_header ≡ bytes "Bearer " ++ token)
    ⊎ ((auth_header ≡ []) × (path ≡ download_path) × (t ≡ token) × (t ≢ []))

token_string_iff :
    (auth_header path t token : Bytes)
    → (token_string auth_header path t ≡ some token) ↔ IsPresented auth_header path t token
unfolding token_string
token_string_iff auth_header path t token = elim (Bool-cases (bytes_eq auth_header [])) [
  | inr there ↦ (
    λ h. inl ((bearer_iff auth_header token).0 (rw (there) at h)),
    λ p. elim p [
      | inl e ↦ rw (there) ((bearer_iff auth_header token).1 e)
      | inr (e, _, _, _) ↦ absurd (ground (arith, there, e, bytes_eq_iff auth_header []))
    ],
  )
  | inl absent ↦ (
    λ h. elim (Bool-cases (bytes_eq path download_path)) [
      | inr elsewhere ↦ absurd (ground (arith, absent, elsewhere, h))
      | inl here ↦ elim (Bool-cases (bytes_eq t [])) [
        | inl empty ↦ absurd (ground (arith, absent, here, empty, h))
        | inr full ↦ inr (
          (bytes_eq_iff auth_header []).0 absent,
          (bytes_eq_iff path download_path).0 here,
          ground (arith, absent, here, full, h),
          λ e. ground (arith, full, e, bytes_eq_iff t []),
        )
      ]
    ],
    λ p. elim p [
      | inl e ↦ absurd (ground (arith, absent, e, bytes_eq_iff auth_header []))
      | inr (e, here, same, full) ↦
          ground
            (arith, absent, (bytes_eq_iff path download_path).1 here, same, full, bytes_eq_iff t [])
    ],
  )
]

module _ (parse_with_claims : (Bool → Option Bytes) → Bytes → Option (Payload × Bool)) where
  -- A request has the identity of a payload exactly if ParseToken reads it from the token of the header
  -- Authorization, behind "Bearer ", or, without this header and only for downloads, from the query.
  pub extract_identity_iff :
      (secret_key auth_header path t : Bytes) (payload : Payload)
      → (extract_identity parse_with_claims secret_key auth_header path t ≡ some payload) ↔ (
          (token : Bytes) × IsPresented auth_header path t token
          × (parse_token parse_with_claims token secret_key ≡ some payload))
  unfolding extract_identity parsed
  extract_identity_iff secret_key auth_header path t payload = (
    λ h. elim (Option-cases (token_string auth_header path t)) [
      | inl e ↦ absurd (ground (arith, e, h))
      | inr (token, e) ↦ (token, (token_string_iff auth_header path t token).0 e, rw (e) at h)
    ],
    λ (token, p, h). rw ((token_string_iff auth_header path t token).1 p) h,
  )
