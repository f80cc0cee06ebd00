-- ===== src/Http/Laws.antt =====
-- What a request body must be.
use hzchat_server.Common.{
  ℕ, ◌≡◌, ◌↔◌, ◌⊎◌, refl, ap, inl, inr, true, false, [], ◌∷◌, ◌++◌, Option, some, arith, All,
  Bool-cases, Option-cases,
}
use hzchat_server.Text.{Bytes, bytes, has_prefix}
use hzchat_server.Http.{bound, bind_json, is_space, more}

-- Only white space, or white space and then a closing bracket, whatever stands behind that.
abbrev pub NothingMore : Bytes → Type 0
NothingMore rest =
    (spaces tail : Bytes) × (rest ≡ spaces ++ tail)
    × All (λ b. is_space b ≡ true) spaces
    × ((tail ≡ []) ⊎ ((b : ℕ) × (behind : Bytes) × (tail ≡ b ∷ behind) × ((b ≡ 93) ⊎ (b ≡ 125))))

more-NothingMore : (rest : Bytes) → more rest ≡ false → NothingMore rest
unfolding more is_space
more-NothingMore [] h = ([], [], refl, tt, inl refl)
more-NothingMore (b ∷ rest) h = elim (Bool-cases (is_space b)) [
  | inl e ↦
      let (spaces, tail, same, all, ends) = more-NothingMore rest (ground (arith, e, h)) in
      (b ∷ spaces, tail, ap (λ l. b ∷ l) same, (e, all), ends)
  | inr e ↦ ([], b ∷ rest, refl, tt, inr (b, rest, refl, ground (arith, e, h)))
]

NothingMore-more :
    (spaces tail : Bytes)
    → All (λ b. is_space b ≡ true) spaces
    → (tail ≡ []) ⊎ ((b : ℕ) × (behind : Bytes) × (tail ≡ b ∷ behind) × ((b ≡ 93) ⊎ (b ≡ 125)))
    → more (spaces ++ tail) ≡ false
unfolding more is_space
NothingMore-more [] tail all (inl e) = rw e refl
NothingMore-more [] tail all (inr (b, behind, e, closing)) = rw e (ground arith)
NothingMore-more (b ∷ spaces) tail (space, all) ends =
    ground (arith, space, NothingMore-more spaces tail all ends)

-- BindJSON binds exactly the input that the decoder reads from a body of JSON content type, where
-- nothing that counts stands behind it: only white space, or white space and then ']' or '}', behind
-- which anything may stand.
pub bind_json_iff {ℓ} :
    {A : Type ℓ} (decode : Bytes → Option (A × Bytes)) (content_type body : Bytes) (input : A)
    → (bind_json decode content_type body ≡ bound input) ↔ (
        (has_prefix content_type (bytes "application/json") ≡ true)
        × (rest : Bytes) × (decode body ≡ some (input, rest))
        × NothingMore rest)
unfolding bind_json
bind_json_iff decode content_type body input =
    elim (Bool-cases (has_prefix content_type (bytes "application/json"))) [
      | inr other ↦ (λ h. absurd (ground (arith, other, h)), λ (f, _, _, _). cc (other, f))
      | inl json ↦ elim (Option-cases (decode body)) [
        | inl e ↦ (λ h. absurd (ground (arith, json, e, h)), λ (_, rest, f, _). cc (e, f))
        | inr ((a, rest), e) ↦ elim (Bool-cases (more rest)) [
          | inl extra ↦ (
            λ h. absurd (ground (arith, json, e, extra, h)),
            λ (_, rest', f, (spaces, tail, same, all, ends)).
                absurd (cc (e, f, extra, ap more same, NothingMore-more spaces tail all ends)),
          )
          | inr clear ↦ (
            λ h. (json, rest, ground (arith, json, e, clear, h), more-NothingMore rest clear),
            λ (_, rest', f, _). ground (arith, json, e, f, clear),
          )
        ]
      ]
    ]
