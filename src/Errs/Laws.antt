-- ===== src/Errs/Laws.antt =====
-- What NewError returns, for known and unknown codes, with and without details.
use hzchat_server.Common.{
  sym, ◌∙◌, ==_iff, ℕ, ◌≡◌, ◌≢◌, refl, List, [], ◌∷◌, none, some, arith, ◌⊎◌, All, inl, inr,
  Option-cases, false,
}
use hzchat_server.Text.{Bytes}
use hzchat_server.Errs.{
  or_zero, CustomError, error_map, find_template, has_percent, with_default_status, with_details,
  new_error_with, new_error, err_unknown,
}

-- An entry of the table: it carries its own key, a message without a placeholder, and a status of
-- its own only if that is an error status.
abbrev IsSound : ℕ × CustomError → Type 0
IsSound (k, e) = (e.code ≡ k) × (has_percent e.message ≡ false) × (e.message ≢ [])

error_map-IsSound : All IsSound error_map
unfolding has_percent error_map
error_map-IsSound = ground arith

find-IsSound :
    (code : ℕ) (m : List (ℕ × CustomError)) (e : CustomError)
    → All IsSound m
    → find_template code m ≡ some e
    → IsSound (code, e)
unfolding find_template
find-IsSound code [] e s h = cc
find-IsSound code ((k, f) ∷ m) e (s, rest) h =
    ground (arith, find-IsSound code m e rest, ==_iff k code)

new_error_with_found :
    {D : Type 0} (sprintf : Bytes → List D → Bytes) (code : ℕ) (details : List D) (t : CustomError)
    → find_template code error_map ≡ some t
    → new_error_with sprintf code details ≡ with_default_status t
unfolding new_error_with with_details with_default_status
new_error_with_found sprintf code [] t e = rw (e, new_error_with)
new_error_with_found sprintf code (d ∷ ds) t e =
    let (_, plain, _) = find-IsSound code error_map t error_map-IsSound e in
    rw (e, new_error_with) (ground (arith, plain))

new_error_with_unknown :
    {D : Type 0} (sprintf : Bytes → List D → Bytes) (code : ℕ) (details : List D)
    → find_template code error_map ≡ none
    → new_error_with sprintf code details ≡ or_zero (find_template err_unknown error_map)
unfolding new_error_with
new_error_with_unknown sprintf code details e = rw (e, new_error_with) refl

module _ {D : Type 0} (sprintf : Bytes → List D → Bytes) where
  -- Whatever details a call passes, and whatever their formatting does, NewError returns the error
  -- that it returns without details: no message of the table holds a placeholder.
  pub new_error-details :
      (code : ℕ) (details : List D) → new_error_with sprintf code details ≡ new_error code
  unfolding new_error
  new_error-details code details = elim (Option-cases (find_template code error_map)) [
    | inl e ↦
        new_error_with_unknown sprintf code details e
        ∙ sym (new_error_with_unknown {D = Unit} (λ m _. m) code [] e)
    | inr (t, e) ↦
        new_error_with_found sprintf code details t e
        ∙ sym (new_error_with_found {D = Unit} (λ m _. m) code [] t e)
  ]

-- The error that is returned has the code that was asked for, or that of ErrUnknown where the table
-- has no entry; its message is never empty and its status never 0.
pub new_error_total :
    (code : ℕ)
    → (((new_error code).code ≡ code)
        ⊎ ((find_template code error_map ≡ none) × ((new_error code).code ≡ err_unknown)))
      × ((new_error code).message ≢ [])
      × ((new_error code).status ≢ 0)
unfolding new_error
new_error_total code = elim (Option-cases (find_template code error_map)) [
  | inl e ↦
      rw (new_error_with_unknown {D = Unit} (λ m _. m) code [] e)
        (unfold error_map find_template in (inr (e, refl), λ h. cc, λ h. cc))
  | inr (t, e) ↦
      let (own, plain, said) = find-IsSound code error_map t error_map-IsSound e in
      rw (new_error_with_found {D = Unit} (λ m _. m) code [] t e)
        (unfold with_default_status in ground (arith, own, plain, said))
]
