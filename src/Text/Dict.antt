-- ===== src/Text/Dict.antt =====
-- A Go map with string keys: an association list without a second entry for a key. A write to a key
-- that is there replaces its value in place; a range statement visits the entries, in some order.
use hzchat_server.Common.{
  suc, ◌≤◌, ◌≡◌, refl, ap, ◌≢◌, Bool, List, [], ◌∷◌, Option, none, some, arith, if◌then◌else◌,
  length, Bool-cases, inl, inr, ◌∙◌,
}
use hzchat_server.Text.Raw.{Bytes, bytes_eq, bytes_eq_iff}

module _ {ℓ} {V : Type ℓ} where
  -- v, ok := m[k]
  unfoldable pub lookup : Bytes → List (Bytes × V) → Option V
  lookup k [] = none
  lookup k ((j, v) ∷ m) = if bytes_eq j k then some v else lookup k m

  -- m[k] = v
  unfoldable pub insert : Bytes → V → List (Bytes × V) → List (Bytes × V)
  insert k v [] = (k, v) ∷ []
  insert k v ((j, w) ∷ m) = if bytes_eq j k then (j, v) ∷ m else (j, w) ∷ insert k v m

  -- delete(m, k)
  unfoldable pub delete : Bytes → List (Bytes × V) → List (Bytes × V)
  delete k [] = []
  delete k ((j, v) ∷ m) = if bytes_eq j k then m else (j, v) ∷ delete k m

  pub lookup-insert :
      (k j : Bytes) (v : V) (m : List (Bytes × V))
      → lookup j (insert k v m) ≡ (if bytes_eq k j then some v else lookup j m)
  unfolding lookup insert
  lookup-insert k j v [] = refl
  lookup-insert k j v ((i, w) ∷ m) =
      ground (arith, bytes_eq_iff k j, bytes_eq_iff i k, bytes_eq_iff i j, lookup-insert k j v m)

  -- No key occurs twice.
  abbrev pub KeysDistinct : List (Bytes × V) → Type ℓ
  KeysDistinct [] = Unit
  KeysDistinct ((j, v) ∷ m) = (lookup j m ≡ none) × KeysDistinct m

  pub lookup-delete :
      (k j : Bytes) (m : List (Bytes × V))
      → KeysDistinct m
      → lookup j (delete k m) ≡ (if bytes_eq k j then none else lookup j m)
  unfolding lookup delete
  lookup-delete k j [] d = ground arith
  lookup-delete k j ((i, w) ∷ m) (absent, d) =
      ground (arith, bytes_eq_iff k j, bytes_eq_iff i k, bytes_eq_iff i j, lookup-delete k j m d)

  lookup-nil : (j : Bytes) → lookup j [] ≡ none
  unfolding lookup
  lookup-nil j = refl

  pub insert-KeysDistinct :
      (k : Bytes) (v : V) (m : List (Bytes × V)) → KeysDistinct m → KeysDistinct (insert k v m)
  unfolding insert
  insert-KeysDistinct k v [] d = (lookup-nil k, tt)
  insert-KeysDistinct k v ((i, w) ∷ m) (absent, d) = elim (Bool-cases (bytes_eq i k)) [
    | inl same ↦ rw (same, insert) (absent, d)
    | inr other ↦
        rw (other, insert)
          (
            ground (arith, lookup-insert k i v m, bytes_eq_iff i k, bytes_eq_iff k i),
            insert-KeysDistinct k v m d,
          )
  ]

  pub delete-KeysDistinct :
      (k : Bytes) (m : List (Bytes × V)) → KeysDistinct m → KeysDistinct (delete k m)
  unfolding delete
  delete-KeysDistinct k [] d = tt
  delete-KeysDistinct k ((i, w) ∷ m) (absent, d) = elim (Bool-cases (bytes_eq i k)) [
    | inl same ↦ rw (same, delete) d
    | inr other ↦
        rw (other, delete) (ground (arith, lookup-delete k i m d), delete-KeysDistinct k m d)
  ]

  pub length-insert :
      (k : Bytes) (v : V) (m : List (Bytes × V))
      → length (insert k v m) ≡ elim (lookup k m) [ none ↦ suc (length m) | some _ ↦ length m ]
  unfolding insert lookup
  length-insert k v [] = refl
  length-insert k v ((i, w) ∷ m) = ground (arith, length-insert k v m)

  pub length-delete : (k : Bytes) (m : List (Bytes × V)) → length (delete k m) ≤ length m
  unfolding delete
  length-delete k [] = omega arith
  length-delete k ((i, w) ∷ m) = ground (arith, length-delete k m)

  pub insert-ne-nil : (k : Bytes) (v : V) (m : List (Bytes × V)) → insert k v m ≢ []
  unfolding insert
  insert-ne-nil k v [] = λ h. cc
  insert-ne-nil k v ((i, w) ∷ m) = ground arith

  -- for k, v := range m { if !keep(v) { delete(m, k) } }
  unfoldable pub retain : (V → Bool) → List (Bytes × V) → List (Bytes × V)
  retain keep [] = []
  retain keep ((j, v) ∷ m) = if keep v then (j, v) ∷ retain keep m else retain keep m

  abbrev pub kept : (V → Bool) → Option V → Option V
  kept keep none = none
  kept keep (some v) = if keep v then some v else none

  pub lookup-retain :
      (keep : V → Bool) (k : Bytes) (m : List (Bytes × V))
      → KeysDistinct m
      → lookup k (retain keep m) ≡ kept keep (lookup k m)
  unfolding lookup retain
  lookup-retain keep k [] d = refl
  lookup-retain keep k ((j, v) ∷ m) (absent, d) =
      ground (arith, lookup-retain keep k m d, bytes_eq_iff j k)

  pub retain-KeysDistinct :
      (keep : V → Bool) (m : List (Bytes × V)) → KeysDistinct m → KeysDistinct (retain keep m)
  unfolding retain
  retain-KeysDistinct keep [] d = tt
  retain-KeysDistinct keep ((j, v) ∷ m) (absent, d) = elim (Bool-cases (keep v)) [
    | inl stays ↦
        rw (stays, retain)
          (lookup-retain keep j m d ∙ ap (kept keep) absent, retain-KeysDistinct keep m d)
    | inr goes ↦ rw (goes, retain) (retain-KeysDistinct keep m d)
  ]
