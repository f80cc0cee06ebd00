-- ===== src/Chat/Attachment/Laws.antt =====
-- Which files are accepted.
use hzchat_server.Common.{
  ℕ, ◌≤◌, ◌<◌, ◌≡◌, refl, ◌↔◌, ◌⊎◌, inl, inr, false, [], none, some, arith, length, Option-cases,
  ◌||◌, ltb, Bool-cases, ap,
}
use hzchat_server.Common.Int.{pos, negsuc}
use hzchat_server.Text.{Bytes, bytes, bytes_eq, bytes_eq_iff, ext, to_lower, lookup}
use hzchat_server.Errs.{new_error, err_invalid_params, err_file_size_too_large}
use hzchat_server.Chat.Attachment.{
  validate_file_size, validate_file_type, validate_lowered, mime_matches, allowed_mime_types,
  ext_to_mime,
}

-- ValidateFileSize accepts exactly the sizes from 1 byte to 5 MiB; it tells sizes below 1 from
-- those that are too large.
pub validate_file_size_lem :
    (n : ℕ)
    → ((validate_file_size (pos n) ≡ none) ↔ ((1 ≤ n) × (n ≤ 5242880)))
      × ((5242880 < n) → validate_file_size (pos n) ≡ some (new_error err_file_size_too_large))
      × (validate_file_size (pos 0) ≡ some (new_error err_invalid_params))
      × (validate_file_size (negsuc n) ≡ some (new_error err_invalid_params))
unfolding validate_file_size
validate_file_size_lem n = (ground arith, ground arith, refl, refl)

abbrev Entry : Bytes → Bytes → Bytes → Bytes → Type 0
Entry e m e' m' = (e ≡ e') × (m ≡ m')

-- An image type with an extension that stands for it, both in lower case.
abbrev pub IsImage : Bytes → Bytes → Type 0
IsImage e m =
    Entry e m (bytes ".jpg") (bytes "image/jpeg")
    ⊎ (Entry e m (bytes ".jpeg") (bytes "image/jpeg")
        ⊎ (Entry e m (bytes ".png") (bytes "image/png")
            ⊎ (Entry e m (bytes ".webp") (bytes "image/webp")
                ⊎ Entry e m (bytes ".gif") (bytes "image/gif"))))

-- The table of extensions, read as a relation.
lookup-ext : (e m : Bytes) → lookup e ext_to_mime ≡ some m → IsImage e m
unfolding lookup ext_to_mime
lookup-ext e m h = ground (
  arith,
  bytes_eq_iff (bytes ".jpg") e,
  bytes_eq_iff (bytes ".jpeg") e,
  bytes_eq_iff (bytes ".png") e,
  bytes_eq_iff (bytes ".webp") e,
  bytes_eq_iff (bytes ".gif") e,
)

-- Every type of the table is allowed, and every extension has a letter behind its dot.
abbrev Accepted : Bytes → Bytes → Type 0
Accepted e m =
    (lookup e ext_to_mime ≡ some m)
    × (lookup m allowed_mime_types ≡ some tt)
    × ((bytes_eq e [] || ltb (length e) 2) ≡ false)

IsImage-Accepted : (e m : Bytes) → IsImage e m → Accepted e m
unfolding lookup ext_to_mime allowed_mime_types bytes_eq
IsImage-Accepted e m (inl (p, q)) = rw (p, q) (refl, refl, refl)
IsImage-Accepted e m (inr (inl (p, q))) = rw (p, q) (refl, refl, refl)
IsImage-Accepted e m (inr (inr (inl (p, q)))) = rw (p, q) (refl, refl, refl)
IsImage-Accepted e m (inr (inr (inr (inl (p, q))))) = rw (p, q) (refl, refl, refl)
IsImage-Accepted e m (inr (inr (inr (inr (p, q))))) = rw (p, q) (refl, refl, refl)

validate_lowered_complete : (m e : Bytes) → IsImage e m → validate_lowered m e ≡ none
unfolding validate_lowered
validate_lowered_complete m e h =
    let (at, allowed, long) = IsImage-Accepted e m h in
    rw (allowed, validate_lowered, long, at) (ground (arith, bytes_eq_iff m m))

validate_lowered_cases :
    (m e : Bytes)
    → ((validate_lowered m e ≡ none) × IsImage e m)
      ⊎ (validate_lowered m e ≡ some (new_error err_invalid_params))
unfolding validate_lowered
validate_lowered_cases m e = elim (Option-cases (lookup m allowed_mime_types)) [
  | inl missing ↦ inr (rw (missing, validate_lowered))
  | inr (u, allowed) ↦ elim (Bool-cases (bytes_eq e [] || ltb (length e) 2)) [
    | inl short ↦ inr (rw (allowed, validate_lowered, short))
    | inr long ↦
        rw (allowed, validate_lowered, long)
          (elim (Option-cases (lookup e ext_to_mime)) [
            | inl unknown ↦ inr (rw (unknown, mime_matches))
            | inr (t, found) ↦
                rw (found, mime_matches)
                  (elim (Bool-cases (bytes_eq t m)) [
                    | inl same ↦ inl (
                      rw same refl,
                      lookup-ext e m (rw found (ap some ((bytes_eq_iff t m).0 same))),
                    )
                    | inr other ↦ inr (rw other)
                  ])
          ])
  ]
]

-- ValidateFileType accepts a file exactly if its extension and its MIME type, in lower case, are
-- one of the five pairs of image types; it answers every other file with ErrInvalidParams.
pub validate_file_type_lem :
    (table : ℕ → ℕ) (file_name mime_type : Bytes)
    → ((validate_file_type table file_name mime_type ≡ none)
        ↔ IsImage (to_lower table (ext file_name)) (to_lower table mime_type))
      × ((validate_file_type table file_name mime_type ≡ none)
          ⊎ (validate_file_type table file_name mime_type ≡ some (new_error err_invalid_params)))
unfolding validate_file_type
validate_file_type_lem table file_name mime_type =
    let m = to_lower table mime_type in
    let e = to_lower table (ext file_name) in
    elim (validate_lowered_cases m e) [
      | inl (ok, image) ↦ ((λ _. image, λ _. ok), inl ok)
      | inr bad ↦ ((λ ok. cc, validate_lowered_complete m e), inr bad)
    ]
