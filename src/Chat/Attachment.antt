-- ===== src/Chat/Attachment.antt =====
-- internal/app/chat/attachment.go. The parameter `table` is unicode.ToLower beyond ASCII.
pub mod Laws
mod Tests
use hzchat_server.Common.{
  ℕ, ◌*◌, Bool, true, false, ◌||◌, List, [], ◌∷◌, Option, none, some, ◌==◌, ltb, if◌then◌else◌,
  length, not,
}
use hzchat_server.Common.Int.{ℤ, le_pos}
use hzchat_server.Text.{Bytes, bytes, bytes_eq, ext, to_lower, lookup}
use hzchat_server.Errs.{CustomError, new_error, err_invalid_params, err_file_size_too_large}

abbrev pub max_attachment_size_mb : ℕ
max_attachment_size_mb = 5

abbrev pub max_attachment_size : ℕ
max_attachment_size = max_attachment_size_mb * 1024 * 1024

unfoldable pub allowed_mime_types : List (Bytes × Unit {0})
allowed_mime_types =
    (bytes "image/jpeg", tt)
    ∷ (bytes "image/png", tt)
    ∷ (bytes "image/webp", tt)
    ∷ (bytes "image/gif", tt)
    ∷ []

unfoldable pub ext_to_mime : List (Bytes × Bytes)
ext_to_mime =
    (bytes ".jpg", bytes "image/jpeg")
    ∷ (bytes ".jpeg", bytes "image/jpeg")
    ∷ (bytes ".png", bytes "image/png")
    ∷ (bytes ".webp", bytes "image/webp")
    ∷ (bytes ".gif", bytes "image/gif")
    ∷ []

-- `meta` is raw JSON, none if it is nil.
pub record Attachment : Type 0 where
  pub key : Bytes
  pub name : Bytes
  pub mime_type : Bytes
  pub size : ℤ
  pub meta : Option Bytes

-- ValidateFileSize; none is the nil error.
unfoldable pub validate_file_size : ℤ → Option CustomError
validate_file_size file_size =
    if le_pos file_size 0
    then some (new_error err_invalid_params)
    else if not (le_pos file_size max_attachment_size)
    then some (new_error err_file_size_too_large)
    else none

-- The end of ValidateFileType: the MIME type that the extension stands for.
mime_matches : Option Bytes → Bytes → Option CustomError
mime_matches none lower_mime_type = some (new_error err_invalid_params)
mime_matches (some expected_mime) lower_mime_type =
    if not (bytes_eq expected_mime lower_mime_type)
    then some (new_error err_invalid_params)
    else none

-- ValidateFileType, after both texts are in lower case.
validate_lowered : Bytes → Bytes → Option CustomError
unfolding mime_matches
validate_lowered lower_mime_type lower_ext = elim (lookup lower_mime_type allowed_mime_types) [
  | none ↦ some (new_error err_invalid_params)
  | some _ ↦
      if bytes_eq lower_ext [] || ltb (length lower_ext) 2
      then some (new_error err_invalid_params)
      else mime_matches (lookup lower_ext ext_to_mime) lower_mime_type
]

unfoldable pub validate_file_type : (ℕ → ℕ) → Bytes → Bytes → Option CustomError
unfolding validate_lowered
validate_file_type table file_name mime_type =
    validate_lowered (to_lower table mime_type) (to_lower table (ext file_name))
