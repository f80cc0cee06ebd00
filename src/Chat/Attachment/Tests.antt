-- ===== src/Chat/Attachment/Tests.antt =====
-- The laws of the file tests at a picture.
use hzchat_server.Common.{◌≡◌, ◌≤◌, ◌<◌, ◌↔◌, ◌⊎◌, none, some}
use hzchat_server.Common.Int.{pos, negsuc}
use hzchat_server.Text.{bytes, ext, to_lower}
use hzchat_server.Errs.{new_error, err_invalid_params, err_file_size_too_large}
use hzchat_server.Chat.Attachment.{validate_file_size, validate_file_type}
use hzchat_server.Chat.Attachment.Laws.{IsImage, validate_file_size_lem, validate_file_type_lem}

validate_file_size_lem_example :
    ((validate_file_size (pos 1000) ≡ none) ↔ ((1 ≤ 1000) × (1000 ≤ 5242880)))
    × ((5242880 < 1000) → validate_file_size (pos 1000) ≡ some (new_error err_file_size_too_large))
    × (validate_file_size (pos 0) ≡ some (new_error err_invalid_params))
    × (validate_file_size (negsuc 1000) ≡ some (new_error err_invalid_params))
validate_file_size_lem_example = validate_file_size_lem 1000

validate_file_type_lem_example :
    ((validate_file_type (λ r. r) (bytes "cat.PNG") (bytes "image/png") ≡ none)
      ↔ IsImage (to_lower (λ r. r) (ext (bytes "cat.PNG"))) (to_lower (λ r. r) (bytes "image/png")))
    × ((validate_file_type (λ r. r) (bytes "cat.PNG") (bytes "image/png") ≡ none)
        ⊎ (validate_file_type (λ r. r) (bytes "cat.PNG") (bytes "image/png")
            ≡ some (new_error err_invalid_params)))
validate_file_type_lem_example =
    validate_file_type_lem (λ r. r) (bytes "cat.PNG") (bytes "image/png")
