-- ===== src/Errs.antt =====
-- internal/pkg/errs: the error codes, the table of messages, and NewError.
pub mod Laws
mod Tests
use Prim.Native.String.{String}
use hzchat_server.Common.{
  ℕ, zero, suc, ◌≡◌, refl, Bool, true, false, ◌&&◌, ◌||◌, List, [], ◌∷◌, Option, none, some, ◌==◌,
  if◌then◌else◌,
}
use hzchat_server.Text.{Bytes, bytes}

-- error_codes.go
abbrev pub err_invalid_params : ℕ
err_invalid_params = 1001

abbrev pub err_unsupported_media_type : ℕ
err_unsupported_media_type = 1002

abbrev pub err_invalid_json_format : ℕ
err_invalid_json_format = 1003

abbrev pub err_extra_content_in_body : ℕ
err_extra_content_in_body = 1004

abbrev pub err_form_parse_failed : ℕ
err_form_parse_failed = 1005

abbrev pub err_request_entity_too_large : ℕ
err_request_entity_too_large = 1006

abbrev pub err_rate_limit_exceeded : ℕ
err_rate_limit_exceeded = 1007

abbrev pub err_room_type_invalid : ℕ
err_room_type_invalid = 2101

abbrev pub err_room_code_exists : ℕ
err_room_code_exists = 2102

abbrev pub err_room_not_found : ℕ
err_room_not_found = 2103

abbrev pub err_room_is_full : ℕ
err_room_is_full = 2104

abbrev pub err_message_content_too_long : ℕ
err_message_content_too_long = 2201

abbrev pub err_file_size_too_large : ℕ
err_file_size_too_large = 2202

abbrev pub err_attachment_count_invalid : ℕ
err_attachment_count_invalid = 2203

abbrev pub err_attachment_key_invalid : ℕ
err_attachment_key_invalid = 2204

abbrev pub err_pow_challenge_required : ℕ
err_pow_challenge_required = 3001

abbrev pub err_pow_challenge_invalid : ℕ
err_pow_challenge_invalid = 3002

abbrev pub err_pow_challenge_internal : ℕ
err_pow_challenge_internal = 3003

abbrev pub err_session_kicked : ℕ
err_session_kicked = 3004

abbrev pub err_unauthorized : ℕ
err_unauthorized = 3005

abbrev pub err_already_logged_in : ℕ
err_already_logged_in = 3006

abbrev pub err_invalid_username : ℕ
err_invalid_username = 3007

abbrev pub err_invalid_password : ℕ
err_invalid_password = 3008

abbrev pub err_user_already_exists : ℕ
err_user_already_exists = 3009

abbrev pub err_invalid_credentials : ℕ
err_invalid_credentials = 3010

abbrev pub err_user_not_found : ℕ
err_user_not_found = 3011

abbrev pub err_old_password_invalid : ℕ
err_old_password_invalid = 3012

abbrev pub err_unknown : ℕ
err_unknown = 5000

abbrev pub err_file_storage_failed : ℕ
err_file_storage_failed = 5001

-- net/http
abbrev pub status_ok : ℕ
status_ok = 200

abbrev pub status_unauthorized : ℕ
status_unauthorized = 401

abbrev pub status_too_many_requests : ℕ
status_too_many_requests = 429

abbrev pub status_internal_server_error : ℕ
status_internal_server_error = 500

pub record CustomError : Type 0 where
  pub code : ℕ
  pub message : Bytes
  pub status : ℕ

abbrev template : ℕ → String → ℕ → ℕ × CustomError
template code message status =
    (code, record { code = code; message = bytes message; status = status })

-- error_map.go; a literal that gives no status has 0.
unfoldable pub error_map : List (ℕ × CustomError)
error_map =
    template err_invalid_params "Invalid request parameters." 0
    ∷ template err_unsupported_media_type "Unsupported request format." 0
    ∷ template err_invalid_json_format "Unsupported request format." 0
    ∷ template err_extra_content_in_body "Request contains unexpected data." 0
    ∷ template err_form_parse_failed "Failed to process uploaded data." 0
    ∷ template err_request_entity_too_large "Request size is too large." 0
    ∷ template err_rate_limit_exceeded "Too many requests. Please try again later."
        status_too_many_requests
    ∷ template err_room_type_invalid "Invalid chat type." 0
    ∷ template err_room_code_exists "Chat code already exists." 0
    ∷ template err_room_not_found "Chat room not found." 0
    ∷ template err_room_is_full "This chat room is full." 0
    ∷ template err_message_content_too_long "Message is too long." 0
    ∷ template err_file_size_too_large "File is too large." 0
    ∷ template err_attachment_count_invalid "Invalid number of attachments." 0
    ∷ template err_attachment_key_invalid "Invalid attachment." 0
    ∷ template err_pow_challenge_required "Verification required. Please try again." 0
    ∷ template err_pow_challenge_invalid "Verification failed. Please try again." 0
    ∷ template err_pow_challenge_internal "Verification service error. Please try again later." 0
    ∷ template err_session_kicked "You were signed in on another device." 0
    ∷ template err_already_logged_in "You are already signed in." 0
    ∷ template err_invalid_username "Invalid username." 0
    ∷ template err_invalid_password "Invalid password." 0
    ∷ template err_user_already_exists "Username is already taken." 0
    ∷ template err_invalid_credentials "Incorrect username or password." 0
    ∷ template err_user_not_found "Account not found." 0
    ∷ template err_old_password_invalid "Current password is incorrect." 0
    ∷ template err_unauthorized "Please sign in to continue." status_unauthorized
    ∷ template err_unknown "Something went wrong. Please try again." status_internal_server_error
    ∷ template err_file_storage_failed "File upload failed. Please try again." 0
    ∷ []

-- v, ok := errorMap[code]
unfoldable pub find_template : ℕ → List (ℕ × CustomError) → Option CustomError
find_template code [] = none
find_template code ((k, e) ∷ rest) = if k == code then some e else find_template code rest

-- strings.Contains(message, "%")
unfoldable pub has_percent : Bytes → Bool
has_percent [] = false
has_percent (c ∷ s) = c == b'%' || has_percent s

-- The zero status of a template means 200.
with_default_status : CustomError → CustomError
with_default_status e = if e.status == 0 then record e { status = status_ok } else e

-- The zero value of a map that has no entry.
abbrev or_zero : Option CustomError → CustomError
or_zero (some e) = e
or_zero none = record { code = 0; message = []; status = 0 }

-- The details are values of any type; `sprintf` is fmt.Sprintf over a template.
module _ {D : Type 0} (sprintf : Bytes → List D → Bytes) where
  -- Of ErrUnknown the details are only logged.
  with_details : ℕ → List D → CustomError → CustomError
  with_details code [] e = e
  with_details code (d ∷ ds) e =
      if code == err_unknown
      then e
      else if has_percent e.message
      then record e { message = sprintf e.message (d ∷ ds) }
      else e

  -- NewError(code, details...)
  unfoldable pub new_error_with : ℕ → List D → CustomError
  unfolding with_default_status with_details find_template has_percent
  new_error_with code details = elim (find_template code error_map) [
    | none ↦ or_zero (find_template err_unknown error_map)
    | some e ↦ with_details code details (with_default_status e)
  ]

-- NewError(code), the form of every call in the program.
unfoldable pub new_error : ℕ → CustomError
unfolding new_error_with
new_error code = new_error_with {D = Unit} (λ message _. message) code []
