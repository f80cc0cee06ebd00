-- ===== src/Http.antt =====
-- internal/pkg/req and internal/pkg/resp: BindJSON, SetupMultipart, and the responses. Decoding and
-- encoding JSON are parameters, and so is the parsing of forms.
pub mod Laws
mod Tests
use hzchat_server.Common.{
  ℕ, ◌*◌, Bool, true, false, List, [], Option, none, some, if◌then◌else◌, not, ◌∷◌, ◌==◌, ◌||◌,
}
use hzchat_server.Text.{Bytes, bytes, has_prefix}
use hzchat_server.Errs.{
  CustomError, new_error, err_unsupported_media_type, err_invalid_json_format,
  err_extra_content_in_body, err_request_entity_too_large, err_form_parse_failed, err_unknown,
  status_ok, status_internal_server_error,
}

abbrev pub max_form_memory : ℕ
max_form_memory = 32 * 1024 * 1024

abbrev pub max_request_file_size : ℕ
max_request_file_size = 20 * 1024 * 1024

pub data Bound {ℓ} (A : Type ℓ) : Type ℓ where
  bound : A → Bound A
  unbound : CustomError → Bound A

-- The white space of encoding/json.
unfoldable pub is_space : ℕ → Bool
is_space b = b == 32 || (b == 9 || (b == 13 || b == 10))

-- decoder.More behind a decoded value, with what was not read of the body: outside of arrays and
-- objects too, it is false at the end and before a closing bracket.
unfoldable pub more : Bytes → Bool
more [] = false
more (b ∷ rest) =
    let later = more rest in if is_space b then later else not (b == b']' || b == b'}')

-- The end of BindJSON: what the decoder read, and what it did not read of the body.
unfoldable pub bind_decoded {ℓ} : {A : Type ℓ} → Option (A × Bytes) → Bound A
bind_decoded none = unbound (new_error err_invalid_json_format)
bind_decoded (some (input, rest)) =
    if more rest then unbound (new_error err_extra_content_in_body) else bound input

-- BindJSON, with the header Content-Type and the body.
unfoldable pub bind_json {ℓ} : {A : Type ℓ} → (Bytes → Option (A × Bytes)) → Bytes → Bytes → Bound A
unfolding bind_decoded
bind_json decode content_type body =
    if not (has_prefix content_type (bytes "application/json"))
    then unbound (new_error err_unsupported_media_type)
    else bind_decoded (decode body)

-- What http.MaxBytesReader and ParseMultipartForm answer, which read at most the two limits.
pub data Form : Type 0 where
  parsed : Form
  too_large : Form
  malformed : Form

-- SetupMultipart; none is the nil error.
unfoldable pub setup_multipart : (ℕ → ℕ → Form) → Option CustomError
setup_multipart parse_form = elim (parse_form max_request_file_size max_form_memory) [
  | parsed ↦ none
  | too_large ↦ some (new_error err_request_entity_too_large)
  | malformed ↦ some (new_error err_form_parse_failed)
]

-- JSONResponse
pub record JsonResponse (D : Type 0) : Type 0 where
  pub code : ℕ
  pub message : Bytes
  pub data_field : Option D

-- What is written: a status, whether the body is JSON, and the body.
pub record Written : Type 0 where
  pub status : ℕ
  pub is_json : Bool
  pub body : Bytes

module _ {D : Type 0} (marshal : JsonResponse D → Option Bytes) where
  unfoldable pub written_json : ℕ → Option Bytes → Written
  written_json http_status none = record {
    status = status_internal_server_error;
    is_json = false;
    body = bytes "Error encoding JSON response";
  }
  written_json http_status (some b) = record { status = http_status; is_json = true; body = b }

  -- RespondJSON
  unfoldable pub respond_json : ℕ → JsonResponse D → Written
  unfolding written_json
  respond_json http_status payload = written_json http_status (marshal payload)

  -- RespondSuccess
  unfoldable pub respond_success : D → Written
  respond_success d =
      respond_json status_ok (record { code = 0; message = bytes "success"; data_field = some d })

  abbrev pub error_response : CustomError → JsonResponse D
  error_response e = record { code = e.code; message = e.message; data_field = none }

  -- RespondError, whose error may be nil.
  unfoldable pub respond_error : Option CustomError → Written
  respond_error none =
      let e : CustomError = new_error err_unknown in respond_json e.status (error_response e)
  respond_error (some e) = respond_json e.status (error_response e)
