-- ===== src/Jwt.antt =====
-- internal/pkg/auth/jwt: the claims of a token, GenerateToken, ParseToken. Times are nanoseconds since the
-- epoch; signing and parsing are the library golang-jwt, the arguments `sign` and
-- `parse_with_claims`.
pub mod Identity
use hzchat_server.Common.{ℕ, ◌+◌, ◌*◌, ◌/◌, Bool, Option, none, some, if◌then◌else◌}
use hzchat_server.Text.{Bytes, bytes}

abbrev pub second : ℕ
second = 1000000000

abbrev pub minute : ℕ
minute = 60 * second

abbrev pub room_access_expiration : ℕ
room_access_expiration = 15 * minute

abbrev pub user_identity_expiration : ℕ
user_identity_expiration = 24 * (60 * minute)

abbrev pub token_issuer : Bytes
token_issuer = bytes "HZChat-Server"

-- Payload; the first three fields are the standard claims that the program sets, in seconds.
pub record Payload : Type 0 where
  pub expires_at : ℕ
  pub issued_at : ℕ
  pub issuer : Bytes
  pub id : Bytes
  pub code : Bytes
  pub user_type : Bytes
  pub nickname : Bytes
  pub avatar : Bytes

-- Time.Unix
abbrev pub unix : ℕ → ℕ
unix t = t / second

-- GenerateToken: the payload with its new standard claims, and the signed token or none for an error.
unfoldable pub generate_token :
    (Payload → Bytes → Option Bytes) → ℕ → Payload → Bytes → ℕ → Payload × Option Bytes
generate_token sign now payload secret_key duration =
    let claims : Payload = record payload {
      expires_at = unix (now + duration);
      issued_at = unix now;
      issuer = token_issuer;
    } in
    (claims, sign claims secret_key)

-- The key function of ParseToken, by whether the token's method is an HMAC.
abbrev pub key_func : Bytes → Bool → Option Bytes
key_func secret_key is_hmac = if is_hmac then some secret_key else none

-- ParseToken; jwt.ParseWithClaims of the library, with its key function, returns the claims and whether
-- the token is valid, or an error.
unfoldable pub parse_token :
    ((Bool → Option Bytes) → Bytes → Option (Payload × Bool)) → Bytes → Bytes → Option Payload
parse_token parse_with_claims token_string secret_key =
    elim (parse_with_claims (key_func secret_key) token_string) [
      | none ↦ none
      | some (claims, valid) ↦ if valid then some claims else none
    ]
