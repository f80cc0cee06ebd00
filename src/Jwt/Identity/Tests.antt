-- ===== src/Jwt/Identity/Tests.antt =====
-- A request with a token in its header.
use hzchat_server.Common.{◌≡◌, ◌↔◌, true, [], Bool, Option, some}
use hzchat_server.Text.{Bytes, bytes}
use hzchat_server.Jwt.{Payload, parse_token}
use hzchat_server.Jwt.Identity.{extract_identity}
use hzchat_server.Jwt.Identity.Laws.{IsPresented, extract_identity_iff}

abbrev claims : Payload
claims = record {
  expires_at = 900;
  issued_at = 0;
  issuer = bytes "HZChat-Server";
  id = bytes "ann";
  code = [];
  user_type = bytes "registered";
  nickname = bytes "Ann";
  avatar = [];
}

abbrev parse_with_claims : (Bool → Option Bytes) → Bytes → Option (Payload × Bool)
parse_with_claims key_func token = some (claims, true)

extract_identity_iff_example :
    (extract_identity parse_with_claims (bytes "key") (bytes "Bearer abc") (bytes "/api/auth/me") []
      ≡ some claims)
    ↔ ((token : Bytes) × IsPresented (bytes "Bearer abc") (bytes "/api/auth/me") [] token
        × (parse_token parse_with_claims token (bytes "key") ≡ some claims))
extract_identity_iff_example =
    extract_identity_iff parse_with_claims (bytes "key") (bytes "Bearer abc") (bytes "/api/auth/me")
      [] claims
