-- ===== src/Jwt/Identity.antt =====
-- internal/pkg/auth/jwt/middleware.go: IdentityExtractorMiddleware, as the payload that it puts into the
-- request's context; the request goes on in any case.
pub mod Laws
mod Tests
use hzchat_server.Common.{ℕ, Bool, List, [], ◌∷◌, Option, none, some, ◌==◌, if◌then◌else◌, not}
use mathlib.Core.Option
use hzchat_server.Text.{Bytes, bytes, bytes_eq}
use hzchat_server.Jwt.{Payload, parse_token}

-- strings.SplitN(s, " ", 2), where it has two parts.
unfoldable pub split_space : Bytes → Option (Bytes × Bytes)
split_space [] = none
split_space (c ∷ s) =
    let rest = split_space s in
    if c == b' ' then some ([], s) else Option.map (λ (a, b). (c ∷ a, b)) rest

-- The token of the header, with "Bearer" before it.
unfoldable pub bearer : Option (Bytes × Bytes) → Option Bytes
bearer none = none
bearer (some (scheme, token)) = if bytes_eq scheme (bytes "Bearer") then some token else none

-- tokenString, from the header Authorization, the path, and the query's t.
unfoldable pub token_string : Bytes → Bytes → Bytes → Option Bytes
token_string auth_header path t =
    if bytes_eq auth_header []
    then if not (bytes_eq path (bytes "/api/file/presign-download"))
      then none
      else if bytes_eq t []
      then none
      else some t
    else bearer (split_space auth_header)

module _ (parse_with_claims : (Bool → Option Bytes) → Bytes → Option (Payload × Bool)) where
  unfoldable pub parsed : Bytes → Option Bytes → Option Payload
  parsed secret_key none = none
  parsed secret_key (some token) = parse_token parse_with_claims token secret_key

  -- IdentityExtractorMiddleware
  unfoldable pub extract_identity : Bytes → Bytes → Bytes → Bytes → Option Payload
  extract_identity secret_key auth_header path t =
      parsed secret_key (token_string auth_header path t)
