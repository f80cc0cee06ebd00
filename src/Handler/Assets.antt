-- ===== src/Handler/Assets.antt =====
-- internal/handler/deps.go: FullAssetURL and NormalizeAssetKey. The argument `base` is the
-- configuration's S3PublicBaseURL.
pub mod Laws
mod Tests
use hzchat_server.Common.{
  ℕ, Bool, true, false, ◌&&◌, List, [], ◌∷◌, ◌++◌, ◌==◌, if◌then◌else◌, length, drop,
}
use hzchat_server.Text.{Bytes, bytes, bytes_eq, has_prefix}

-- strings.TrimLeft(s, "/")
unfoldable pub trim_left : Bytes → Bytes
trim_left [] = []
trim_left (c ∷ s) = let rest = trim_left s in if c == b'/' then rest else c ∷ s

-- strings.TrimRight(s, "/")
unfoldable pub trim_right : Bytes → Bytes
trim_right [] = []
trim_right (c ∷ s) =
    let rest = trim_right s in if c == b'/' && bytes_eq rest [] then [] else c ∷ rest

-- FullAssetURL
unfoldable pub full_asset_url : Bytes → Bytes → Bytes
full_asset_url base key =
    if bytes_eq key []
    then []
    else if has_prefix key (bytes "http")
    then key
    else trim_right base ++ (bytes "/" ++ trim_left key)

-- The base, with exactly one slash at its end.
abbrev pub base_url : Bytes → Bytes
base_url base = trim_right base ++ bytes "/"

-- NormalizeAssetKey returns a key or its error.
pub data Normalized : Type 0 where
  key : Bytes → Normalized
  invalid_url : Normalized

unfoldable pub normalize_asset_key : Bytes → Bytes → Normalized
normalize_asset_key base input =
    if bytes_eq input []
    then key []
    else if has_prefix input (bytes "http")
    then if has_prefix input (base_url base)
      then key (drop (length (base_url base)) input)
      else invalid_url
    else key input
