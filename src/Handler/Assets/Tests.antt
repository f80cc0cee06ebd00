-- ===== src/Handler/Assets/Tests.antt =====
-- The laws of asset keys at one configuration.
use hzchat_server.Common.{◌≡◌, ◌↔◌, refl, ◌++◌}
use hzchat_server.Text.{bytes, has_prefix}
use hzchat_server.Handler.Assets.{full_asset_url, normalize_asset_key, key}
use hzchat_server.Handler.Assets.Laws.{Names, normalize_asset_key_iff, normalize-full_asset_url}

normalize_asset_key_iff_example :
    (normalize_asset_key (bytes "https://cdn/") (bytes "https://cdn/a.png") ≡ key (bytes "a.png"))
    ↔ Names (bytes "https://cdn/") (bytes "https://cdn/a.png") (bytes "a.png")
normalize_asset_key_iff_example =
    normalize_asset_key_iff (bytes "https://cdn/") (bytes "https://cdn/a.png") (bytes "a.png")

normalize-full_asset_url_example :
    normalize_asset_key
      (bytes "http" ++ bytes "s://cdn/")
      (full_asset_url (bytes "http" ++ bytes "s://cdn/") (bytes "a.png"))
    ≡ key (bytes "a.png")
unfolding has_prefix
normalize-full_asset_url_example =
    normalize-full_asset_url (bytes "s://cdn/") (bytes "a.png") (λ h. cc) refl refl
