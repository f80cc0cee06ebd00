-- ===== src/Handler/Assets/Laws.antt =====
-- Which inputs of deps.go name an asset.
use mathlib.Core.List.{append_assoc}
use hzchat_server.Common.{
  ◌≡◌, ◌≢◌, refl, sym, ap, ◌∙◌, ◌↔◌, ◌⊎◌, inl, inr, true, false, [], ◌∷◌, ◌++◌, arith, length, drop,
  Bool-cases,
}
use hzchat_server.Text.{Bytes, bytes, bytes_eq, bytes_eq_iff, has_prefix, has_prefix_iff}
use hzchat_server.Handler.Assets.{
  trim_left, trim_right, full_asset_url, key, invalid_url, normalize_asset_key, base_url,
}

drop-append : (s t : Bytes) → drop (length s) (s ++ t) ≡ t
drop-append [] t = refl
drop-append (c ∷ s) t = drop-append s t

-- An input and its key: a text that does not begin with "http" is its own key; behind the base of the
-- public storage's URLs stands the key of one that does.
abbrev pub Names : Bytes → Bytes → Bytes → Type 0
Names base input k =
    ((input ≡ k) × (has_prefix input (bytes "http") ≡ false))
    ⊎ ((input ≡ base_url base ++ k) × (has_prefix input (bytes "http") ≡ true))

normalize-plain :
    (base input : Bytes)
    → has_prefix input (bytes "http") ≡ false
    → normalize_asset_key base input ≡ key input
unfolding normalize_asset_key
normalize-plain base input h = ground (arith, bytes_eq_iff input [], h)

http-filled : (s : Bytes) → has_prefix s (bytes "http") ≡ true → bytes_eq s [] ≡ false
unfolding has_prefix bytes_eq
http-filled [] h = cc
http-filled (c ∷ s) h = refl

normalize-inside :
    (base input : Bytes)
    → has_prefix input (bytes "http") ≡ true
    → has_prefix input (base_url base) ≡ true
    → normalize_asset_key base input ≡ key (drop (length (base_url base)) input)
unfolding normalize_asset_key
normalize-inside base input h inside = ground (arith, http-filled input h, h, inside)

normalize-outside :
    (base input : Bytes)
    → has_prefix input (bytes "http") ≡ true
    → has_prefix input (base_url base) ≡ false
    → normalize_asset_key base input ≡ invalid_url
unfolding normalize_asset_key
normalize-outside base input h outside = ground (arith, http-filled input h, h, outside)

key_injective : (a b : Bytes) → key a ≡ key b → a ≡ b
key_injective a b h = cc

normalize-url :
    (base input k : Bytes)
    → has_prefix input (bytes "http") ≡ true
    → (normalize_asset_key base input ≡ key k) ↔ (input ≡ base_url base ++ k)
normalize-url base input k h =
    let pre = base_url base in
    elim (Bool-cases (has_prefix input pre)) [
      | inl inside ↦
          let (rest, e) = (has_prefix_iff input pre).0 inside in
          let behind : drop (length pre) input ≡ rest =
            ap (drop (length pre)) e ∙ drop-append pre rest in
          let step = normalize-inside base input h inside in
          (
            λ g. e ∙ ap (◌++◌ pre) (sym behind ∙ key_injective _ k (sym step ∙ g)),
            λ g. step ∙ ap key (ap (drop (length pre)) g ∙ drop-append pre k),
          )
      | inr outside ↦
          let step = normalize-outside base input h outside in
          (λ g. cc (step, g), λ g. cc (outside, (has_prefix_iff input pre).1 (k, g)))
    ]

-- NormalizeAssetKey returns a key exactly for a text that does not begin with lower-case "http", and
-- then this text, whatever it is, and for a text that begins so and with the base URL of the public
-- storage, and then what stands behind that.
pub normalize_asset_key_iff :
    (base input k : Bytes) → (normalize_asset_key base input ≡ key k) ↔ Names base input k
normalize_asset_key_iff base input k = elim (Bool-cases (has_prefix input (bytes "http"))) [
  | inl h ↦ (
    λ g. inr ((normalize-url base input k h).0 g, h),
    λ n. elim n [ inl (e, f) ↦ cc | inr (e, f) ↦ (normalize-url base input k h).1 e ],
  )
  | inr h ↦ (
    λ g. inl (key_injective input k (sym (normalize-plain base input h) ∙ g), h),
    λ n. elim n [ inl (e, f) ↦ normalize-plain base input h ∙ ap key e | inr (e, f) ↦ cc ],
  )
]

trim_left-key : (k : Bytes) → has_prefix k (bytes "/") ≡ false → trim_left k ≡ k
unfolding trim_left has_prefix
trim_left-key [] h = refl
trim_left-key (c ∷ k) h = ground arith

full_asset_url-key :
    (base k : Bytes)
    → k ≢ []
    → has_prefix k (bytes "http") ≡ false
    → has_prefix k (bytes "/") ≡ false
    → full_asset_url base k ≡ base_url base ++ k
unfolding full_asset_url
full_asset_url-key base k filled plain relative =
    let stays = trim_left-key k relative in
    let full : full_asset_url base k ≡ trim_right base ++ (bytes "/" ++ k) =
      ground (arith, bytes_eq_iff k [], plain, stays) in
    full ∙ sym (append_assoc (trim_right base) (bytes "/") k)

trim_right-http :
    (host k : Bytes) → has_prefix (base_url (bytes "http" ++ host) ++ k) (bytes "http") ≡ true
unfolding trim_right has_prefix
trim_right-http host k = refl

-- With a base that is a URL, the full URL of a key is led back to the key by NormalizeAssetKey, if the
-- key is neither empty nor a URL and does not start with a slash.
pub normalize-full_asset_url :
    (host k : Bytes)
    → k ≢ []
    → has_prefix k (bytes "http") ≡ false
    → has_prefix k (bytes "/") ≡ false
    → normalize_asset_key (bytes "http" ++ host) (full_asset_url (bytes "http" ++ host) k) ≡ key k
normalize-full_asset_url host k filled plain relative =
    rw (full_asset_url-key (bytes "http" ++ host) k filled plain relative) (
      (normalize-url (bytes "http" ++ host) (base_url (bytes "http" ++ host) ++ k) k
          (trim_right-http host k)).1
        refl)
