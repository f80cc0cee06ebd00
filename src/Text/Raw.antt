-- ===== src/Text/Raw.antt =====
-- A Go string is a list of bytes: equality, prefixes, lengths, and filepath.Ext.
use Prim.Native.Char.{code}
use Prim.Native.String.{String}
use hzchat_server.Common.{
  ℕ, ◌≡◌, refl, ◌↔◌, Bool, true, false, ◌&&◌, List, [], ◌∷◌, ◌++◌, reverse, arith, ◌==◌,
  if◌then◌else◌,
}

abbrev pub Bytes : Type 0
Bytes = List ℕ

-- A literal of the source (they are all ASCII).
abbrev pub bytes : String → Bytes
bytes String.[] = []
bytes (String.◌∷◌ c s) = code c ∷ bytes s

unfoldable pub bytes_eq : Bytes → Bytes → Bool
bytes_eq [] [] = true
bytes_eq [] (d ∷ t) = false
bytes_eq (c ∷ s) [] = false
bytes_eq (c ∷ s) (d ∷ t) = c == d && bytes_eq s t

pub bytes_eq_iff : (s t : Bytes) → (bytes_eq s t ≡ true) ↔ (s ≡ t)
unfolding bytes_eq
bytes_eq_iff [] [] = ground arith
bytes_eq_iff [] (d ∷ t) = ground arith
bytes_eq_iff (c ∷ s) [] = ground arith
bytes_eq_iff (c ∷ s) (d ∷ t) = ground (arith, bytes_eq_iff s t)

pub bytes_eq_refl : (s : Bytes) → bytes_eq s s ≡ true
bytes_eq_refl s = (bytes_eq_iff s s).1 refl

-- strings.HasPrefix(s, prefix)
unfoldable pub has_prefix : Bytes → Bytes → Bool
has_prefix s [] = true
has_prefix [] (p ∷ ps) = false
has_prefix (c ∷ s) (p ∷ ps) = c == p && has_prefix s ps

pub has_prefix_iff : (s p : Bytes) → (has_prefix s p ≡ true) ↔ ((rest : Bytes) × (s ≡ p ++ rest))
unfolding has_prefix
has_prefix_iff s [] = (λ _. (s, refl), λ _. refl)
has_prefix_iff [] (p ∷ ps) = (λ h. cc, λ (rest, e). cc)
has_prefix_iff (c ∷ s) (p ∷ ps) = (
  λ h.
      let (rest, e) = (has_prefix_iff s ps).0 (ground arith) in
      let same : c ≡ p = ground arith in (rest, cc),
  λ (rest, e).
      let k = (has_prefix_iff s ps).1 (rest, cc) in let same : c ≡ p = cc in rw same (ground arith),
)

-- filepath.Ext: the loop runs backwards from the end and stops at a slash.
unfoldable pub ext_scan : Bytes → Bytes → Bytes
ext_scan [] seen = []
ext_scan (c ∷ before) seen =
    let more = ext_scan before (c ∷ seen) in
    if c == b'/' then [] else if c == b'.' then c ∷ seen else more

unfoldable pub ext : Bytes → Bytes
unfolding ext_scan
ext path = ext_scan (reverse path) []
