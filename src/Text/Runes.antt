-- ===== src/Text/Runes.antt =====
-- Go's view of a byte string as runes: `for _, char := range s`, utf8.RuneCountInString,
-- strings.ToLower.
use hzchat_server.Common.{
  ℕ, zero, suc, ◌+◌, ◌-◌, ◌*◌, ◌/◌, ◌%◌, ◌≤◌, ◌<◌, ◌≡◌, refl, Bool, true, false, ◌&&◌, ◌||◌, List,
  [], ◌∷◌, map, arith, leb, ltb, ◌==◌, if◌then◌else◌, length, drop, All, ◌++◌, ap,
}
use native.Mathlib.Decide.{dec_lt}
use hzchat_server.Text.Raw.{Bytes}

-- U+FFFD, what an invalid byte decodes to.
abbrev pub rune_error : ℕ
rune_error = 0xFFFD

abbrev is_cont : ℕ → Bool
is_cont b = leb 0x80 b && leb b 0xBF

-- The ranges of the second byte after the lead bytes E0, ED, F0, F4.
second_ok : ℕ → ℕ → Bool
second_ok c b =
    leb (if c == 0xE0 then 0xA0 else if c == 0xF0 then 0x90 else 0x80) b
    && leb b (if c == 0xED then 0x9F else if c == 0xF4 then 0x8F else 0xBF)

-- The rune of a sequence, and how many bytes follow its lead byte.
decode2 : ℕ → Bytes → ℕ × ℕ
decode2 c [] = (rune_error, 0)
decode2 c (b ∷ s) = if is_cont b then ((c - 0xC0) * 64 + (b - 0x80), 1) else (rune_error, 0)

decode3 : ℕ → Bytes → ℕ × ℕ
decode3 c (b ∷ d ∷ s) =
    if second_ok c b && is_cont d
    then ((c - 0xE0) * 4096 + (b - 0x80) * 64 + (d - 0x80), 2)
    else (rune_error, 0)
decode3 c s = (rune_error, 0)

decode4 : ℕ → Bytes → ℕ × ℕ
decode4 c (b ∷ d ∷ e ∷ s) =
    if second_ok c b && is_cont d && is_cont e
    then ((c - 0xF0) * 262144 + (b - 0x80) * 4096 + (d - 0x80) * 64 + (e - 0x80), 3)
    else (rune_error, 0)
decode4 c s = (rune_error, 0)

-- utf8.DecodeRuneInString of c ∷ s.
decode_rune : ℕ → Bytes → ℕ × ℕ
decode_rune c s =
    if ltb c 0x80
    then (c, 0)
    else if ltb c 0xC2
    then (rune_error, 0)
    else if ltb c 0xE0
    then decode2 c s
    else if ltb c 0xF0
    then decode3 c s
    else if ltb c 0xF5
    then decode4 c s
    else (rune_error, 0)

runes_from : ℕ → Bytes → List ℕ
runes_from zero s = []
runes_from (suc fuel) [] = []
runes_from (suc fuel) (c ∷ s) =
    let (rune, more) = decode_rune c s in rune ∷ runes_from fuel (drop more s)

-- Every rune takes a byte at least, so the length is enough fuel.
unfoldable pub runes : Bytes → List ℕ
unfolding runes_from decode_rune decode2 decode3 decode4 second_ok
runes s = runes_from (length s) s

unfoldable pub rune_count : Bytes → ℕ
unfolding runes
rune_count s = length (runes s)

-- A byte below 0x80 is a rune of its own.
decode_ascii : (c : ℕ) (s : Bytes) → c < 0x80 → decode_rune c s ≡ (c, 0)
unfolding decode_rune
decode_ascii c s h = ground arith

decode2_ge : (c : ℕ) (s : Bytes) → 0xC2 ≤ c → 0x80 ≤ (decode2 c s).0
unfolding decode2
decode2_ge c [] h = omega arith
decode2_ge c (b ∷ s) h = ground arith

decode3_ge : (c : ℕ) (s : Bytes) → 0xE0 ≤ c → 0x80 ≤ (decode3 c s).0
unfolding decode3 second_ok
decode3_ge c (b ∷ d ∷ s) h = ground arith
decode3_ge c s h = omega arith

decode4_ge : (c : ℕ) (s : Bytes) → 0xF0 ≤ c → 0x80 ≤ (decode4 c s).0
unfolding decode4 second_ok
decode4_ge c (b ∷ d ∷ e ∷ s) h = ground arith
decode4_ge c s h = omega arith

-- Any other byte is the start of a rune that is not ASCII.
decode_rune_ge : (c : ℕ) (s : Bytes) → 0x80 ≤ c → 0x80 ≤ (decode_rune c s).0
unfolding decode_rune
decode_rune_ge c s h = ground (arith, decode2_ge c s, decode3_ge c s, decode4_ge c s)

-- A text of ASCII bytes is its own list of runes.
abbrev pub IsAscii : Bytes → Type 0
IsAscii = All (λ c. c < 0x80)

runes_from_ascii : (n : ℕ) (s : Bytes) → length s ≤ n → IsAscii s → runes_from n s ≡ s
unfolding runes_from
runes_from_ascii zero [] h a = refl
runes_from_ascii zero (c ∷ s) h a = absurd (omega arith)
runes_from_ascii (suc n) [] h a = refl
runes_from_ascii (suc n) (c ∷ s) h (a, rest) =
    rw (decode_ascii c s a) (ap (◌∷◌ c) (runes_from_ascii n s (omega arith) rest))

pub runes_ascii : (s : Bytes) → IsAscii s → runes s ≡ s
unfolding runes
runes_ascii s a = runes_from_ascii (length s) s (omega arith) a

-- utf8.AppendRune: a rune's bytes. A surrogate, or what is no rune, is written as U+FFFD.
encode3 : ℕ → Bytes
encode3 r = (0xE0 + r / 4096) ∷ (0x80 + r / 64 % 64) ∷ (0x80 + r % 64) ∷ []

encode_rune : ℕ → Bytes
unfolding encode3
encode_rune r =
    if ltb r 0x80
    then r ∷ []
    else if ltb r 0x800
    then (0xC0 + r / 64) ∷ (0x80 + r % 64) ∷ []
    else if (leb 0xD800 r && ltb r 0xE000) || ltb 0x10FFFF r
    then encode3 rune_error
    else if ltb r 0x10000
    then encode3 r
    else (0xF0 + r / 262144) ∷ (0x80 + r / 4096 % 64) ∷ (0x80 + r / 64 % 64) ∷ (0x80 + r % 64) ∷ []

-- unicode.ToLower; beyond ASCII it is a table of the Unicode data, the parameter `table`.
unicode_to_lower : (ℕ → ℕ) → ℕ → ℕ
unicode_to_lower table r =
    if ltb r 0x80 then (if leb b'A' r && leb r b'Z' then r + 32 else r) else table r

encode_all : List ℕ → Bytes
encode_all [] = []
encode_all (r ∷ rs) = encode_rune r ++ encode_all rs

-- strings.ToLower: the text is mapped rune by rune (an ASCII text byte by byte, which is the same).
unfoldable pub to_lower : (ℕ → ℕ) → Bytes → Bytes
unfolding encode_all encode_rune unicode_to_lower runes
to_lower table s = encode_all (map (unicode_to_lower table) (runes s))

-- What it does to one ASCII byte.
abbrev pub lower_byte : ℕ → ℕ
lower_byte c = if leb b'A' c && leb c b'Z' then c + 32 else c

encode_all_ascii :
    (table : ℕ → ℕ) (s : Bytes)
    → IsAscii s
    → encode_all (map (unicode_to_lower table) s) ≡ map lower_byte s
unfolding encode_all encode_rune unicode_to_lower
encode_all_ascii table [] a = refl
encode_all_ascii table (c ∷ s) (a, rest) = ground (arith, encode_all_ascii table s rest)

pub to_lower_ascii : (table : ℕ → ℕ) (s : Bytes) → IsAscii s → to_lower table s ≡ map lower_byte s
to_lower_ascii table s a = unfold to_lower in rw (runes_ascii s a) (encode_all_ascii table s a)

-- The runes of a text that starts with a byte, and whether all lie in an ASCII set.
abbrev pub all_runes : (ℕ → Bool) → List ℕ → Bool
all_runes p [] = true
all_runes p (r ∷ rs) = p r && all_runes p rs

all_runes_from-bytes :
    (p : ℕ → Bool)
    → ((r : ℕ) → 0x80 ≤ r → p r ≡ false)
    → (n : ℕ) (s : Bytes) → length s ≤ n
    → all_runes p (runes_from n s) ≡ all_runes p s
unfolding runes_from
all_runes_from-bytes p out zero [] h = refl
all_runes_from-bytes p out zero (c ∷ s) h = absurd (omega arith)
all_runes_from-bytes p out (suc n) [] h = refl
all_runes_from-bytes p out (suc n) (c ∷ s) h = elim (dec_lt c 0x80) [
  | yes a ↦ rw (decode_ascii c s a) (ap (◌&&◌ (p c)) (all_runes_from-bytes p out n s (omega arith)))
  | no b ↦
      let big : 0x80 ≤ c = omega arith in
      rw (out c big, out (decode_rune c s).0 (decode_rune_ge c s big)) refl
]

-- For a set of ASCII characters, testing the runes of a text is testing its bytes.
pub all_runes-bytes :
    (p : ℕ → Bool)
    → ((r : ℕ) → 0x80 ≤ r → p r ≡ false)
    → (s : Bytes) → all_runes p (runes s) ≡ all_runes p s
unfolding runes
all_runes-bytes p out s = all_runes_from-bytes p out (length s) s (omega arith)
