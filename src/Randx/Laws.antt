-- ===== src/Randx/Laws.antt =====
-- Which texts the tests of randx.go accept, and what it generates.
use hzchat_server.Common.{
  ℕ, zero, suc, ◌+◌, ◌≤◌, ◌<◌, ◌≡◌, refl, ap, ◌↔◌, ◌⊎◌, inl, inr, true, false, [], ◌∷◌, ◌++◌,
  Option, none, some, arith, length, All, Option-cases, Bool-cases, length-append,
}
use hzchat_server.Text.{Bytes, has_prefix, has_prefix_iff, runes, all_runes, all_runes-bytes}
use hzchat_server.Randx.{
  base62_chars, char_at, draw_chars, room_code, contains_rune, is_valid_room_code,
  is_valid_guest_id, Drawn, text, failed, guest_id_prefix,
}

-- A letter or a digit of ASCII.
abbrev pub IsAlphanumeric : ℕ → Type 0
IsAlphanumeric c =
    ((b'0' ≤ c) × (c ≤ b'9')) ⊎ (((b'A' ≤ c) × (c ≤ b'Z')) ⊎ ((b'a' ≤ c) × (c ≤ b'z')))

contains_rune_sound : (c : ℕ) → contains_rune base62_chars c ≡ true → IsAlphanumeric c
unfolding contains_rune base62_chars
contains_rune_sound c h = ground arith

contains_rune_complete : (c : ℕ) → IsAlphanumeric c → contains_rune base62_chars c ≡ true
unfolding contains_rune base62_chars
contains_rune_complete c h = ground arith

contains_rune_big : (r : ℕ) → 0x80 ≤ r → contains_rune base62_chars r ≡ false
contains_rune_big r h = elim (Bool-cases (contains_rune base62_chars r)) [
  | inl e ↦ let w = contains_rune_sound r e in absurd (omega arith)
  | inr e ↦ e
]

All-chars_sound :
    (s : Bytes) → all_runes (contains_rune base62_chars) s ≡ true → All IsAlphanumeric s
All-chars_sound [] h = tt
All-chars_sound (c ∷ s) h = (contains_rune_sound c (ground arith), All-chars_sound s (ground arith))

All-chars_complete :
    (s : Bytes) → All IsAlphanumeric s → all_runes (contains_rune base62_chars) s ≡ true
All-chars_complete [] h = refl
All-chars_complete (c ∷ s) (a, rest) = rw (contains_rune_complete c a, All-chars_complete s rest)

-- Testing runes is testing bytes here: a rune beyond ASCII is not in the set.
all_runes-base62 :
    (s : Bytes)
    → all_runes (contains_rune base62_chars) (runes s) ≡ all_runes (contains_rune base62_chars) s
all_runes-base62 s = all_runes-bytes (contains_rune base62_chars) contains_rune_big s

-- IsValidRoomCode accepts exactly the texts of six bytes that are all ASCII letters or digits.
pub is_valid_room_code_iff :
    (code : Bytes)
    → (is_valid_room_code code ≡ true) ↔ ((length code ≡ 6) × All IsAlphanumeric code)
unfolding is_valid_room_code
is_valid_room_code_iff code = rw (all_runes-base62 code) (
  λ h. (ground arith, All-chars_sound code (ground arith)),
  λ (n, a). ground (arith, All-chars_complete code a),
)

guest_id_raw :
    (raw : Bytes)
    → (is_valid_guest_id (guest_id_prefix ++ raw) ≡ true)
      ↔ ((length raw ≡ 6) × All IsAlphanumeric raw)
unfolding is_valid_guest_id has_prefix
guest_id_raw raw = rw (all_runes-base62 raw) (
  λ h. (ground arith, All-chars_sound raw (ground arith)),
  λ (n, a). ground (arith, All-chars_complete raw a),
)

guest_id_unprefixed :
    (id : Bytes) → has_prefix id guest_id_prefix ≡ false → is_valid_guest_id id ≡ false
unfolding is_valid_guest_id
guest_id_unprefixed id h = rw h refl

-- IsValidGuestID accepts exactly "guest_" followed by six ASCII letters or digits.
pub is_valid_guest_id_iff :
    (id : Bytes)
    → (is_valid_guest_id id ≡ true)
      ↔ ((raw : Bytes) × (id ≡ guest_id_prefix ++ raw) × (length raw ≡ 6) × All IsAlphanumeric raw)
is_valid_guest_id_iff id = (
  λ h. elim (Bool-cases (has_prefix id guest_id_prefix)) [
    | inl p ↦
        let (raw, e) = (has_prefix_iff id guest_id_prefix).0 p in
        let (n, a) = (guest_id_raw raw).0 (rw e at h) in (raw, e, n, a)
    | inr q ↦ cc (guest_id_unprefixed id q)
  ],
  λ (raw, e, n, a). rw e ((guest_id_raw raw).1 (n, a)),
)

-- What a successful reading is: a number below the length of the set, as rand.Int promises.
abbrev pub InRange : (ℕ → Option ℕ) → Type 0
InRange rand = (i num : ℕ) → rand i ≡ some num → num < 62

base62-All : All IsAlphanumeric base62_chars
unfolding contains_rune base62_chars
base62-All = All-chars_sound base62_chars refl

char_at-All :
    (s : Bytes)
    → All IsAlphanumeric s
    → (i : ℕ) → i < length s
    → (c : ℕ) × (char_at s i ≡ some c) × IsAlphanumeric c
unfolding char_at
char_at-All [] a i h = absurd (omega arith)
char_at-All (c ∷ s) (p, a) zero h = (c, refl, p)
char_at-All (c ∷ s) (p, a) (suc i) h = char_at-All s a i (omega arith)

char_at-base62 :
    (num : ℕ) → num < 62 → (c : ℕ) × (char_at base62_chars num ≡ some c) × IsAlphanumeric c
unfolding base62_chars
char_at-base62 num h = char_at-All base62_chars base62-All num (omega arith)

All-append : (P : ℕ → Type 0) (xs : Bytes) {x : ℕ} → All P xs → P x → All P (xs ++ x ∷ [])
All-append P [] a p = (p, tt)
All-append P (y ∷ xs) (q, a) p = (q, All-append P xs a p)

-- A failed reading among the next ones, or all the characters.
abbrev DrawsWell : (ℕ → Option ℕ) → ℕ → ℕ → Bytes → Drawn → Type 0
DrawsWell rand i rounds before d =
    ((j : ℕ) × (j < i + rounds) × (rand j ≡ none) × (d ≡ failed))
    ⊎ ((s : Bytes) × (d ≡ text s) × (length s ≡ length before + rounds) × All IsAlphanumeric s)

draws_later :
    {rand : ℕ → Option ℕ} (i rounds : ℕ) (before next : Bytes) (d : Drawn)
    → length next ≡ length before + 1
    → DrawsWell rand (suc i) rounds next d
    → DrawsWell rand i (suc rounds) before d
draws_later i rounds before next d g (inl (j, below, e, f)) = inl (j, omega arith, e, f)
draws_later i rounds before next d g (inr (s, e, n, a)) = inr (s, e, omega arith, a)

draw_chars-DrawsWell :
    (rand : ℕ → Option ℕ) (i rounds : ℕ) (before : Bytes)
    → InRange rand
    → All IsAlphanumeric before
    → DrawsWell rand i rounds before (draw_chars rand i rounds before)
unfolding draw_chars
draw_chars-DrawsWell rand i zero before r a = inr (before, refl, omega arith, a)
draw_chars-DrawsWell rand i (suc rounds) before r a = elim (Option-cases (rand i)) [
  | inl e ↦ inl (i, omega arith, e, rw (e, draw_chars))
  | inr (num, e) ↦
      let (c, found, plain) = char_at-base62 num (r i num e) in
      let next = before ++ c ∷ [] in
      let grown : length next ≡ length before + 1 = length-append before (c ∷ []) in
      rw (e, draw_chars, found)
        (draws_later i rounds before next _ grown (
          draw_chars-DrawsWell rand (suc i) rounds next r
            (All-append IsAlphanumeric before a plain)))
]

-- With readings in range, RoomCode fails only where one of its six readings fails, and otherwise
-- returns a code that IsValidRoomCode accepts: no index is out of range.
pub room_code-is_valid :
    (rand : ℕ → Option ℕ)
    → InRange rand
    → ((j : ℕ) × (j < 6) × (rand j ≡ none) × (room_code rand ≡ failed))
      ⊎ ((s : Bytes) × (room_code rand ≡ text s) × (is_valid_room_code s ≡ true))
unfolding room_code
room_code-is_valid rand r = elim (draw_chars-DrawsWell rand 0 6 [] r tt) [
  | inl (j, below, e, f) ↦ inl (j, omega arith, e, f)
  | inr (s, e, n, a) ↦ inr (s, e, (is_valid_room_code_iff s).1 (omega arith, a))
]

-- A guest's id is never a room code, nor the other way round.
pub guest_id-ne-room_code : (s : Bytes) → is_valid_guest_id s ≡ true → is_valid_room_code s ≡ false
guest_id-ne-room_code s h =
    let (raw, e, n, a) = (is_valid_guest_id_iff s).0 h in
    elim (Bool-cases (is_valid_room_code s)) [
      | inl v ↦
          let (six, _) = (is_valid_room_code_iff s).0 v in
          let long = ap length e in absurd (omega arith)
      | inr w ↦ w
    ]
