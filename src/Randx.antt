-- ===== src/Randx.antt =====
-- internal/pkg/randx/randx.go: room codes, nicknames, and the tests of room codes and guest ids.
-- A reading of crypto/rand is an argument: the number drawn, or none if the reader fails.
pub mod Laws
mod Tests
use hzchat_server.Common.{
  ℕ, zero, suc, ◌≡◌, Bool, true, false, ◌&&◌, ◌||◌, List, [], ◌∷◌, ◌++◌, Option, none, some, ◌==◌,
  if◌then◌else◌, length, drop, not,
}
use hzchat_server.Text.{Bytes, bytes, has_prefix, runes, all_runes}

unfoldable pub base62_chars : Bytes
base62_chars = bytes "0123456789ABCDEFGHIJKLMNOPQRSTUVWXYZabcdefghijklmnopqrstuvwxyz"

abbrev pub base62_len : ℕ
base62_len = 62

abbrev pub room_code_length : ℕ
room_code_length = 6

abbrev pub guest_id_prefix : Bytes
guest_id_prefix = bytes "guest_"

abbrev pub guest_id_raw_length : ℕ
guest_id_raw_length = 6

abbrev pub nickname_random_length : ℕ
nickname_random_length = 6

-- What a function that draws characters returns: a text, an error, or the panic of an index out
-- of range.
pub data Drawn : Type 0 where
  text : Bytes → Drawn
  failed : Drawn
  out_of_range : Drawn

-- Base62Chars[num]
unfoldable pub char_at : Bytes → ℕ → Option ℕ
char_at [] i = none
char_at (c ∷ s) zero = some c
char_at (c ∷ s) (suc i) = char_at s i

-- The loop `for i := range length`: `rounds` characters are left, and `i` were drawn.
unfoldable pub draw_chars : (ℕ → Option ℕ) → ℕ → ℕ → Bytes → Drawn
draw_chars rand i zero result = text result
draw_chars rand i (suc rounds) result = elim (rand i) [
  | none ↦ failed
  | some num ↦ elim (char_at base62_chars num) [
    | none ↦ out_of_range
    | some c ↦ draw_chars rand (suc i) rounds (result ++ c ∷ [])
  ]
]

-- RoomCode
unfoldable pub room_code : (ℕ → Option ℕ) → Drawn
unfolding draw_chars
room_code rand = draw_chars rand 0 room_code_length []

abbrev prefixed : Bytes → Drawn → Drawn
prefixed before (text s) = text (before ++ s)
prefixed before failed = failed
prefixed before out_of_range = out_of_range

-- UserNickname
unfoldable pub user_nickname : (ℕ → Option ℕ) → Drawn
unfolding draw_chars
user_nickname rand = prefixed (bytes "User_") (draw_chars rand 0 nickname_random_length [])

-- strings.ContainsRune(Base62Chars, char); the set is ASCII.
unfoldable pub contains_rune : Bytes → ℕ → Bool
contains_rune [] r = false
contains_rune (c ∷ s) r = c == r || contains_rune s r

-- IsValidRoomCode
unfoldable pub is_valid_room_code : Bytes → Bool
unfolding contains_rune
is_valid_room_code code =
    if not (length code == room_code_length)
    then false
    else all_runes (contains_rune base62_chars) (runes code)

-- IsValidGuestID
unfoldable pub is_valid_guest_id : Bytes → Bool
unfolding contains_rune
is_valid_guest_id id =
    if not (has_prefix id guest_id_prefix)
    then false
    else let raw_id = drop (length guest_id_prefix) id in
      if not (length raw_id == guest_id_raw_length)
      then false
      else all_runes (contains_rune base62_chars) (runes raw_id)
