-- ===== src/Randx/Tests.antt =====
-- The laws of room codes and guest ids at concrete texts.
use hzchat_server.Common.{ℕ, ◌≡◌, ◌<◌, ◌↔◌, ◌⊎◌, true, Option, none, some, arith, length, All}
use hzchat_server.Text.{Bytes, bytes}
use hzchat_server.Randx.{room_code, is_valid_room_code, failed, text}
use hzchat_server.Randx.Laws.{IsAlphanumeric, InRange, is_valid_room_code_iff, room_code-is_valid}

is_valid_room_code_iff_example :
    (is_valid_room_code (bytes "abC12z") ≡ true)
    ↔ ((length (bytes "abC12z") ≡ 6) × All IsAlphanumeric (bytes "abC12z"))
is_valid_room_code_iff_example = is_valid_room_code_iff (bytes "abC12z")

-- A generator that always draws 61.
abbrev last : ℕ → Option ℕ
last i = some 61

last-InRange : InRange last
last-InRange i num h = ground arith

room_code-is_valid_example :
    ((j : ℕ) × (j < 6) × (last j ≡ none) × (room_code last ≡ failed))
    ⊎ ((s : Bytes) × (room_code last ≡ text s) × (is_valid_room_code s ≡ true))
room_code-is_valid_example = room_code-is_valid last last-InRange
