-- ===== src/Common/Int.antt =====
-- Signed integers, for Go's int64: `negsuc n` is -(n + 1).
use Prim.Native.Nat.{ℕ}
use mathlib.Core.Bool.{Bool, true}
use hzchat_server.Common.Tests.{leb}

pub data ℤ : Type 0 where
  pos : ℕ → ℤ
  negsuc : ℕ → ℤ

-- a <= n, for a number n that is not negative.
abbrev pub le_pos : ℤ → ℕ → Bool
le_pos (pos a) n = leb a n
le_pos (negsuc a) n = true
