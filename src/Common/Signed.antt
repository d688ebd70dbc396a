-- ===== src/Common/Signed.antt =====
-- Signed 64-bit integers of Go.
use Prim.Native.Nat.{ℕ, ◌+◌, ◌-◌, ◌^◌}
use mathlib.Core.Bool.{Bool, true, false}
use synurang.Common.Tests.{ltb, nat_beq, if◌then◌else◌}

-- `negsuc n` is -(n + 1).
pub data ℤ : Type 0 where
  pos : ℕ → ℤ
  negsuc : ℕ → ℤ

-- x > n, and x = 0, as Go and SQL test them.
abbrev pub above : ℤ → ℕ → Bool
above (pos m) n = ltb n m
above (negsuc m) n = false

abbrev pub below : ℤ → ℕ → Bool
below (pos m) n = ltb m n
below (negsuc m) n = true

abbrev pub is_zero : ℤ → Bool
is_zero (pos m) = nat_beq m 0
is_zero (negsuc m) = false

-- The sum of two numbers of 63 bits, which wraps to a negative number.
abbrev pub add64 : ℕ → ℕ → ℤ
add64 a b = if ltb (a + b) (2 ^ 63) then pos (a + b) else negsuc (2 ^ 64 - (a + b) - 1)
