-- ===== src/Prelude/Words.antt =====
-- Go's uint64 and int64 as bit patterns below 2 ^ 64. A conversion between the two keeps the
-- pattern, and an int64 is negative when its top bit is set.
use Prim.Native.Nat.{ℕ, ◌+◌, ◌*◌, ◌%◌, ◌^◌}
use mathlib.Core.Bool.{Bool}
use ceph_provider.Prelude.Tests.{ltb, leb}

abbrev pub two_64 : ℕ
two_64 = 2 ^ 64

abbrev pub two_63 : ℕ
two_63 = 2 ^ 63

-- Sums and products wrap around, of signed and of unsigned words alike.
abbrev pub add_64 : ℕ → ℕ → ℕ
add_64 a b = (a + b) % two_64

abbrev pub mul_64 : ℕ → ℕ → ℕ
mul_64 a b = (a * b) % two_64

abbrev pub is_negative : ℕ → Bool
is_negative a = leb two_63 a

-- a < b of int64
abbrev pub int64_lt : ℕ → ℕ → Bool
int64_lt a b = ltb (add_64 a two_63) (add_64 b two_63)
