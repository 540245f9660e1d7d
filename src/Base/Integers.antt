-- ===== src/Base/Integers.antt =====
-- Go's `int` and `int64`: integers, with the wrap-around of 64 bits where a product is taken.
use Prim.Native.Nat.{ℕ, ◌-◌, ◌*◌, ◌%◌, ◌^◌}
use mathlib.Core.Bool.{Bool, true}
use nodefoundry.Base.Tests.{ltb, if◌then◌else◌}

-- `negsuc n` is `- (n + 1)`.
pub data ℤ : Type 0 where
  pos negsuc : ℕ → ℤ

-- Whether an integer is below a natural number.
abbrev pub below : ℤ → ℕ → Bool
below (pos n) bound = ltb n bound
below (negsuc n) bound = true

-- The 64 bits of an integer, and the integer that 64 bits stand for.
unfoldable pub bits64 : ℤ → ℕ
bits64 (pos n) = n % 2 ^ 64
bits64 (negsuc n) = 2 ^ 64 - 1 - n % 2 ^ 64

unfoldable pub int64 : ℕ → ℤ
int64 b = if ltb b (2 ^ 63) then pos b else negsuc (2 ^ 64 - 1 - b)

-- `a * n` on int64, for a constant `n`.
unfoldable pub times64 : ℤ → ℕ → ℤ
unfolding bits64 int64
times64 a n = int64 (bits64 a * n % 2 ^ 64)
