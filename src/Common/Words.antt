-- ===== src/Common/Words.antt =====
-- `int64` as its bit pattern, a number below 2 ^ 64, with wrapping operations.
use Prim.Native.Nat.{ℕ, ◌+◌, ◌-◌, ◌%◌, ◌^◌}
use mathlib.Core.Bool.{Bool}
use moneo_backend.Common.Tests.{leb}

abbrev pub int64_mod : ℕ
int64_mod = 2 ^ 64

-- math.MaxInt64
abbrev pub max_int64 : ℕ
max_int64 = 2 ^ 63 - 1

unfoldable pub add64 : ℕ → ℕ → ℕ
add64 a b = (a + b) % int64_mod

unfoldable pub sub64 : ℕ → ℕ → ℕ
sub64 a b = (a + (int64_mod - b % int64_mod)) % int64_mod

unfoldable pub neg64 : ℕ → ℕ
neg64 a = (int64_mod - a % int64_mod) % int64_mod

-- `x < 0`
unfoldable pub is_negative : ℕ → Bool
is_negative a = leb (2 ^ 63) a
