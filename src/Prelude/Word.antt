-- ===== src/Prelude/Word.antt =====
-- Go's `int64` and `uint64`. An `int64` of value v is the number v + 2^63 below 2^64, so that the
-- signed order is the order of the numbers; sums and differences wrap as Go's do.
use Prim.Native.Nat.{ℕ, ◌+◌, ◌-◌, ◌%◌, ◌^◌, ◌<◌}
use mathlib.Core.Path.{◌≡◌}
use native.Mathlib.Omega.{arith}
use fuddle.Prelude.Tests.{ltb}

-- The `int64` that the literal `n` stands for, n < 2^63.
abbrev pub int64 : ℕ → ℕ
int64 n = n + 2 ^ 63

abbrev pub IsInt64 : ℕ → Type 0
IsInt64 a = a < 2 ^ 64

unfoldable pub add64 : ℕ → ℕ → ℕ
add64 a b = (a + b + 2 ^ 63) % 2 ^ 64

unfoldable pub sub64 : ℕ → ℕ → ℕ
sub64 a b = (a + 2 ^ 64 + 2 ^ 63 - b) % 2 ^ 64

-- `c++` on a `uint64`.
unfoldable pub inc_uint64 : ℕ → ℕ
inc_uint64 c = (c + 1) % 2 ^ 64

-- With no overflow, a sum of non-negative values is their sum.
pub add64_exact : (a b : ℕ) → a + b < 2 ^ 63 → add64 (int64 a) (int64 b) ≡ int64 (a + b)
unfolding add64
add64_exact a b h = omega arith

-- The test `a - b > c` of non-negative values is the test of the integers.
pub sub64_test :
    (a b c : ℕ)
    → a < 2 ^ 63
    → b < 2 ^ 63
    → c < 2 ^ 63
    → ltb (int64 c) (sub64 (int64 a) (int64 b)) ≡ ltb (b + c) a
unfolding sub64
sub64_test a b c ha hb hc = ground arith

pub inc_uint64_exact : (c : ℕ) → c + 1 < 2 ^ 64 → inc_uint64 c ≡ c + 1
unfolding inc_uint64
inc_uint64_exact c h = omega arith
