-- ===== src/Fcm/Rounds.antt =====
-- The loops `for i := 0; i != n; i++` of cluster.go and server.go end.
use fuddle.Fcm.Cluster.{rounds}
use fuddle.Prelude.{
  ℕ, zero, suc, ◌+◌, ◌-◌, ◌^◌, ◌%◌, ◌<◌, ◌≡◌, ◌≢◌, ℤ, pos, negsuc, int64, add64, arith,
}

-- An int in the range of Go's, and its word.
abbrev IsInt : ℤ → Type 0
IsInt (pos n) = n < 2 ^ 63
IsInt (negsuc k) = k < 2 ^ 63

abbrev pub word : ℤ → ℕ
word (pos n) = int64 n
word (negsuc k) = 2 ^ 63 - (k + 1)

-- `i` after so many rounds.
pub counter : ℕ → ℕ
unfolding add64
counter zero = int64 0
counter (suc r) = add64 (counter r) (int64 1)

counter_eq : (r : ℕ) → counter r ≡ (r + 2 ^ 63) % 2 ^ 64
unfolding counter add64
counter_eq zero = omega arith
counter_eq (suc r) = let h = counter_eq r in omega (arith, h)

-- The loop up to an int `n` runs its body as often as `rounds` says: `i` is not `n` before, and is
-- `n` then. That is `n` times if `n` is not negative, and otherwise 2^64 + n times.
pub counter-rounds :
    (n : ℤ)
    → IsInt n
    → ((r : ℕ) → r < rounds n → counter r ≢ word n) × (counter (rounds n) ≡ word n)
unfolding rounds
counter-rounds (pos n) h = (
  (λ r l e. let c = counter_eq r in omega (arith, c, l, e, h)),
  let c = counter_eq n in omega (arith, c, h),
)
counter-rounds (negsuc k) h = (
  (λ r l e. let c = counter_eq r in omega (arith, c, l, e, h)),
  let c = counter_eq (2 ^ 64 - (k + 1)) in omega (arith, c, h),
)
