-- ===== src/Normalizer/Counter/Overflow.antt =====
-- The sums and products of the estimate, at the limit of `uint64_t`.
use netspeak4_application_ng.Prelude.{
  ℕ, ◌+◌, ◌*◌, ◌%◌, ◌≤◌, ◌<◌, ◌≡◌, min, arith, uint64_max, u64_mod,
}
use native.Mathlib.Nat.{mod-eq_of_lt, le-mul_of_pos_right, mul_comm, mul-le-mul}
use netspeak4_application_ng.Normalizer.Counter.{safe_add, safe_mult}

-- The sum of two `uint64_t` is exact, or the greatest such number where it would overflow.
pub safe_add_lem :
    (a b : ℕ) → a ≤ uint64_max → b ≤ uint64_max → safe_add a b ≡ min (a + b) uint64_max
unfolding safe_add
safe_add_lem a b h k = ground arith

-- The product of two positive numbers is exact where it does not overflow.
pub safe_mult_exact : (a b : ℕ) → 0 < a → 0 < b → a * b ≤ uint64_max → safe_mult a b ≡ a * b
unfolding safe_mult
safe_mult_exact a b h k small =
    let e : a * b % u64_mod ≡ a * b = mod-eq_of_lt (omega arith) in
    let left : a ≤ a * b = le-mul_of_pos_right a k in
    let right : b ≤ a * b = rw (mul_comm a b) (le-mul_of_pos_right b h) in rw e (ground arith)

-- An overflow that the test does not see: for 0 < k < 2^16, the square of 2^32 + k comes out as
-- 2^33 k + k^2, which is 2^64 too small.
pub safe_mult_missed :
    (k : ℕ)
    → 0 < k
    → k < 65536
    → safe_mult (4294967296 + k) (4294967296 + k) ≡ 8589934592 * k + k * k
unfolding safe_mult
safe_mult_missed k h small =
    let square : k * k ≤ 65535 * 65535 =
      mul-le-mul {n₁ = k} {m₁ = k} {n₂ = 65535} {m₂ = 65535} (omega arith) (omega arith) in
    ground arith
