-- ===== src/Util/Math.antt =====
-- netspeak/util/Math.hpp at `size_t`: products wrap around.
use netspeak4_application_ng.Prelude.{ℕ, zero, suc, ◌+◌, ◌-◌, ◌*◌, ◌/◌, ◌%◌, u64_mod}

-- `binomial`, with `n - 1` wrapping at 0.
unfoldable pub binomial : ℕ → ℕ → ℕ
binomial n zero = 1
binomial n (suc k) = n * binomial ((n + u64_mod - 1) % u64_mod) k % u64_mod / suc k

-- The loop of `factorial`.
factorial_from : ℕ → ℕ → ℕ
factorial_from prod zero = prod
factorial_from prod (suc zero) = prod
factorial_from prod (suc (suc n)) = factorial_from (prod * suc (suc n) % u64_mod) (suc n)

unfoldable pub factorial : ℕ → ℕ
unfolding factorial_from
factorial n = factorial_from 1 n
