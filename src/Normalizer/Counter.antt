-- ===== src/Normalizer/Counter.antt =====
-- `MinLengthMargin` and `NormQueryCounter` of netspeak/QueryNormalizer.cpp: an estimate of how many
-- norm queries a simple query gives, as a function of the number of words for each regex.
pub mod Overflow
use netspeak4_application_ng.Prelude.{
  ℕ, ◌+◌, ◌-◌, ◌*◌, ◌%◌, max, Bool, true, false, ◌||◌, ◌&&◌, if◌then◌else◌, ltb, ◌==◌, u32_mod,
  u64_mod, uint32_max, uint64_max, Option, none, some,
}
use netspeak4_application_ng.Model.SimpleQuery.{
  SimpleQueryUnit, Children, word, qmark, star, regex, concat, alternation, nil, cons, min_length,
}
use netspeak4_application_ng.Normalizer.StarQuery.{Options}

pub record MinLengthMargin : Type 0 where
  pub before : ℕ
  pub after : ℕ

-- `total` and `operator+`, over `uint32_t`.
pub total : MinLengthMargin → ℕ
total m = (m.before + m.after) % u32_mod

pub add_margin : MinLengthMargin → MinLengthMargin → MinLengthMargin
add_margin lhs rhs = record {
  before = (lhs.before + rhs.before) % u32_mod;
  after = (lhs.after + rhs.after) % u32_mod;
}

-- `UnitResult`: a constant, or a function of the number of words for each regex.
pub data UnitResult : Type 0 where
  constant : ℕ → UnitResult
  function : (ℕ → ℕ) → UnitResult

unfoldable pub safe_add : ℕ → ℕ → ℕ
safe_add a b = let sum = (a + b) % u64_mod in if ltb sum a then uint64_max else sum

-- The test for an overflow is the one of the code.
unfoldable pub safe_mult : ℕ → ℕ → ℕ
safe_mult a b = let prod = a * b % u64_mod in if ltb prod a || ltb prod b then uint64_max else prod

is_constant : ℕ → UnitResult → Bool
is_constant c (constant a) = a == c
is_constant c (function _) = false

sum_of_results : UnitResult → UnitResult → UnitResult
sum_of_results (constant a) (constant b) = constant (safe_add a b)
sum_of_results (constant a) (function g) = function (λ input. safe_add a (g input))
sum_of_results (function f) (constant b) = function (λ input. safe_add b (f input))
sum_of_results (function f) (function g) = function (λ input. safe_add (f input) (g input))

prod_of_results : UnitResult → UnitResult → UnitResult
prod_of_results (constant a) (constant b) = constant (safe_mult a b)
prod_of_results (constant a) (function g) = function (λ input. safe_mult a (g input))
prod_of_results (function f) (constant b) = function (λ input. safe_mult b (f input))
prod_of_results (function f) (function g) = function (λ input. safe_mult (f input) (g input))

-- `UnitResult::operator+` and `UnitResult::operator*`.
pub add_results : UnitResult → UnitResult → UnitResult
unfolding is_constant sum_of_results
add_results lhs rhs =
    if is_constant uint64_max lhs
    then constant uint64_max
    else if is_constant uint64_max rhs
    then constant uint64_max
    else sum_of_results lhs rhs

pub mult_results : UnitResult → UnitResult → UnitResult
unfolding is_constant prod_of_results
mult_results lhs rhs =
    if is_constant 0 lhs
    then constant 0
    else if is_constant 0 rhs
    then constant 0
    else if is_constant uint64_max lhs
    then constant uint64_max
    else if is_constant uint64_max rhs
    then constant uint64_max
    else prod_of_results lhs rhs

-- The first loop over a concatenation: the sum of the least lengths, or nothing if a child accepts
-- no phrase.
pub sum_min_lengths : ℕ → Children → Option ℕ
sum_min_lengths sum nil = some sum
sum_min_lengths sum (cons u us) =
    let min_len = min_length u in
    let rest = sum_min_lengths ((sum + min_len) % u32_mod) us in
    if min_len == uint32_max then none else rest

-- `estimate_impl`. The difference of the lengths at a star is a `uint32_t`, so the maximum with 0
-- changes nothing.
unfoldable mutual
  unfolding total add_margin add_results mult_results is_constant sum_min_lengths

  pub estimate_impl : Options → MinLengthMargin → SimpleQueryUnit → UnitResult
  estimate_impl o m (word _ _) = constant 1
  estimate_impl o m (qmark _) = constant 1
  estimate_impl o m (star _) =
      constant ((1 + max 0 ((o.max_length + u32_mod - total m) % u32_mod)) % u64_mod)
  estimate_impl o m (regex _ _) = function (λ input. input)
  estimate_impl o m (alternation _ us) = estimate_sum o m (constant 0) us
  estimate_impl o m (concat _ us) = elim (sum_min_lengths 0 us) [
    | none ↦ constant 0
    | some unit_min_length ↦ estimate_product o m unit_min_length (constant 1) 0 us
  ]

  pub estimate_sum : Options → MinLengthMargin → UnitResult → Children → UnitResult
  estimate_sum o m sum nil = sum
  estimate_sum o m sum (cons u us) = estimate_sum o m (add_results sum (estimate_impl o m u)) us

  pub estimate_product : Options → MinLengthMargin → ℕ → UnitResult → ℕ → Children → UnitResult
  estimate_product o m unit_min_length total min_before nil = total
  estimate_product o m unit_min_length total min_before (cons u us) =
      let child_min = min_length u in
      let min_after = (unit_min_length + u32_mod - min_before + u32_mod - child_min) % u32_mod in
      let c_num =
        estimate_impl o (add_margin m (record { before = min_before; after = min_after })) u in
      let rest =
        estimate_product o m unit_min_length (mult_results total c_num)
          ((min_before + child_min) % u32_mod) us in
      if is_constant uint64_max c_num
      then constant uint64_max
      else if is_constant 0 c_num
      then constant 0
      else rest

apply_result : UnitResult → ℕ → ℕ
apply_result (constant c) input = c
apply_result (function f) input = f input

-- `NormQueryCounter::estimate`.
unfoldable pub estimate : Options → SimpleQueryUnit → ℕ → ℕ
unfolding apply_result estimate_impl
estimate o root regex_matches =
    apply_result (estimate_impl o (record { before = 0; after = 0 }) root) regex_matches
