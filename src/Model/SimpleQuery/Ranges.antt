-- ===== src/Model/SimpleQuery/Ranges.antt =====
-- `min_length` against `length_range`, and `has_wildcards`.
use netspeak4_application_ng.Prelude.{
  ℕ, ◌+◌, ◌%◌, ◌≤◌, ◌<◌, ◌≡◌, refl, sym, ◌∙◌, ◌⊎◌, inl, inr, arith, ◌==◌, u32_mod, uint32_max, true,
  false, ==_of_eq, ==-false_of_lt,
}
use netspeak4_application_ng.Model.LengthRange.{
  LengthRange, no_length, between, is_empty, concat_assign, union_assign,
}
use netspeak4_application_ng.Model.SimpleQuery.{
  SimpleQueryUnit, Children, word, qmark, star, regex, concat, alternation, nil, cons, length_range,
  union_range, concat_range, min_length, min_of, sum_of, terminals, terminals_of, has_wildcards,
}

union_assign_min :
    (r s : LengthRange)
    → r.min ≤ uint32_max
    → s.min ≤ uint32_max
    → ((union_assign r s).min ≤ r.min)
      × ((union_assign r s).min ≤ s.min)
      × (((union_assign r s).min ≡ r.min) ⊎ ((union_assign r s).min ≡ s.min))
unfolding union_assign
union_assign_min r s h k = ground arith

concat_assign_min :
    (r s : LengthRange)
    → r.min < uint32_max
    → (s.min ≡ uint32_max) ⊎ (r.min + s.min < uint32_max)
    → ((s.min ≡ uint32_max) × ((concat_assign r s).min ≡ uint32_max))
      ⊎ ((s.min < uint32_max) × ((concat_assign r s).min ≡ r.min + s.min))
unfolding concat_assign
concat_assign_min r s h k = ground arith

min_of_zero : (us : Children) → min_of 0 us ≡ 0
unfolding min_of
min_of_zero nil = refl
min_of_zero (cons u us) = ground (arith, min_of_zero us)

-- One step of the loop over an alternation takes the smaller of two least lengths.
min_of_step :
    (u : SimpleQueryUnit) (us : Children) (m m' : ℕ)
    → m' ≤ m
    → m' ≤ min_length u
    → (m' ≡ m) ⊎ (m' ≡ min_length u)
    → min_of m (cons u us) ≡ min_of m' us
unfolding min_of
min_of_step u us m m' h k e = ground (arith, min_of_zero us)

union_bound :
    {x r' r c t n : ℕ}
    → (x ≡ r') ⊎ (x ≤ t)
    → (r' ≡ r) ⊎ (r' ≡ c)
    → (c ≤ n) ⊎ (c ≡ uint32_max)
    → r ≤ uint32_max
    → r' ≤ r
    → (x ≡ r) ⊎ (x ≤ n + t)
union_bound h e b k low = ground arith

concat_bound :
    (x r r' n m : ℕ)
    → (x ≤ r' + m) ⊎ (x ≡ uint32_max)
    → r' ≤ r + n
    → (x ≤ r + (n + m)) ⊎ (x ≡ uint32_max)
concat_bound x r r' n m h k = ground arith

-- The least length of a unit: as `length_range` says, and no greater than its terminals unless the
-- unit accepts nothing.
abbrev Agrees : ℕ → LengthRange → ℕ → Type 0
Agrees n r m = (r.min ≡ m) × ((m ≤ n) ⊎ (m ≡ uint32_max))

mutual
  unfolding length_range min_length terminals is_empty

  pub length_range-Agrees :
      (u : SimpleQueryUnit)
      → terminals u < uint32_max
      → Agrees (terminals u) (length_range u) (min_length u)
  length_range-Agrees (word t s) h = ground arith
  length_range-Agrees (qmark s) h = ground arith
  length_range-Agrees (star s) h = ground arith
  length_range-Agrees (regex t s) h = ground arith
  length_range-Agrees (concat s us) h = ground (arith, concat_range-min us (between 0 0))
  length_range-Agrees (alternation s us) h = ground (arith, union_range-min us no_length)

  union_range-min :
      (us : Children) (r : LengthRange)
      → terminals_of us < uint32_max
      → r.min ≤ uint32_max
      → ((union_range r us).min ≡ min_of r.min us)
        × ((min_of r.min us ≡ r.min) ⊎ (min_of r.min us ≤ terminals_of us))
  union_range-min nil r h k = (refl, inl refl)
  union_range-min (cons u us) r h k =
      let r' = union_assign r (length_range u) in
      let (e, c) = length_range-Agrees u (omega arith) in
      let (low, low', which) = union_assign_min r (length_range u) k (omega arith) in
      let which' : (r'.min ≡ r.min) ⊎ (r'.min ≡ min_length u) = ground arith in
      let (ih, b) = union_range-min us r' (omega arith) (omega arith) in
      let step = min_of_step u us r.min r'.min low (omega arith) which' in
      (ih ∙ sym step, rw step (union_bound b which' c k low))

  concat_range-min :
      (us : Children) (r : LengthRange)
      → r.min + terminals_of us < uint32_max
      → ((concat_range r us).min ≡ sum_of r.min us)
        × ((sum_of r.min us ≤ r.min + terminals_of us) ⊎ (sum_of r.min us ≡ uint32_max))
  concat_range-min nil r h = (refl, inl (omega arith))
  concat_range-min (cons u us) r h =
      let r' = concat_assign r (length_range u) in
      let (e, c) = length_range-Agrees u (omega arith) in
      elim (concat_assign_min r (length_range u) (omega arith) (omega arith)) [
        | inl (full, full') ↦
            let stop : (r'.min == uint32_max) ≡ true = ==_of_eq r'.min uint32_max full' in
            let stop' : (min_length u == uint32_max) ≡ true =
              ==_of_eq (min_length u) uint32_max (omega arith) in
            rw stop (rw stop' (full', inr refl))
        | inr (some_left, sum) ↦
            let go : (r'.min == uint32_max) ≡ false =
              ==-false_of_lt r'.min uint32_max (omega arith) in
            let go' : (min_length u == uint32_max) ≡ false =
              ==-false_of_lt (min_length u) uint32_max (omega arith) in
            let next : (r.min + min_length u) % u32_mod ≡ r'.min = omega arith in
            let (ih, b) = concat_range-min us r' (omega arith) in
            rw go (
              rw go' (
                rw next (
                  ih,
                  concat_bound (sum_of r'.min us) r.min r'.min (terminals u) (terminals_of us) b
                      (omega arith),
                )))
      ]

-- The optimised least length is the lower end of the range of lengths, for every query with fewer
-- than 2^32 - 1 terminals.
pub min_length-eq-length_range :
    (u : SimpleQueryUnit) → terminals u < uint32_max → min_length u ≡ (length_range u).min
min_length-eq-length_range u h = sym ((length_range-Agrees u h).0)

-- `has_wildcards` finds no wildcard in any query: its test of `is_terminal` is the wrong way round.
pub has_wildcards-false : (root : SimpleQueryUnit) → has_wildcards root ≡ false
unfolding has_wildcards
has_wildcards-false root = ground arith
