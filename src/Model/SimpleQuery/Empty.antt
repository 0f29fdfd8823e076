-- ===== src/Model/SimpleQuery/Empty.antt =====
-- Which units of a simple query accept the empty phrase.
use netspeak4_application_ng.Prelude.{
  ℕ, ◌+◌, ◌≤◌, ◌<◌, ◌≡◌, refl, ◌⊎◌, [], arith, Text, inl, inr, uint32_max,
}
use netspeak4_application_ng.Model.SimpleQuery.{
  SimpleQueryUnit, Children, word, qmark, star, regex, concat, alternation, nil, cons, SimpleLang,
  ConcatLang, AlternationLang, min_length, min_of, sum_of, terminals, terminals_of,
}
use netspeak4_application_ng.Model.SimpleQuery.Ranges.{length_range-Agrees}

min_length-le :
    (u : SimpleQueryUnit)
    → terminals u < uint32_max
    → (min_length u ≤ terminals u) ⊎ (min_length u ≡ uint32_max)
min_length-le u h = (length_range-Agrees u h).1

sum_step :
    (u : SimpleQueryUnit) (us : Children) (m : ℕ)
    → (min_length u ≤ terminals u) ⊎ (min_length u ≡ uint32_max)
    → m + (terminals u + terminals_of us) < uint32_max
    → sum_of m (cons u us) ≡ 0
    → (sum_of (m + min_length u) us ≡ 0) × (min_length u ≤ terminals u)
unfolding sum_of
sum_step u us m c h z = ground arith

min_step :
    (u : SimpleQueryUnit) (us : Children) (m : ℕ)
    → 0 < m
    → min_of m (cons u us) ≡ 0
    → (min_length u ≡ 0) ⊎ ((0 < min_length u) × (min_of (min_length u) us ≡ 0)) ⊎ (min_of m us ≡ 0)
unfolding min_of
min_step u us m k z = ground arith

module _ (matches : Text → Text → Type 0) where
  mutual
    unfolding min_length terminals

    unit-zero :
        (u : SimpleQueryUnit)
        → terminals u < uint32_max
        → min_length u ≡ 0
        → SimpleLang matches u []
    unit-zero (word t s) h z = absurd (omega arith)
    unit-zero (qmark s) h z = absurd (omega arith)
    unit-zero (star s) h z = tt
    unit-zero (regex t s) h z = absurd (omega arith)
    unit-zero (concat s us) h z = (sum_of-zero us 0 (omega arith) z).1
    unit-zero (alternation s us) h z = min_of-zero us uint32_max h (omega arith) z

    sum_of-zero :
        (us : Children) (m : ℕ)
        → m + terminals_of us < uint32_max
        → sum_of m us ≡ 0
        → (m ≡ 0) × ConcatLang matches us []
    sum_of-zero nil m h z = (z, refl)
    sum_of-zero (cons u us) m h z =
        let (z', c) = sum_step u us m (min_length-le u (omega arith)) h z in
        let (e, x) = sum_of-zero us (m + min_length u) (omega arith) z' in
        (omega arith, ([], [], refl, unit-zero u (omega arith) (omega arith), x))

    min_of-zero :
        (us : Children) (m : ℕ)
        → terminals_of us < uint32_max
        → 0 < m
        → min_of m us ≡ 0
        → AlternationLang matches us []
    min_of-zero nil m h k z = absurd (omega arith)
    min_of-zero (cons u us) m h k z = elim (min_step u us m k z) [
      | inl e ↦ inl (unit-zero u (omega arith) e)
      | inr (inl (k', e)) ↦ inr (min_of-zero us (min_length u) (omega arith) k' e)
      | inr (inr e) ↦ inr (min_of-zero us m (omega arith) k e)
    ]

  -- A unit with fewer than 2^32 - 1 terminals whose least length is 0 accepts the empty phrase.
  pub min_length-zero :
      (u : SimpleQueryUnit) → terminals u < uint32_max → min_length u ≡ 0 → SimpleLang matches u []
  min_length-zero u h z = unit-zero u h z
