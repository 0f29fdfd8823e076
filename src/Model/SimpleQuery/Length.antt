-- ===== src/Model/SimpleQuery/Length.antt =====
-- The least length of a simple query, against what the query accepts.
use netspeak4_application_ng.Prelude.{
  ℕ, ◌+◌, ◌%◌, ◌≤◌, ◌≡◌, ap, ◌∙◌, arith, length, length-append, Phrase, Text, inl, inr, u32_mod,
  uint32_max,
}
use netspeak4_application_ng.Model.SimpleQuery.{
  SimpleQueryUnit, Children, word, qmark, star, regex, concat, alternation, nil, cons, SimpleLang,
  ConcatLang, AlternationLang, min_length, min_of, sum_of,
}

min_of-le : (m : ℕ) (us : Children) → min_of m us ≤ m
unfolding min_of
min_of-le m nil = omega arith
min_of-le m (cons u us) = ground (arith, min_of-le (min_length u) us, min_of-le m us)

module _ (matches : Text → Text → Type 0) where
  mutual
    unfolding min_length

    min_length_bound :
        (u : SimpleQueryUnit) (p : Phrase) → SimpleLang matches u p → min_length u ≤ length p
    min_length_bound (word t s) p (w, e, h) = omega (arith, ap length e)
    min_length_bound (qmark s) p (w, e, h) = omega (arith, ap length e)
    min_length_bound (star s) p h = omega arith
    min_length_bound (regex t s) p (w, e, h) = omega (arith, ap length e)
    min_length_bound (concat s us) p h = omega (arith, sum_of_sound us 0 p h)
    min_length_bound (alternation s us) p h = min_of_sound us uint32_max p h

    pub sum_of_sound :
        (us : Children) (m : ℕ) (p : Phrase) → ConcatLang matches us p → sum_of m us ≤ m + length p
    sum_of_sound nil m p h = omega arith
    sum_of_sound (cons u us) m p (a, b, e, x, y) =
        let total : length p ≡ length a + length b = ap length e ∙ length-append a b in
        ground (arith, min_length_bound u a x, sum_of_sound us ((m + min_length u) % u32_mod) b y)

    pub min_of_sound :
        (us : Children) (m : ℕ) (p : Phrase) → AlternationLang matches us p → min_of m us ≤ length p
    min_of_sound nil m p h = absurd h
    min_of_sound (cons u us) m p (inl x) =
        ground (arith, min_length_bound u p x, min_of-le (min_length u) us, min_of-le m us)
    min_of_sound (cons u us) m p (inr y) =
        ground (arith, min_of_sound us m p y, min_of_sound us (min_length u) p y)

  -- No phrase that a unit accepts is shorter than the least length of the unit.
  pub min_length_sound :
      (u : SimpleQueryUnit) (p : Phrase) → SimpleLang matches u p → min_length u ≤ length p
  min_length_sound u p h = min_length_bound u p h
