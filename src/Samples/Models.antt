-- ===== src/Samples/Models.antt =====
-- The theorems on the model, at samples.
use netspeak4_application_ng.Prelude.{
  ℕ, ◌≡◌, ◌↔◌, ◌≤◌, refl, [], ◌∷◌, arith, true, text_eq, length, inl, inr, ◌+◌,
}
use netspeak4_application_ng.Model.LengthRange.{
  between, at_least, accepts, concat_assign, union_ranges, is_unbounded,
}
use netspeak4_application_ng.Model.LengthRange.Accepts.{IsProper, NoOverflow, concat_assign-accepts}
use netspeak4_application_ng.Model.SimpleQuery.{
  word, star, concat, nil, cons, SimpleLang, length_range, min_length, terminals, unit_eq,
  drain_children, source,
}
use netspeak4_application_ng.Model.SimpleQuery.Length.{min_length_sound}
use netspeak4_application_ng.Model.SimpleQuery.Ranges.{min_length-eq-length_range}
use netspeak4_application_ng.Model.SimpleQuery.Equal.{unit_eq-Lang}
use netspeak4_application_ng.Model.NormQuery
use netspeak4_application_ng.Model.NormQuery.{
  count_words, count_qmarks, has_words, has_qmarks, query_eq,
}
use netspeak4_application_ng.Model.Query.{self}
use netspeak4_application_ng.Samples.Data.{the, here, Exact, optional_star, parsed}

proper : IsProper (between 1 2)
proper = record { nonempty = omega arith; ordered = omega arith; bounded = omega arith }

no_overflow : NoOverflow (between 1 2) (between 1 2)
no_overflow = record { mins = omega arith; maxs = inr (inr (omega arith)) }

concat_assign-accepts_example : (accepts (concat_assign (between 1 2) (between 1 2)) 3 ≡ true) ↔ (
    (a : ℕ) × (b : ℕ) × (3 ≡ a + b)
    × (accepts (between 1 2) a ≡ true)
    × (accepts (between 1 2) b ≡ true))
concat_assign-accepts_example =
    concat_assign-accepts (between 1 2) (between 1 2) 3 proper proper no_overflow (omega arith)

min_length_sound_example : min_length optional_star ≤ length (the ∷ [])
min_length_sound_example = min_length_sound Exact optional_star (the ∷ []) (
  the ∷ [],
  [],
  refl,
  (the, refl, refl),
  ([], [], refl, inr (inl refl), ([], [], refl, tt, refl)),
)

min_length-eq-length_range_example : min_length optional_star ≡ (length_range optional_star).min
unfolding terminals
min_length-eq-length_range_example = min_length-eq-length_range optional_star (omega arith)

unit_eq-Lang_example :
    SimpleLang Exact (word the here) ≡ SimpleLang Exact (word the (record { query = 3; unit = 4 }))
unfolding unit_eq
unit_eq-Lang_example =
    unit_eq-Lang Exact (word the here) (word the (record { query = 3; unit = 4 })) refl

-- Tests.
is_unbounded_test : is_unbounded (at_least 2) ≡ true
unfolding is_unbounded
is_unbounded_test = refl

union_ranges_test : union_ranges (between 1 2) (between 3 4) ≡ between 1 4
unfolding union_ranges
union_ranges_test = refl

query_eq_test :
    query_eq
      (NormQuery.word the here ∷ [])
      (NormQuery.word the (record { query = 3; unit = 4 }) ∷ [])
    ≡ true
unfolding query_eq text_eq
query_eq_test = refl

source_test : source optional_star ≡ here
unfolding source
source_test = refl

drain_children_test :
    drain_children (concat here (cons (star here) nil)) ≡ (concat here nil, star here ∷ [])
unfolding drain_children
drain_children_test = refl

self_test : self parsed ≡ 0
unfolding self
self_test = refl
