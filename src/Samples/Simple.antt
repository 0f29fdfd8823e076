-- ===== src/Samples/Simple.antt =====
-- The simple form of queries, at an order set and a dictionary set.
use netspeak4_application_ng.Prelude.{
  ◌≡◌, ◌<◌, refl, arith, [], ◌∷◌, Text, some, true, false, ok, uint32_max, ℕ, subst, Phrase, length,
  ◌≤◌,
}
use netspeak4_application_ng.Model.Query.{QueryUnit, QueryChildren, length_range}
use netspeak4_application_ng.Model.SimpleQuery
use netspeak4_application_ng.Normalizer.Simplifier.Bounded.{terminals}
use netspeak4_application_ng.Normalizer.Normalize.{normalize, simplifier_of, out_of_range}
use netspeak4_application_ng.Normalizer.Normalize.Range.{normalize-out_of_range}
use netspeak4_application_ng.Model.SimpleQuery.{
  SimpleQueryUnit, word, concat, alternation, cons, nil,
}
use netspeak4_application_ng.Model.NormQuery.{Source}
use netspeak4_application_ng.Normalizer.Simplifier.{
  QuerySimplifier, to_simple, unit_to_simple, add_element,
}
use netspeak4_application_ng.Normalizer.Simplifier.Meaning.{QueryLang, Accepted}
use netspeak4_application_ng.Normalizer.Simplifier.Sound.{Within, to_simple-Sound}
use netspeak4_application_ng.Util.Permutation.{next_permutation, next?}
use netspeak4_application_ng.Samples.Data.{the, foo, Exact, options, library, normalizer}

-- Settings with a dictionary, where "foo" has the synonym "the".
abbrev settings : QuerySimplifier
settings = record {
  options = options;
  dictionary = some ((foo, the) ∷ []);
  allow_regex = true;
  lower_case = false;
  query = 1;
}

-- `{ the foo }`.
abbrev ordered : QueryUnit
ordered = QueryUnit.orderset 0 (
    QueryChildren.cons (QueryUnit.word the 1)
      (QueryChildren.cons (QueryUnit.word foo 2) QueryChildren.nil))

abbrev at : ℕ → Source
at unit = record { query = 1; unit = unit }

word-small :
    (t : Text) (a : ℕ) (v : SimpleQueryUnit)
    → unit_to_simple library settings (QueryUnit.word t a) ≡ ok v
    → SimpleQuery.terminals v < uint32_max
unfolding unit_to_simple SimpleQuery.terminals
word-small t a v e =
    let same : word t (at a) ≡ v = ok_inj e in
    subst (λ u. SimpleQuery.terminals u < uint32_max) same (omega arith)
  where
    ok_inj : {u w : SimpleQueryUnit} → ok u ≡ ok w → u ≡ w
    ok_inj f = cc

to_simple-Sound_example :
    Accepted
      (Within Exact library settings (QueryLang Exact library settings ordered))
      (to_simple library settings ordered)
to_simple-Sound_example =
    to_simple-Sound Exact library settings ordered
      ((tt, (tt, tt)), (word-small the 1, (word-small foo 2, tt)))

ordered_test :
    to_simple library settings ordered
    ≡ ok (
        alternation (at 0) (
          cons
            (concat (at 0) (cons (word the (at 1)) (cons (word foo (at 2)) nil)))
            (cons (concat (at 0) (cons (word foo (at 2)) (cons (word the (at 1)) nil))) nil)))
unfolding to_simple unit_to_simple add_element SimpleQuery.length_range next_permutation next?
ordered_test = refl

-- `the the the the`, which is too long.
abbrev four_words : QueryUnit
four_words =
    let w = QueryUnit.word the 1 in
    QueryUnit.concat 0 (
      QueryChildren.cons w
        (QueryChildren.cons w (QueryChildren.cons w (QueryChildren.cons w QueryChildren.nil))))

four_words-out_of_range : out_of_range (length_range four_words) options ≡ true
unfolding out_of_range length_range
four_words-out_of_range = refl

normalize-out_of_range_example :
    (normalize library normalizer 1 four_words options [] ≡ ok [])
    × ((p : Phrase)
        → QueryLang Exact library (simplifier_of normalizer 1 options) four_words p
        → options.min_length ≤ length p
        → length p ≤ options.max_length
        → ⊥)
unfolding terminals
normalize-out_of_range_example =
    normalize-out_of_range Exact library (λ t. omega arith) normalizer 1 four_words options []
      (omega arith) (omega arith) four_words-out_of_range
