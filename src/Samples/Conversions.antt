-- ===== src/Samples/Conversions.antt =====
-- The theorems on the conversion to norm queries, at samples.
use netspeak4_application_ng.Prelude.{
  sym, ℕ, ◌≡◌, ◌≤◌, ◌<◌, refl, [], ◌∷◌, arith, ok, length, All, Phrase, u32_mod, uint32_max, some,
  Returns, false, subst,
}
use netspeak4_application_ng.Model.NormQuery.{Source}
use netspeak4_application_ng.Model.Query.{length_range}
use netspeak4_application_ng.Model.SimpleQuery.{
  SimpleQueryUnit, word, star, concat, cons, nil, SimpleLang, HasNoRegex, terminals, min_length,
  regex, alternation,
}
use netspeak4_application_ng.Normalizer.StarQuery.{StarQuery, StarQueryUnit}
use netspeak4_application_ng.Normalizer.StarQuery.Lang.{StarLang, required}
use netspeak4_application_ng.Normalizer.StarConverter.{to_star_queries}
use netspeak4_application_ng.Normalizer.StarConverter.Meaning.{Mean, to_star_queries-Mean}
use netspeak4_application_ng.Normalizer.StarConverter.Width.{Within, to_star_queries-Within}
use netspeak4_application_ng.Normalizer.Expansion.{add_with_stars, add_queries, to_norm_queries}
use netspeak4_application_ng.Normalizer.Expansion.Rounds.{Expansion, add_with_stars-Expansion}
use netspeak4_application_ng.Normalizer.Expansion.Meaning.{Outcome, add_queries-Outcome}
use netspeak4_application_ng.Normalizer.Expansion.Correct.{Correct, to_norm_queries-Correct}
use netspeak4_application_ng.Normalizer.Expansion.Limit.{IsLimited, to_norm_queries-IsLimited}
use netspeak4_application_ng.Normalizer.Expansion.Dropped.{to_norm_queries-dropped}
use netspeak4_application_ng.Normalizer.Regexes.{
  normalize_regexes, best_max_matches, find_regexes, within_budget,
}
use netspeak4_application_ng.Normalizer.Counter.{estimate, safe_add, safe_mult}
use netspeak4_application_ng.Normalizer.Regexes.Replace.{Replaced, normalize_regexes-Replaced}
use netspeak4_application_ng.Normalizer.Simplifier.{to_simple}
use netspeak4_application_ng.Normalizer.Optimizer.{
  optimize, optimize_simple_unit, optimize_simple_concat, optimize_simple_alt,
}
use netspeak4_application_ng.Normalizer.Normalize.{normalize, simplifier_of, out_of_range}
use netspeak4_application_ng.Normalizer.Normalize.Meaning.{Answers, normalize-Sound}
use netspeak4_application_ng.Normalizer.Simplifier.Meaning.{QueryLang, HasSmallOrders}
use netspeak4_application_ng.Samples.Data.{
  the, foo, here, Exact, options, long_options, optional_star, regex_star, parsed, index,
  index_finds, library, normalizer,
}

no_regex : HasNoRegex optional_star
no_regex = (tt, ((tt, (tt, tt)), (tt, tt)))

few_terminals : terminals optional_star < uint32_max
unfolding terminals
few_terminals = omega arith

least : 1 ≤ min_length optional_star
unfolding min_length
least = omega arith

to_norm_queries-Correct_example :
    Correct Exact options optional_star (to_norm_queries options [] optional_star)
to_norm_queries-Correct_example =
    to_norm_queries-Correct Exact options optional_star no_regex (omega (arith, few_terminals))
      (omega arith) least

to_norm_queries-dropped_example :
    let query = concat here (cons (word the here) (cons (star here) nil)) in
    (to_norm_queries long_options [] query ≡ ok [])
    × (p : Phrase) × SimpleLang Exact query p
    × (2 ≤ length p)
    × (length p ≤ 3)
to_norm_queries-dropped_example =
    to_norm_queries-dropped Exact long_options the here here here (omega arith) (omega arith)

to_star_queries-Mean_example :
    Returns
      (Mean Exact options (SimpleLang Exact optional_star))
      (to_star_queries options optional_star)
to_star_queries-Mean_example = to_star_queries-Mean Exact options optional_star no_regex

to_star_queries-Within_example :
    Returns (All (Within (terminals optional_star))) (to_star_queries options optional_star)
to_star_queries-Within_example = to_star_queries-Within options optional_star no_regex

-- `the *`
abbrev star_query : StarQuery
star_query = record {
  units = StarQueryUnit.word the here ∷ StarQueryUnit.star here ∷ [];
  min_length = 1;
}

add_with_stars-Expansion_example :
    Expansion options (StarLang star_query) [] (add_with_stars options [] star_query)
unfolding required
add_with_stars-Expansion_example =
    add_with_stars-Expansion options [] star_query refl (omega arith) (omega arith)

add_queries-Outcome_example :
    Outcome options (star_query ∷ []) [] (add_queries options [] (star_query ∷ []))
unfolding required
add_queries-Outcome_example =
    add_queries-Outcome options (star_query ∷ []) [] ((refl, omega arith), tt) (omega arith)

normalize_regexes-Replaced_example :
    Replaced Exact regex_star (normalize_regexes options (some index) regex_star)
normalize_regexes-Replaced_example =
    normalize_regexes-Replaced Exact options index regex_star index_finds

-- The simple form of the parsed query, and what becomes of it.
abbrev at : ℕ → Source
at unit = record { query = 1; unit = unit }

abbrev simple_form : SimpleQueryUnit
simple_form = alternation (at 0) (
    cons
      (concat (at 1) (
        cons (word the (at 2))
          (cons (alternation (at 3) (cons (concat (at 3) nil) (cons (regex foo (at 4)) nil))) nil)))
      nil)

abbrev replaced_form : SimpleQueryUnit
replaced_form = alternation (at 0) (
    cons
      (concat (at 1) (
        cons (word the (at 2)) (
          cons
            (alternation (at 3) (
              cons (concat (at 3) nil)
                (cons (alternation (at 4) (cons (word foo (at 4)) nil)) nil)))
            nil)))
      nil)

to_simple_test : to_simple library (simplifier_of normalizer 1 options) parsed ≡ ok simple_form
unfolding to_simple simplifier_of
to_simple_test = refl

normalize_regexes_test :
    normalize_regexes options (some index) (optimize simple_form) ≡ ok replaced_form
unfolding normalize_regexes optimize optimize_simple_unit optimize_simple_concat optimize_simple_alt
    best_max_matches find_regexes within_budget estimate min_length safe_add safe_mult
normalize_regexes_test = refl

in_range : out_of_range (length_range parsed) options ≡ false
unfolding out_of_range length_range
in_range = refl

few_replaced :
    (r : SimpleQueryUnit)
    → normalize_regexes options (some index) (optimize simple_form) ≡ ok r
    → terminals r < u32_mod
unfolding terminals
few_replaced r e =
    let same : replaced_form ≡ r = cc normalize_regexes_test in
    subst (λ u. terminals u < u32_mod) same (omega arith)

small_form :
    (simple : SimpleQueryUnit)
    → to_simple library (simplifier_of normalizer 1 options) parsed ≡ ok simple
    → simple_form ≡ simple
small_form simple e = cc to_simple_test

no_orders : HasSmallOrders library (simplifier_of normalizer 1 options) parsed
no_orders = ((tt, ((tt, tt), tt)), tt)

normalize-Sound_example :
    Answers Exact options
      (omega arith)
      (QueryLang Exact library (simplifier_of normalizer 1 options) parsed)
      (normalize library normalizer 1 parsed options [])
unfolding terminals
normalize-Sound_example =
    normalize-Sound Exact options (omega arith) library normalizer index 1 parsed refl index_finds
      no_orders
      (λ simple e. subst (λ u. terminals u < uint32_max) (small_form simple e) (omega arith))
      (λ simple r e f. few_replaced r (
        subst (λ u. normalize_regexes options (some index) (optimize u) ≡ ok r)
          (sym (small_form simple e)) f))

to_norm_queries-IsLimited_example : IsLimited options (to_norm_queries options [] optional_star)
to_norm_queries-IsLimited_example = to_norm_queries-IsLimited options [] optional_star (omega arith)
