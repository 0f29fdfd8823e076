-- ===== src/Normalizer/Regexes.antt =====
-- `find_regexes`, `binary_search` and `normalize_regexes` of netspeak/QueryNormalizer.cpp: regular
-- expressions give way to the words that they match.
pub mod Search
pub mod Replace
use Prim.Native.Nat.{compare, Ordering}
use netspeak4_application_ng.Prelude.{
  ℕ, zero, suc, ◌+◌, ◌-◌, ◌/◌, Bool, true, false, List, [], ◌∷◌, ◌++◌, map, if◌then◌else◌, ltb, leb,
  ◌==◌, ◌%◌, u32_mod, Text, Result, ok, throw, invalid_query_error, undefined_behaviour, Option,
  none, some,
}
use netspeak4_application_ng.Model.NormQuery.{Source}
use netspeak4_application_ng.Model.SimpleQuery.{
  SimpleQueryUnit, Children, word, qmark, star, regex, concat, alternation, nil, cons, from_list,
}
use netspeak4_application_ng.Normalizer.StarQuery.{Options}
use netspeak4_application_ng.Normalizer.Counter.{estimate}

-- The texts of the regular expressions, in the order in which they are found.
unfoldable mutual
  pub find_regexes : SimpleQueryUnit → List Text
  find_regexes (regex t _) = t ∷ []
  find_regexes (alternation _ us) = find_regexes_of us
  find_regexes (concat _ us) = find_regexes_of us
  find_regexes (word _ _) = []
  find_regexes (qmark _) = []
  find_regexes (star _) = []

  pub find_regexes_of : Children → List Text
  find_regexes_of nil = []
  find_regexes_of (cons u us) = find_regexes u ++ find_regexes_of us

-- `binary_search`: the three outcomes of `comparer` are 0, negative and positive. No sum exceeds
-- `max`, so none wraps around. The range at least halves in each round, so `max` rounds are enough.
pub search_from : ℕ → ℕ → ℕ → (ℕ → Ordering) → ℕ
search_from zero min max comparer = min
search_from (suc f) min max comparer =
    let m = min + (max - min) / 2 + 1 in
    let upper = search_from f m max comparer in
    let lower = search_from f min (m - 1) comparer in
    let found : ℕ = elim (comparer m) [
      | Ordering.eq ↦ m
      | Ordering.lt ↦ upper
      | Ordering.gt ↦ lower
    ] in
    if ltb min max then found else min

pub binary_search : ℕ → ℕ → (ℕ → Ordering) → ℕ
unfolding search_from
binary_search min max comparer = search_from (max - min) min max comparer

-- The comparer of `normalize_regexes`.
unfoldable pub within_budget : Options → SimpleQueryUnit → ℕ → Ordering
within_budget o query m = compare (estimate o query m) o.max_norm_queries

is_over : Ordering → Bool
is_over Ordering.gt = true
is_over Ordering.eq = false
is_over Ordering.lt = false

unfoldable pub best_max_matches : Options → SimpleQueryUnit → ℕ
unfolding binary_search is_over
best_max_matches o query =
    let searched = binary_search 0 o.max_regex_matches (within_budget o query) in
    if is_over (within_budget o query o.max_regex_matches) then searched else o.max_regex_matches

-- `RegexIndex::match_query` behind `parse_netspeak_regex_query`, at the text of a regular expression,
-- the greatest number of matches and the time allowed. It is a virtual function: the implementation is chosen by the caller.
pub record RegexIndex : Type 0 where
  pub match_query : Text → ℕ → ℕ → List Text

-- The loop that puts an alternation of words in the place of each regular expression.
unfoldable mutual
  unfolding from_list

  pub replace_regexes : (Text → List Text) → SimpleQueryUnit → SimpleQueryUnit
  replace_regexes words (regex t s) = alternation s (from_list (map (λ w. word w s) (words t)))
  replace_regexes words (alternation s us) = alternation s (replace_regexes_of words us)
  replace_regexes words (concat s us) = concat s (replace_regexes_of words us)
  replace_regexes words (word t s) = word t s
  replace_regexes words (qmark s) = qmark s
  replace_regexes words (star s) = star s

  pub replace_regexes_of : (Text → List Text) → Children → Children
  replace_regexes_of words nil = nil
  replace_regexes_of words (cons u us) =
      cons (replace_regexes words u) (replace_regexes_of words us)

is_none : List Text → Bool
is_none [] = true
is_none (_ ∷ _) = false

-- A null index would be dereferenced: undefined behaviour. The parameter of the index for the number of
-- matches is a `uint32_t`.
replace_all : ℕ → ℕ → Option RegexIndex → SimpleQueryUnit → Result SimpleQueryUnit
unfolding replace_regexes
replace_all best time none query = throw undefined_behaviour
replace_all best time (some index) query =
    ok (replace_regexes (λ t. index.match_query t (best % u32_mod) time) query)

unfoldable pub normalize_regexes :
    Options → Option RegexIndex → SimpleQueryUnit → Result SimpleQueryUnit
unfolding is_none replace_all
normalize_regexes o index query =
    let best = best_max_matches o query in
    if is_none (find_regexes query)
    then ok query
    else if best == 0
    then throw invalid_query_error
    else replace_all best o.max_regex_time index query
