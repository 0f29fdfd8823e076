-- ===== src/Normalizer/Normalize.antt =====
-- `QueryNormalizer::normalize` of netspeak/QueryNormalizer.cpp.
pub mod Sound
pub mod Meaning
pub mod Range
use netspeak4_application_ng.Prelude.{
  ℕ, Bool, true, false, ◌||◌, ◌&&◌, List, if◌then◌else◌, ltb, Text, Option, none, some, Result, ok,
  ◌>>=◌,
}
use netspeak4_application_ng.Model.LengthRange.{LengthRange, is_empty}
use netspeak4_application_ng.Model.NormQuery.{NormQuery}
use netspeak4_application_ng.Model.Query.{QueryUnit, length_range}
use netspeak4_application_ng.Normalizer.StarQuery.{Options}
use netspeak4_application_ng.Normalizer.Simplifier.{TextLibrary, QuerySimplifier, to_simple}
use netspeak4_application_ng.Normalizer.Optimizer.{optimize}
use netspeak4_application_ng.Normalizer.Regexes.{RegexIndex, normalize_regexes}
use netspeak4_application_ng.Normalizer.Expansion.{to_norm_queries}

pub record QueryNormalizer : Type 0 where
  pub regex_index : Option RegexIndex
  pub dictionary : Option (List (Text × Text))
  pub lower_case : Bool

is_some : Option RegexIndex → Bool
is_some none = false
is_some (some _) = true

pub allow_regex : QueryNormalizer → Options → Bool
unfolding is_some
allow_regex n o = is_some n.regex_index && (ltb 0 o.max_regex_matches && ltb 0 o.max_regex_time)

-- The first test: no phrase of admissible length can be accepted.
unfoldable pub out_of_range : LengthRange → Options → Bool
unfolding is_empty
out_of_range range o = is_empty range || (ltb range.max o.min_length || ltb o.max_length range.min)

-- The simplifier with the settings of the normalizer.
unfoldable pub simplifier_of : QueryNormalizer → ℕ → Options → QuerySimplifier
unfolding allow_regex
simplifier_of n query o = record {
  options = o;
  dictionary = n.dictionary;
  allow_regex = allow_regex n o;
  lower_case = n.lower_case;
  query = query;
}

unfoldable pub normalize :
    TextLibrary
    → QueryNormalizer
    → ℕ
    → QueryUnit
    → Options
    → List NormQuery
    → Result (List NormQuery)
unfolding simplifier_of out_of_range length_range to_simple optimize normalize_regexes
    to_norm_queries
normalize lib n query alternatives o norm_queries =
    if out_of_range (length_range alternatives) o then ok norm_queries else do
      simple ← to_simple lib (simplifier_of n query o) alternatives
      words ← normalize_regexes o n.regex_index (optimize simple)
      to_norm_queries o norm_queries words
