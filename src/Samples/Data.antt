-- ===== src/Samples/Data.antt =====
-- The queries and options that the samples share.
use netspeak4_application_ng.Prelude.{ℕ, ◌≡◌, [], ◌∷◌, Text, none, some, false, All, refl}
use netspeak4_application_ng.Model.NormQuery.{Source}
use netspeak4_application_ng.Model.Query.{QueryUnit, QueryChildren}
use netspeak4_application_ng.Model.SimpleQuery.{
  SimpleQueryUnit, word, star, regex, concat, alternation, nil, cons,
}
use netspeak4_application_ng.Normalizer.StarQuery.{Options}
use netspeak4_application_ng.Normalizer.Regexes.{RegexIndex}
use netspeak4_application_ng.Normalizer.Simplifier.{TextLibrary}
use netspeak4_application_ng.Normalizer.Normalize.{QueryNormalizer}

abbrev pub the : Text
the = 116 ∷ 104 ∷ 101 ∷ []

abbrev pub foo : Text
foo = 102 ∷ 111 ∷ 111 ∷ []

abbrev pub here : Source
here = record { query = 1; unit = 2 }

-- A regular expression that stands for its own text only.
abbrev pub Exact : Text → Text → Type 0
Exact t w = w ≡ t

abbrev pub options : Options
options = record {
  max_norm_queries = 100;
  min_length = 1;
  max_length = 3;
  max_regex_matches = 10;
  max_regex_time = 5;
}

abbrev pub long_options : Options
long_options = record {
  max_norm_queries = 100;
  min_length = 2;
  max_length = 3;
  max_regex_matches = 10;
  max_regex_time = 5;
}

-- `the [ foo ] *`
abbrev pub optional_star : SimpleQueryUnit
optional_star = concat here (
    cons (word the here) (
      cons (alternation here (cons (word foo here) (cons (concat here nil) nil)))
        (cons (star here) nil)))

-- The same with a regular expression in the place of `the`.
abbrev pub regex_star : SimpleQueryUnit
regex_star = concat here (cons (regex foo here) (cons (star here) nil))

-- `the + *` as it is parsed.
abbrev pub parsed : QueryUnit
parsed = QueryUnit.alternation 0 (
    QueryChildren.cons
      (QueryUnit.concat 1 (
        QueryChildren.cons (QueryUnit.word the 2) (
          QueryChildren.cons
            (QueryUnit.optionset 3 (QueryChildren.cons (QueryUnit.regex foo 4) QueryChildren.nil))
            QueryChildren.nil)))
      QueryChildren.nil)

-- An index that finds just the text of the regular expression.
abbrev pub index : RegexIndex
index = record { match_query = λ t n time. t ∷ [] }

abbrev pub index_finds : (t : Text) (n time : ℕ) → All (Exact t) (index.match_query t n time)
index_finds t n time = (refl, tt)

abbrev pub library : TextLibrary
library = record { to_lower = λ t. t; split_spaces = λ t. t ∷ [] }

abbrev pub normalizer : QueryNormalizer
normalizer = record { regex_index = some index; dictionary = none; lower_case = false }
