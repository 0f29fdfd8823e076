-- ===== src/Normalizer/StarQuery.antt =====
-- `QueryNormalizer::Options` and `StarQuery` of netspeak/QueryNormalizer.cpp.
pub mod Lang
use netspeak4_application_ng.Prelude.{
  ℕ, ◌+◌, ◌%◌, Bool, true, false, List, [], ◌∷◌, ◌++◌, Text, if◌then◌else◌, u32_mod, uint32_max,
}
use netspeak4_application_ng.Model.NormQuery.{Source}

-- The bound on the time of a regular expression is `max_regex_time`, in nanoseconds, which the code
-- holds in a signed number: here it is not negative. The code treats a negative one as 0.
pub record Options : Type 0 where
  pub max_norm_queries : ℕ
  pub min_length : ℕ
  pub max_length : ℕ
  pub max_regex_matches : ℕ
  pub max_regex_time : ℕ

pub data StarQueryUnit : Type 0 where
  word : Text → Source → StarQueryUnit
  qmark : Source → StarQueryUnit
  star : Source → StarQueryUnit

pub record StarQuery : Type 0 where
  pub units : List StarQueryUnit
  pub min_length : ℕ

abbrev pub empty_query : StarQuery
empty_query = record { units = []; min_length = 0 }

-- The loop of `StarQuery::max_length`, with its early return at a star.
unfoldable pub max_length_from : ℕ → List StarQueryUnit → ℕ
max_length_from max [] = max
max_length_from max (star _ ∷ us) = uint32_max
max_length_from max (word _ _ ∷ us) = max_length_from ((max + 1) % u32_mod) us
max_length_from max (qmark _ ∷ us) = max_length_from ((max + 1) % u32_mod) us

unfoldable pub max_length : StarQuery → ℕ
unfolding max_length_from
max_length q = max_length_from 0 q.units

is_star : StarQueryUnit → Bool
is_star (star _) = true
is_star _ = false

unfoldable pub push_back : StarQueryUnit → StarQuery → StarQuery
unfolding is_star
push_back u q = record {
  units = q.units ++ u ∷ [];
  min_length = if is_star u then q.min_length else (q.min_length + 1) % u32_mod;
}

unfoldable pub append : StarQuery → StarQuery → StarQuery
append q r = record {
  units = q.units ++ r.units;
  min_length = (q.min_length + r.min_length) % u32_mod;
}
