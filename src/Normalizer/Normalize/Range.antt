-- ===== src/Normalizer/Normalize/Range.antt =====
-- The first test of `QueryNormalizer::normalize`: queries out of range.
use netspeak4_application_ng.Prelude.{
  ℕ, ◌≡◌, ◌≤◌, ◌<◌, refl, List, Text, Phrase, true, length, ok, arith, uint32_max,
}
use netspeak4_application_ng.Model.LengthRange.{LengthRange, is_empty}
use netspeak4_application_ng.Model.NormQuery.{NormQuery}
use netspeak4_application_ng.Model.Query.{QueryUnit, length_range}
use netspeak4_application_ng.Normalizer.StarQuery.{Options}
use netspeak4_application_ng.Normalizer.Simplifier.{TextLibrary}
use netspeak4_application_ng.Normalizer.Simplifier.Meaning.{QueryLang}
use netspeak4_application_ng.Normalizer.Simplifier.Bounded.{terminals}
use netspeak4_application_ng.Normalizer.Simplifier.Lengths.{IsIn, length_range-IsIn}
use netspeak4_application_ng.Normalizer.Normalize.{
  QueryNormalizer, simplifier_of, out_of_range, normalize,
}

out_of_range-not :
    (r : LengthRange) (o : Options) (n : ℕ)
    → out_of_range r o ≡ true
    → o.max_length < uint32_max
    → IsIn r n
    → o.min_length ≤ n
    → n ≤ o.max_length
    → ⊥
unfolding out_of_range is_empty
out_of_range-not r o n e small i h k = ground arith

normalize-early :
    (lib : TextLibrary) (n : QueryNormalizer) (query : ℕ) (alternatives : QueryUnit) (o : Options)
    (norm_queries : List NormQuery)
    → out_of_range (length_range alternatives) o ≡ true
    → normalize lib n query alternatives o norm_queries ≡ ok norm_queries
unfolding normalize
normalize-early lib n query alternatives o norm_queries e = rw e refl

-- Where the test finds a query out of range, `normalize` adds no norm queries, and rightly: the query
-- accepts no phrase of admissible length. It has fewer than 2^32 - 1 terminals, `max_length` is
-- below 2^32 - 1, and splitting a synonym gives at least one word.
pub normalize-out_of_range :
    (matches : Text → Text → Type 0) (lib : TextLibrary)
    → ((t : Text) → 1 ≤ length (lib.split_spaces t))
    → (n : QueryNormalizer) (query : ℕ) (alternatives : QueryUnit) (o : Options)
      (norm_queries : List NormQuery)
    → terminals alternatives < uint32_max
    → o.max_length < uint32_max
    → out_of_range (length_range alternatives) o ≡ true
    → (normalize lib n query alternatives o norm_queries ≡ ok norm_queries)
      × ((p : Phrase)
          → QueryLang matches lib (simplifier_of n query o) alternatives p
          → o.min_length ≤ length p
          → length p ≤ o.max_length
          → ⊥)
normalize-out_of_range matches lib splits n query alternatives o norm_queries few small e = (
  normalize-early lib n query alternatives o norm_queries e,
  λ p x.
      out_of_range-not (length_range alternatives) o (length p) e small
        (length_range-IsIn matches lib (simplifier_of n query o) splits alternatives p few x),
)
