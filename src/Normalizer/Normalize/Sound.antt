-- ===== src/Normalizer/Normalize/Sound.antt =====
-- `QueryNormalizer::normalize` as a whole, from the simple form of the query on.
use netspeak4_application_ng.Prelude.{
  ℕ, ◌≡◌, refl, ◌<◌, List, [], All, Text, Phrase, false, some, Result, ok, throw, ◌>>=◌, u32_mod,
  uint32_max, arith, length,
}
use netspeak4_application_ng.Model.NormQuery.{NormQuery}
use netspeak4_application_ng.Model.Query.{QueryUnit, length_range}
use netspeak4_application_ng.Model.SimpleQuery.{SimpleQueryUnit, SimpleLang, terminals}
use netspeak4_application_ng.Normalizer.StarQuery.{Options}
use netspeak4_application_ng.Normalizer.Simplifier.{TextLibrary, to_simple}
use netspeak4_application_ng.Normalizer.Optimizer.{optimize}
use netspeak4_application_ng.Normalizer.Optimizer.Correct.{optimize-Same}
use netspeak4_application_ng.Normalizer.Regexes.{RegexIndex, normalize_regexes}
use netspeak4_application_ng.Normalizer.Regexes.Replace.{Replaced, normalize_regexes-Replaced}
use netspeak4_application_ng.Normalizer.Expansion.{to_norm_queries}
use netspeak4_application_ng.Normalizer.Expansion.Correct.{Sound, to_norm_queries-Sound}
use netspeak4_application_ng.Normalizer.Normalize.{
  QueryNormalizer, simplifier_of, out_of_range, normalize,
}

module _ (matches : Text → Text → Type 0) (o : Options) (small : o.max_length < uint32_max) where
  Sound-weaken :
      (r root : SimpleQueryUnit) (m : Result (List NormQuery))
      → ((p : Phrase) → SimpleLang matches r p → SimpleLang matches root p)
      → Sound matches o r m
      → Sound matches o root m
  Sound-weaken r root (ok ns) k (range, h) = (range, λ p x. k p (h p x))
  Sound-weaken r root (throw e) k h = h

  from_words :
      (root : SimpleQueryUnit) (m : Result SimpleQueryUnit)
      → Replaced matches root m
      → ((r : SimpleQueryUnit) → m ≡ ok r → terminals r < u32_mod)
      → Sound matches o root (m >>= to_norm_queries o [])
  from_words root (ok r) (free, k) few =
      Sound-weaken r root (to_norm_queries o [] r) k
        (to_norm_queries-Sound matches o r free (few r refl) small)
  from_words root (throw e) h few = h

  from_simple :
      (index : RegexIndex) (simple : SimpleQueryUnit)
      → ((t : Text) (n time : ℕ) → All (matches t) (index.match_query t n time))
      → terminals simple < uint32_max
      → ((r : SimpleQueryUnit)
          → normalize_regexes o (some index) (optimize simple) ≡ ok r
          → terminals r < u32_mod)
      → Sound matches o simple
          (normalize_regexes o (some index) (optimize simple) >>= to_norm_queries o [])
  from_simple index simple found few few' =
      let m = normalize_regexes o (some index) (optimize simple) in
      Sound-weaken (optimize simple) simple (m >>= to_norm_queries o [])
        (λ p. (optimize-Same matches (length p) simple few p (omega arith)).0)
        (from_words (optimize simple) m
          (normalize_regexes-Replaced matches o index (optimize simple) found) few')

  pub normalize_lem :
      (lib : TextLibrary) (n : QueryNormalizer) (query : ℕ) (alternatives : QueryUnit)
      → out_of_range (length_range alternatives) o ≡ false
      → (simple : SimpleQueryUnit)
      → to_simple lib (simplifier_of n query o) alternatives ≡ ok simple
      → normalize lib n query alternatives o []
        ≡ (normalize_regexes o n.regex_index (optimize simple) >>= to_norm_queries o [])
  unfolding normalize
  normalize_lem lib n query alternatives inside simple form = rw inside (rw form refl)

  -- For a query in range that has a simple form, an index that finds matching words only, and a
  -- `max_length` below 2^32 - 1, starting from no norm queries: the norm queries have admissible
  -- lengths and match only phrases that the simple form accepts, or `invalid_query_error` is thrown.
  -- The simple form has fewer than 2^32 - 1 terminals, and fewer than 2^32 when it is optimized and
  -- its regular expressions are replaced.
  pub normalize-SimpleLang :
      (lib : TextLibrary) (n : QueryNormalizer) (index : RegexIndex) (query : ℕ)
      (alternatives : QueryUnit) (simple : SimpleQueryUnit)
      → n.regex_index ≡ some index
      → ((t : Text) (k time : ℕ) → All (matches t) (index.match_query t k time))
      → out_of_range (length_range alternatives) o ≡ false
      → to_simple lib (simplifier_of n query o) alternatives ≡ ok simple
      → terminals simple < uint32_max
      → ((r : SimpleQueryUnit)
          → normalize_regexes o (some index) (optimize simple) ≡ ok r
          → terminals r < u32_mod)
      → Sound matches o simple (normalize lib n query alternatives o [])
  normalize-SimpleLang lib n index query alternatives simple has found inside form few few' =
      rw (normalize_lem lib n query alternatives inside simple form)
        (rw has (from_simple index simple found few few'))
