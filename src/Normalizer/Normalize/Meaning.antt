-- ===== src/Normalizer/Normalize/Meaning.antt =====
-- `QueryNormalizer::normalize` as a whole, against what the query accepts.
use netspeak4_application_ng.Prelude.{
  ℕ, ◌≡◌, refl, ◌<◌, List, [], All, Text, Phrase, true, false, Bool-cases, inl, inr, some, Result,
  ok, throw, Error, invalid_query_error, u32_mod, uint32_max,
}
use netspeak4_application_ng.Language.{Lang}
use netspeak4_application_ng.Model.NormQuery.{NormQuery}
use netspeak4_application_ng.Model.Query.{QueryUnit, length_range}
use netspeak4_application_ng.Model.SimpleQuery.{SimpleQueryUnit, SimpleLang, terminals}
use netspeak4_application_ng.Normalizer.StarQuery.{Options}
use netspeak4_application_ng.Normalizer.Simplifier.{TextLibrary, QuerySimplifier, to_simple}
use netspeak4_application_ng.Normalizer.Simplifier.Meaning.{QueryLang, Accepted, HasSmallOrders}
use netspeak4_application_ng.Normalizer.Simplifier.Sound.{to_simple-Sound}
use netspeak4_application_ng.Normalizer.Optimizer.{optimize}
use netspeak4_application_ng.Normalizer.Regexes.{RegexIndex, normalize_regexes}
use netspeak4_application_ng.Normalizer.Expansion.Rounds.{InRange, NormLang}
use netspeak4_application_ng.Normalizer.Expansion.Correct.{Sound}
use netspeak4_application_ng.Normalizer.Normalize.{
  QueryNormalizer, simplifier_of, out_of_range, normalize,
}
use netspeak4_application_ng.Normalizer.Normalize.Sound.{normalize-SimpleLang}

module _ (matches : Text → Text → Type 0) (o : Options) (small : o.max_length < uint32_max) where
  -- Norm queries of admissible lengths that match only phrases of a set, or the error.
  abbrev pub Answers : Lang → Result (List NormQuery) → Type 0
  Answers L (ok r) = All (InRange o) r × ((p : Phrase) → NormLang r p → L p)
  Answers L (throw e) = e ≡ invalid_query_error

  Sound-Answers :
      (L : Lang) (simple : SimpleQueryUnit) (m : Result (List NormQuery))
      → ((p : Phrase) → SimpleLang matches simple p → L p)
      → Sound matches o simple m
      → Answers L m
  Sound-Answers L simple (ok r) k (range, h) = (range, λ p x. k p (h p x))
  Sound-Answers L simple (throw e) k h = h

  normalize-outside :
      (lib : TextLibrary) (n : QueryNormalizer) (query : ℕ) (alternatives : QueryUnit)
      → out_of_range (length_range alternatives) o ≡ true
      → normalize lib n query alternatives o [] ≡ ok []
  unfolding normalize
  normalize-outside lib n query alternatives e = rw e refl

  normalize-thrown :
      (lib : TextLibrary) (n : QueryNormalizer) (query : ℕ) (alternatives : QueryUnit)
      → out_of_range (length_range alternatives) o ≡ false
      → (e : Error) → to_simple lib (simplifier_of n query o) alternatives ≡ throw e
      → normalize lib n query alternatives o [] ≡ throw e
  unfolding normalize
  normalize-thrown lib n query alternatives inside e f = rw inside (rw f refl)

  -- With an index that finds matching words only and a `max_length` below 2^32 - 1, starting from no
  -- norm queries: the norm queries have admissible lengths and match only phrases that the query
  -- accepts, or `invalid_query_error` is thrown. The elements of the order sets of the query and its
  -- simple form have fewer than 2^32 - 1 terminals, and the optimized simple form has fewer than 2^32
  -- when its regular expressions are replaced.
  pub normalize-Sound :
      (lib : TextLibrary) (n : QueryNormalizer) (index : RegexIndex) (query : ℕ)
      (alternatives : QueryUnit)
      → n.regex_index ≡ some index
      → ((t : Text) (k time : ℕ) → All (matches t) (index.match_query t k time))
      → HasSmallOrders lib (simplifier_of n query o) alternatives
      → ((simple : SimpleQueryUnit)
          → to_simple lib (simplifier_of n query o) alternatives ≡ ok simple
          → terminals simple < uint32_max)
      → ((simple r : SimpleQueryUnit)
          → to_simple lib (simplifier_of n query o) alternatives ≡ ok simple
          → normalize_regexes o (some index) (optimize simple) ≡ ok r
          → terminals r < u32_mod)
      → Answers
          (QueryLang matches lib (simplifier_of n query o) alternatives)
          (normalize lib n query alternatives o [])
  normalize-Sound lib n index query alternatives has found orders few few' =
      elim (Bool-cases (out_of_range (length_range alternatives) o)) [
        | inl e ↦ rw (normalize-outside lib n query alternatives e) (tt, λ p x. absurd x)
        | inr e ↦
            go e (to_simple lib c alternatives) refl
              (to_simple-Sound matches lib c alternatives orders)
      ]
    where
      c : QuerySimplifier
      c = simplifier_of n query o

      go :
          out_of_range (length_range alternatives) o ≡ false
          → (m : Result SimpleQueryUnit) → to_simple lib c alternatives ≡ m
          → Accepted
              (λ simple.
                (p : Phrase) → SimpleLang matches simple p → QueryLang matches lib c alternatives p)
              m
          → Answers (QueryLang matches lib c alternatives) (normalize lib n query alternatives o [])
      go e (ok simple) f k =
          Sound-Answers (QueryLang matches lib c alternatives) simple
            (normalize lib n query alternatives o []) k
            (normalize-SimpleLang matches o small lib n index query alternatives simple has found e
              f (few simple f) (λ r. few' simple r f))
      go e (throw err) f k = rw (normalize-thrown lib n query alternatives e err f) k
