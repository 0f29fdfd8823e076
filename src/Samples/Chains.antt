-- ===== src/Samples/Chains.antt =====
-- The theorems on the utilities and on the search, at samples.
use Prim.Native.Nat.{Ordering}
use netspeak4_application_ng.Prelude.{
  zero, suc, throw, undefined_behaviour, text_eq, Text, ok, ◌>>=◌, ℕ, ◌≡◌, ◌≢◌, refl, List, [], ◌∷◌,
  map, arith, length, All, Any, ◌+◌, ◌*◌, ◌^◌, true, ltb, if◌then◌else◌, Bool-cases, inl, inr,
  lt→ltb,
}
use netspeak4_application_ng.Util.Math.{factorial}
use netspeak4_application_ng.Util.Permutation.{next_permutation, next?}
use netspeak4_application_ng.Util.ChainCutter.{chain_cutter, all_segments, size}
use netspeak4_application_ng.Util.ChainCutter.Enumerate.{all_cuts}
use netspeak4_application_ng.Util.ChainCutter.Segments.{segments_of, sum, all_segments_lem}
use netspeak4_application_ng.Util.ChainCutter.Complete.{all_segments_complete}
use netspeak4_application_ng.Util.PropertiesFormat.{write_properties, read_properties}
use netspeak4_application_ng.Util.PropertiesFormat.RoundTrip.{write_properties-read_properties}
use netspeak4_application_ng.Util.PropertiesFormat.Progress.{IsDecided, read_properties-IsDecided}
use netspeak4_application_ng.Util.Vec.{element_at, vec_sorted_filter_dups}
use netspeak4_application_ng.Util.Vec.Distinct.{IsDistinct, vec_sorted_filter_dups-distinct}
use netspeak4_application_ng.Normalizer.Counter.{safe_mult}
use netspeak4_application_ng.Normalizer.Counter.Overflow.{safe_mult_missed}
use netspeak4_application_ng.Normalizer.Regexes.{binary_search}
use netspeak4_application_ng.Normalizer.Regexes.Search.{IsMonotone, Best, binary_search-Best}

all_segments_lem_example :
    all_segments (2 ^ (4 + 2)) (chain_cutter 2 4) ≡ map (segments_of 0) (all_cuts 4 2)
all_segments_lem_example = all_segments_lem 2 4

all_segments_complete_example :
    All (λ cs. (length cs ≡ 3) × (sum cs ≡ 4)) (all_segments (2 ^ (4 + 2)) (chain_cutter 2 4))
    × ((cs : List ℕ)
        → length cs ≡ 3
        → sum cs ≡ 4
        → Any (λ r. r ≡ cs) (all_segments (2 ^ (4 + 2)) (chain_cutter 2 4)))
all_segments_complete_example = all_segments_complete 2 4

abbrev up_to_five : ℕ → Ordering
up_to_five m = if ltb 5 m then Ordering.gt else Ordering.lt

lt_is_not-gt : Ordering.lt ≢ Ordering.gt
lt_is_not-gt e = cc

monotone : IsMonotone up_to_five
monotone m n h e = elim (Bool-cases (ltb 5 m)) [
  | inl more ↦ rw (lt→ltb 5 n (ground arith)) refl
  | inr less ↦ absurd (lt_is_not-gt (rw less at e))
]

binary_search-Best_example : Best 0 10 up_to_five (binary_search 0 10 up_to_five)
binary_search-Best_example = binary_search-Best 0 10 up_to_five monotone (omega arith) lt_is_not-gt

safe_mult_missed_example : safe_mult (4294967296 + 1) (4294967296 + 1) ≡ 8589934592 * 1 + 1 * 1
safe_mult_missed_example = safe_mult_missed 1 (omega arith) (omega arith)

-- Tests.
size_test : size (chain_cutter 2 4) ≡ 15
unfolding size chain_cutter
size_test = refl

factorial_test : factorial 6 ≡ 720
unfolding factorial
factorial_test = refl

next_permutation_test : next_permutation (0 ∷ 1 ∷ 1 ∷ []) ≡ (1 ∷ 0 ∷ 1 ∷ [], true)
unfolding next_permutation next?
next_permutation_test = refl

abbrev entries : List (Text × Text)
entries = (61 ∷ 9 ∷ [], 32 ∷ 92 ∷ 102 ∷ []) ∷ ([], []) ∷ []

write_properties-read_properties_example :
    (write_properties entries >>= read_properties) ≡ ok entries
write_properties-read_properties_example = write_properties-read_properties entries (
  ((omega arith, (omega arith, tt)), (omega arith, (omega arith, (omega arith, tt)))),
  ((tt, tt), tt),
)

-- `a:\u004` is cut off.
read_properties-IsDecided_example :
    IsDecided (read_properties (97 ∷ 58 ∷ 92 ∷ 117 ∷ 48 ∷ 48 ∷ 52 ∷ []))
read_properties-IsDecided_example =
    read_properties-IsDecided (97 ∷ 58 ∷ 92 ∷ 117 ∷ 48 ∷ 48 ∷ 52 ∷ [])

abbrev two_words : List Text
two_words = (97 ∷ []) ∷ (98 ∷ []) ∷ []

distinct : IsDistinct two_words
unfolding element_at text_eq
distinct zero h = refl
distinct (suc i) h = absurd (omega arith)

vec_sorted_filter_dups-distinct_example :
    vec_sorted_filter_dups two_words ≡ throw undefined_behaviour
vec_sorted_filter_dups-distinct_example =
    vec_sorted_filter_dups-distinct two_words distinct (omega arith)
