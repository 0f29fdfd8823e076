-- ===== src/Regex/Query.antt =====
-- RegexUnit and RegexQuery of netspeak/regex/RegexQuery.hpp and RegexQuery.cpp.
pub mod Combinations
pub mod Characters
pub mod Bytes
use netspeak4_application_ng.Prelude.{
  ℕ, zero, suc, ◌+◌, ◌*◌, ◌%◌, Bool, true, false, ◌&&◌, Option, none, some, List, [], ◌∷◌, length,
  Text, u32_mod, u64_mod, uint32_max, uint64_max, ltb, leb, ◌==◌, if◌then◌else◌,
}

-- The values of the tags `QMARK` and `STAR` are the fixed texts "?" and "*", which nothing reads.
pub data RegexUnit : Type 0 where
  qmark : RegexUnit
  star : RegexUnit
  word : Text → RegexUnit
  char_set : Text → RegexUnit
  optional_word : Text → RegexUnit

pub record RegexQuery : Type 0 where
  pub units : List RegexUnit

-- The switch of the loop: `none` is its early return, and other numbers are the new `count`.
unfoldable multiply : ℕ → RegexUnit → Option ℕ
multiply count qmark = none
multiply count star = none
multiply count (optional_word t) = some (count * 2 % u64_mod)
multiply count (char_set t) = some (count * length t % u64_mod)
multiply count (word t) = some count

unfoldable combinations_from : ℕ → List RegexUnit → ℕ
combinations_from count [] = count % u32_mod
combinations_from count (u ∷ us) = elim (multiply count u) [
  | none ↦ uint32_max
  | some count' ↦
      let rest = combinations_from count' us in
      if count' == 0 then 0 else if leb uint32_max count' then uint32_max else rest
]

unfoldable pub combinations_upper_bound : RegexQuery → ℕ
unfolding combinations_from multiply
combinations_upper_bound q = combinations_from 1 q.units

unfoldable pub create_reject_all : RegexQuery
create_reject_all = record { units = char_set [] ∷ [] }

unfoldable pub rejects_all : RegexQuery → Bool
unfolding combinations_upper_bound
rejects_all q = combinations_upper_bound q == 0

unfoldable pub number_of_utf8_bytes : ℕ → ℕ
number_of_utf8_bytes c =
    if leb c 0x7F then 1 else if leb c 0x7FF then 2 else if leb c 0xFFFF then 3 else 4

unfoldable add_bytes : ℕ → Text → ℕ
add_bytes sum [] = sum
add_bytes sum (c ∷ cs) = add_bytes ((sum + number_of_utf8_bytes c) % u64_mod) cs

-- The loop over the characters of a set, which stops at the first character of one byte.
unfoldable fewest_bytes : ℕ → Text → ℕ
fewest_bytes best [] = best
fewest_bytes best (c ∷ cs) =
    let c_min = number_of_utf8_bytes c in
    let rest = fewest_bytes (if ltb c_min best then c_min else best) cs in
    if ltb c_min best && c_min == 1 then c_min else rest

-- The loop that stops at the first character of four bytes.
unfoldable most_bytes : ℕ → Text → ℕ
most_bytes best [] = best
most_bytes best (c ∷ cs) =
    let c_max = number_of_utf8_bytes c in
    let rest = most_bytes (if ltb best c_max then c_max else best) cs in
    if ltb best c_max && c_max == 4 then c_max else rest

unfoldable min_bytes_from : ℕ → List RegexUnit → ℕ
min_bytes_from sum [] = sum
min_bytes_from sum (word t ∷ us) = min_bytes_from (add_bytes sum t) us
min_bytes_from sum (qmark ∷ us) = min_bytes_from ((sum + 1) % u64_mod) us
min_bytes_from sum (char_set [] ∷ us) = uint64_max
min_bytes_from sum (char_set (c ∷ cs) ∷ us) =
    min_bytes_from ((sum + fewest_bytes uint64_max (c ∷ cs)) % u64_mod) us
min_bytes_from sum (star ∷ us) = min_bytes_from sum us
min_bytes_from sum (optional_word t ∷ us) = min_bytes_from sum us

unfoldable pub min_utf8_input_length : RegexQuery → ℕ
unfolding min_bytes_from add_bytes fewest_bytes number_of_utf8_bytes
min_utf8_input_length q = min_bytes_from 0 q.units

unfoldable max_bytes_from : ℕ → List RegexUnit → ℕ
max_bytes_from sum [] = sum
max_bytes_from sum (word t ∷ us) = max_bytes_from (add_bytes sum t) us
max_bytes_from sum (optional_word t ∷ us) = max_bytes_from (add_bytes sum t) us
max_bytes_from sum (qmark ∷ us) = max_bytes_from ((sum + 4) % u64_mod) us
max_bytes_from sum (char_set t ∷ us) = max_bytes_from ((sum + most_bytes 0 t) % u64_mod) us
max_bytes_from sum (star ∷ us) = uint64_max

unfoldable pub max_utf8_input_length : RegexQuery → ℕ
unfolding max_bytes_from add_bytes most_bytes number_of_utf8_bytes
max_utf8_input_length q = max_bytes_from 0 q.units

unfoldable pub is_star_only : List RegexUnit → Bool
is_star_only (star ∷ []) = true
is_star_only _ = false

unfoldable pub accepts_all : RegexQuery → Bool
unfolding is_star_only
accepts_all q = is_star_only q.units

unfoldable pub is_star_and_qmark : List RegexUnit → Bool
is_star_and_qmark (star ∷ qmark ∷ []) = true
is_star_and_qmark (qmark ∷ star ∷ []) = true
is_star_and_qmark _ = false

unfoldable pub accepts_all_non_empty : RegexQuery → Bool
unfolding is_star_and_qmark accepts_all
accepts_all_non_empty q = if accepts_all q then true else is_star_and_qmark q.units
