-- ===== src/Regex/Builder.antt =====
-- RegexQueryBuilder and its helpers, netspeak/regex/RegexQuery.cpp.
mod Duplicates
pub mod Join
pub mod Meaning
pub mod Normal
pub mod Rejects
use netspeak4_application_ng.Prelude.{
  ℕ, zero, suc, Bool, true, false, List, [], ◌∷◌, ◌++◌, reverse, length, replicate, Text, leb, ◌==◌,
  if◌then◌else◌,
}
use netspeak4_application_ng.Regex.Query.{
  RegexUnit, qmark, star, word, char_set, optional_word, RegexQuery, create_reject_all,
}

-- The vector of units is kept with its last element first, since all work is done at its end.
pub record RegexQueryBuilder : Type 0 where
  pub units : List RegexUnit
  pub reject_all : Bool

unfoldable pub empty_builder : RegexQueryBuilder
empty_builder = record { units = []; reject_all = false }

-- The first loop: the units that are left, and the number of question marks removed.
unfoldable pop_trailing : ℕ → List RegexUnit → List RegexUnit × ℕ
pop_trailing qmarks [] = ([], qmarks)
pop_trailing qmarks (qmark ∷ us) = pop_trailing (suc qmarks) us
pop_trailing qmarks (optional_word t ∷ us) = pop_trailing qmarks us
pop_trailing qmarks (star ∷ us) = (star ∷ us, qmarks)
pop_trailing qmarks (word t ∷ us) = (word t ∷ us, qmarks)
pop_trailing qmarks (char_set t ∷ us) = (char_set t ∷ us, qmarks)

unfoldable push_qmarks : List RegexUnit × ℕ → List RegexUnit
push_qmarks (us, qmarks) = replicate qmarks qmark ++ us

unfoldable remove_trailing_optional_words : List RegexUnit → List RegexUnit
unfolding pop_trailing push_qmarks
remove_trailing_optional_words us = push_qmarks (pop_trailing 0 us)

-- `std::sort` in ascending order.
unfoldable pub insert_sorted : ℕ → Text → Text
insert_sorted c [] = c ∷ []
insert_sorted c (d ∷ ds) = if leb c d then c ∷ d ∷ ds else d ∷ insert_sorted c ds

unfoldable pub sort : Text → Text
unfolding insert_sorted
sort [] = []
sort (c ∷ cs) = insert_sorted c (sort cs)

-- The loop over the sorted characters behind `last`.
unfoldable skip_repeated : ℕ → Text → Text
skip_repeated last [] = []
skip_repeated last (c ∷ cs) = if c == last then skip_repeated last cs else c ∷ skip_repeated c cs

unfoldable first_of_each : Text → Text
unfolding skip_repeated
first_of_each [] = []
first_of_each (c ∷ cs) = c ∷ skip_repeated c cs

unfoldable without_duplicates : Text → Text
unfolding sort first_of_each
without_duplicates [] = []
without_duplicates (c ∷ []) = c ∷ []
without_duplicates (c ∷ d ∷ cs) = first_of_each (sort (c ∷ d ∷ cs))

unfoldable optimize_unit : RegexUnit → RegexUnit
unfolding without_duplicates
optimize_unit (char_set t) =
    let set = without_duplicates t in if length set == 1 then word set else char_set set
optimize_unit u = u

-- The switch: what becomes of `prev`, the last unit, and the new unit behind the others.
unfoldable join : RegexUnit → List RegexUnit → RegexUnit → List RegexUnit
unfolding remove_trailing_optional_words
join (word s) us (word t) = word (s ++ t) ∷ us
join star us qmark = star ∷ qmark ∷ us
join star us star = star ∷ us
join (optional_word s) us star = star ∷ remove_trailing_optional_words (optional_word s ∷ us)
join qmark us star = star ∷ remove_trailing_optional_words (qmark ∷ us)
join star us (optional_word t) = star ∷ us
join prev us u = u ∷ prev ∷ us

unfoldable add_to_units : List RegexUnit → RegexUnit → List RegexUnit
unfolding join
add_to_units [] u = u ∷ []
add_to_units (prev ∷ us) u = join prev us u

unfoldable add_optimized : RegexQueryBuilder → RegexUnit → RegexQueryBuilder
unfolding add_to_units
add_optimized b (word []) = b
add_optimized b (optional_word []) = b
add_optimized b (char_set []) = record b { reject_all = true }
add_optimized b u = record b { units = add_to_units b.units u }

unfoldable pub add : RegexQueryBuilder → RegexUnit → RegexQueryBuilder
unfolding add_optimized optimize_unit
add b u = if b.reject_all then b else add_optimized b (optimize_unit u)

unfoldable pub to_query : RegexQueryBuilder → RegexQuery
unfolding create_reject_all
to_query b = if b.reject_all then create_reject_all else record { units = reverse b.units }

-- The builder after units are added one after the other.
unfoldable pub add_all : RegexQueryBuilder → List RegexUnit → RegexQueryBuilder
unfolding add
add_all b [] = b
add_all b (u ∷ us) = add_all (add b u) us
