-- ===== src/Normalizer/Expansion.antt =====
-- `SimpleQueryNormalizer` of netspeak/QueryNormalizer.cpp: from star queries to norm queries, with
-- the question marks that stand for the stars.
pub mod Fill
pub mod Rounds
pub mod Simple
pub mod Meaning
pub mod Correct
pub mod Dropped
pub mod Limit
use netspeak4_application_ng.Prelude.{
  ℕ, zero, suc, ◌+◌, ◌-◌, ◌^◌, ◌%◌, Bool, true, false, ◌&&◌, List, [], ◌∷◌, ◌++◌, if◌then◌else◌,
  length, ltb, leb, ◌==◌, u32_mod, Result, ok, throw, ◌>>=◌, tracable_logic_error,
  invalid_query_error, replicate,
}
use netspeak4_application_ng.Model.NormQuery.{NormQuery, NormQueryUnit}
use netspeak4_application_ng.Model.SimpleQuery.{SimpleQueryUnit}
use netspeak4_application_ng.Util.ChainCutter.{chain_cutter, all_segments}
use netspeak4_application_ng.Normalizer.StarQuery.{
  Options, StarQueryUnit, StarQuery, word, qmark, star, max_length,
}
use netspeak4_application_ng.Normalizer.StarConverter.{to_star_queries}

-- The loop of `add_simple`.
pub simple_units : List StarQueryUnit → Result NormQuery
simple_units [] = ok []
simple_units (word t s ∷ us) = do nq ← simple_units us; ok (NormQueryUnit.word t s ∷ nq)
simple_units (qmark s ∷ us) = do nq ← simple_units us; ok (NormQueryUnit.qmark s ∷ nq)
simple_units (star s ∷ us) = throw tracable_logic_error

pub add_simple : List NormQuery → StarQuery → Result (List NormQuery)
unfolding simple_units
add_simple norm_queries q = do nq ← simple_units q.units; ok (norm_queries ++ nq ∷ [])

pub star_count : List StarQueryUnit → ℕ
star_count [] = 0
star_count (star _ ∷ us) = suc (star_count us)
star_count (word _ _ ∷ us) = star_count us
star_count (qmark _ ∷ us) = star_count us

-- The body of the loop in `add_with_stars`: the segments from `star_i` on are the second argument.
-- A chain cutter has one segment more than there are stars, so they do not run out.
pub fill : List StarQueryUnit → List ℕ → NormQuery
fill [] cs = []
fill (word t s ∷ us) cs = NormQueryUnit.word t s ∷ fill us cs
fill (qmark s ∷ us) cs = NormQueryUnit.qmark s ∷ fill us cs
fill (star s ∷ us) [] = fill us []
fill (star s ∷ us) (c ∷ cs) = replicate c (NormQueryUnit.qmark s) ++ fill us cs

-- Its last test, and the `push_back` behind it, in each round.
fill_all : Options → List StarQueryUnit → List (List ℕ) → List NormQuery
fill_all o us [] = []
fill_all o us (cs ∷ rounds) =
    let nq = fill us cs in
    let rest = fill_all o us rounds in if leb o.min_length (length nq) then nq ∷ rest else rest

-- The difference of the `uint32_t` lengths.
pub available : Options → StarQuery → ℕ
available o q = (o.max_length + u32_mod - q.min_length) % u32_mod

-- The loop has fuel for all arrangements of the stars and the question marks.
pub add_with_stars : Options → List NormQuery → StarQuery → List NormQuery
unfolding star_count fill fill_all available
add_with_stars o norm_queries q =
    let stars = star_count q.units in
    let space = available o q in
    norm_queries
    ++ fill_all o q.units (all_segments (2 ^ (space + stars)) (chain_cutter stars space))

-- What the loop of `to_norm_queries` adds for one star query.
pub add_query : Options → List NormQuery → StarQuery → Result (List NormQuery)
unfolding max_length
add_query o norm_queries q =
    if leb q.min_length o.max_length && leb o.min_length q.min_length
    then (if q.min_length == max_length q
        then add_simple norm_queries q
        else ok (add_with_stars o norm_queries q))
    else ok norm_queries

pub add_queries : Options → List NormQuery → List StarQuery → Result (List NormQuery)
add_queries o norm_queries [] = ok norm_queries
add_queries o norm_queries (q ∷ star_queries) = do
  norm_queries' ← add_query o norm_queries q
  if ltb o.max_norm_queries (length norm_queries')
      then throw invalid_query_error
      else add_queries o norm_queries' star_queries

unfoldable pub to_norm_queries :
    Options → List NormQuery → SimpleQueryUnit → Result (List NormQuery)
unfolding add_queries to_star_queries
to_norm_queries o norm_queries query = do
  star_queries ← to_star_queries o query
  add_queries o norm_queries star_queries
