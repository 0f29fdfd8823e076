-- ===== src/Normalizer/StarConverter.antt =====
-- `StarQueryConverter` of netspeak/QueryNormalizer.cpp: the star queries of a simple query.
pub mod Combine
pub mod Meaning
pub mod Width
use netspeak4_application_ng.Prelude.{
  ◌+◌, ◌%◌, List, [], ◌∷◌, ◌++◌, map, if◌then◌else◌, ltb, leb, u32_mod, Result, ok, throw, ◌>>=◌,
  tracable_logic_error,
}
use netspeak4_application_ng.Model.SimpleQuery.{
  SimpleQueryUnit, Children, word, qmark, star, regex, concat, alternation, nil, cons,
}
use netspeak4_application_ng.Normalizer.StarQuery.{
  Options, StarQueryUnit, StarQuery, push_back, append, empty_query,
}

-- The two loops over `copy` and `alt`: pairs that are too long are discarded.
product_with : Options → StarQuery → List StarQuery → List StarQuery
product_with o before [] = []
product_with o before (after ∷ alt) =
    let rest = product_with o before alt in
    if ltb o.max_length ((before.min_length + after.min_length) % u32_mod)
    then rest
    else append (append empty_query before) after ∷ rest

product : Options → List StarQuery → List StarQuery → List StarQuery
product o [] alt = []
product o (before ∷ copy) alt = product_with o before alt ++ product o copy alt

-- What `concat` does with the star queries of a nested alternation.
pub combine : Options → List StarQuery → List StarQuery → List StarQuery
unfolding append product product_with
combine o queries [] = []
combine o queries (alt_q ∷ []) = map (λ q. append q alt_q) queries
combine o queries (q ∷ r ∷ alt) = product o queries (q ∷ r ∷ alt)

-- The star queries of a concatenation that are short enough.
unfoldable pub keep_short : Options → List StarQuery → List StarQuery
keep_short o [] = []
keep_short o (q ∷ con) =
    let rest = keep_short o con in if leb q.min_length o.max_length then q ∷ rest else rest

-- `StarQueryConverter::concat` and `alternation`, each with its loop over the children. Where the
-- code hands a unit that is an alternation (a concatenation) on to the other function, the model
-- runs that function's loop over the unit's children at once.
unfoldable mutual
  pub concat_unit : Options → List StarQuery → SimpleQueryUnit → Result (List StarQuery)
  concat_unit o queries (word t s) = ok (map (push_back (StarQueryUnit.word t s)) queries)
  concat_unit o queries (qmark s) = ok (map (push_back (StarQueryUnit.qmark s)) queries)
  concat_unit o queries (star s) = ok (map (push_back (StarQueryUnit.star s)) queries)
  concat_unit o queries (regex t s) = throw tracable_logic_error
  concat_unit o queries (alternation s us) = do
    alt ← alternation_children o [] us
    ok (combine o queries alt)
  concat_unit o queries (concat s us) = concat_children o queries us

  pub concat_children : Options → List StarQuery → Children → Result (List StarQuery)
  concat_children o queries nil = ok queries
  concat_children o queries (cons u us) = do
    queries' ← concat_unit o queries u
    concat_children o queries' us

  pub alternation_unit : Options → List StarQuery → SimpleQueryUnit → Result (List StarQuery)
  alternation_unit o queries (word t s) =
      ok (queries ++ push_back (StarQueryUnit.word t s) empty_query ∷ [])
  alternation_unit o queries (qmark s) =
      ok (queries ++ push_back (StarQueryUnit.qmark s) empty_query ∷ [])
  alternation_unit o queries (star s) =
      ok (queries ++ push_back (StarQueryUnit.star s) empty_query ∷ [])
  alternation_unit o queries (regex t s) = throw tracable_logic_error
  alternation_unit o queries (alternation s us) = alternation_children o queries us
  alternation_unit o queries (concat s us) = do
    con ← concat_children o (empty_query ∷ []) us
    ok (queries ++ keep_short o con)

  pub alternation_children : Options → List StarQuery → Children → Result (List StarQuery)
  alternation_children o queries nil = ok queries
  alternation_children o queries (cons u us) = do
    queries' ← alternation_unit o queries u
    alternation_children o queries' us

unfoldable pub to_star_queries : Options → SimpleQueryUnit → Result (List StarQuery)
unfolding alternation_unit
to_star_queries o root = alternation_unit o [] root
