-- ===== src/Normalizer/Expansion/Limit.antt =====
-- The limit on the number of norm queries.
use netspeak4_application_ng.Prelude.{
  ◌≤◌, List, [], ◌∷◌, arith, length, ltb, Bool-cases, inl, inr, Result, ok, throw, ◌>>=◌,
  invalid_query_error, if◌then◌else◌,
}
use netspeak4_application_ng.Model.NormQuery.{NormQuery}
use netspeak4_application_ng.Model.SimpleQuery.{SimpleQueryUnit}
use netspeak4_application_ng.Normalizer.StarQuery.{Options, StarQuery}
use netspeak4_application_ng.Normalizer.StarConverter.{to_star_queries}
use netspeak4_application_ng.Normalizer.Expansion.{add_query, add_queries, to_norm_queries}

module _ (o : Options) where
  -- A call that returns has not exceeded the limit.
  abbrev pub IsLimited : Result (List NormQuery) → Type 0
  IsLimited (ok r) = length r ≤ o.max_norm_queries
  IsLimited (throw e) = Unit

  checked :
      (qs : List StarQuery) (m : Result (List NormQuery))
      → ((acc : List NormQuery)
          → length acc ≤ o.max_norm_queries
          → IsLimited (add_queries o acc qs))
      → IsLimited (
          m >>= λ acc.
          if ltb o.max_norm_queries (length acc)
          then throw invalid_query_error
          else add_queries o acc qs)
  checked qs (throw e) h = tt
  checked qs (ok acc) h = elim (Bool-cases (ltb o.max_norm_queries (length acc))) [
    | inl many ↦ rw many tt
    | inr few ↦ rw few (h acc (ground arith))
  ]

  add_queries-IsLimited :
      (qs : List StarQuery) (acc : List NormQuery)
      → length acc ≤ o.max_norm_queries
      → IsLimited (add_queries o acc qs)
  unfolding add_queries
  add_queries-IsLimited [] acc h = h
  add_queries-IsLimited (q ∷ qs) acc h = checked qs (add_query o acc q) (add_queries-IsLimited qs)

  from_star_queries :
      (m : Result (List StarQuery)) (acc : List NormQuery)
      → length acc ≤ o.max_norm_queries
      → IsLimited (m >>= add_queries o acc)
  from_star_queries (ok qs) acc h = add_queries-IsLimited qs acc h
  from_star_queries (throw e) acc h = tt

  -- If `to_norm_queries` returns for a list within the limit, whatever the query, the list is within
  -- the limit of `max_norm_queries` afterwards.
  pub to_norm_queries-IsLimited :
      (acc : List NormQuery) (root : SimpleQueryUnit)
      → length acc ≤ o.max_norm_queries
      → IsLimited (to_norm_queries o acc root)
  unfolding to_norm_queries
  to_norm_queries-IsLimited acc root h = from_star_queries (to_star_queries o root) acc h
