-- ===== src/Normalizer/StarConverter/Meaning.antt =====
-- The star queries of a simple query accept what the simple query accepts, within the bound on the
-- length.
use netspeak4_application_ng.Prelude.{
  List, [], ◌∷◌, ◌++◌, All, All-append, ok, Returns, Returns-bind, Returns-weaken, Text,
}
use netspeak4_application_ng.Language.{
  Lang, ε, ◌⊙◌, ◌⊕◌, Same, Same-refl, Same-sym, Same-trans, ⊙_cong, ⊕_cong, ⊕_assoc, ⊙_assoc, ε_⊙,
  ⊙_ε, ⊕_none, none_⊕, Union-append,
}
use netspeak4_application_ng.Model.SimpleQuery.{
  SimpleQueryUnit, Children, word, qmark, star, regex, concat, alternation, nil, cons, SimpleLang,
  ConcatLang, AlternationLang, HasNoRegex, HaveNoRegex,
}
use netspeak4_application_ng.Normalizer.StarQuery.{
  Options, StarQueryUnit, StarQuery, push_back, empty_query,
}
use netspeak4_application_ng.Normalizer.StarQuery.Lang.{
  StarLang, QueriesLang, IsCounted, map-push_back-IsCounted, map-push_back-Lang,
  push_back-IsCounted, empty_query-IsCounted, StarUnitLang,
}
use netspeak4_application_ng.Normalizer.StarConverter.{
  combine, keep_short, concat_unit, concat_children, alternation_unit, alternation_children,
  to_star_queries,
}
use netspeak4_application_ng.Normalizer.StarConverter.Combine.{
  combine-IsCounted, combine-Lang, keep_short-IsCounted, keep_short-Lang,
}

module _ (matches : Text → Text → Type 0) (o : Options) where
  -- The queries are counted, and accept what `L` does within the bound.
  abbrev pub Mean : Lang → List StarQuery → Type 0
  Mean L qs = All IsCounted qs × Same o.max_length (QueriesLang qs) L

  abbrev Appends : Lang → List StarQuery → List StarQuery → Type 0
  Appends K qs = Mean (QueriesLang qs ⊙ K)

  abbrev Adds : Lang → List StarQuery → List StarQuery → Type 0
  Adds K qs = Mean (QueriesLang qs ⊕ K)

  single-Adds :
      (qs : List StarQuery) (u : StarQueryUnit)
      → All IsCounted qs
      → Adds (StarUnitLang u) qs (qs ++ push_back u empty_query ∷ [])
  unfolding push_back
  single-Adds qs u h = (
    All-append IsCounted qs (push_back u empty_query ∷ []) h
        (push_back-IsCounted u empty_query empty_query-IsCounted, tt),
    Same-trans (Union-append StarLang qs (push_back u empty_query ∷ [])) (
        ⊕_cong (Same-refl (QueriesLang qs))
          (Same-trans (⊕_none (StarUnitLang u ⊙ ε)) (⊙_ε (StarUnitLang u)))),
  )

  mutual
    unfolding concat_unit

    concat_unit-Appends :
        (u : SimpleQueryUnit) (qs : List StarQuery)
        → HasNoRegex u
        → All IsCounted qs
        → Returns (Appends (SimpleLang matches u) qs) (concat_unit o qs u)
    concat_unit-Appends (word t s) qs g h = (
      map-push_back-IsCounted (StarQueryUnit.word t s) qs h,
      map-push_back-Lang (StarQueryUnit.word t s) qs,
    )
    concat_unit-Appends (qmark s) qs g h = (
      map-push_back-IsCounted (StarQueryUnit.qmark s) qs h,
      map-push_back-Lang (StarQueryUnit.qmark s) qs,
    )
    concat_unit-Appends (star s) qs g h = (
      map-push_back-IsCounted (StarQueryUnit.star s) qs h,
      map-push_back-Lang (StarQueryUnit.star s) qs,
    )
    concat_unit-Appends (regex t s) qs g h = absurd g
    concat_unit-Appends (alternation s us) qs g h =
        Returns-bind (Adds (AlternationLang matches us) [])
          (Appends (AlternationLang matches us) qs) (alternation_children o [] us)
          (λ alt. ok (combine o qs alt)) (alternation_children-Adds us [] g tt)
          λ alt (k, e). (
            combine-IsCounted o qs alt h k,
            Same-trans (combine-Lang o qs alt h k) (
                ⊙_cong (Same-refl (QueriesLang qs))
                  (Same-trans e (none_⊕ (AlternationLang matches us)))),
          )
    concat_unit-Appends (concat s us) qs g h = concat_children-Appends us qs g h

    concat_children-Appends :
        (us : Children) (qs : List StarQuery)
        → HaveNoRegex us
        → All IsCounted qs
        → Returns (Appends (ConcatLang matches us) qs) (concat_children o qs us)
    concat_children-Appends nil qs g h = (h, Same-sym (⊙_ε (QueriesLang qs)))
    concat_children-Appends (cons u us) qs (g, gs) h =
        Returns-bind (Appends (SimpleLang matches u) qs)
          (Appends (ConcatLang matches (cons u us)) qs) (concat_unit o qs u)
          (λ rs. concat_children o rs us) (concat_unit-Appends u qs g h)
          λ rs (k, e).
            Returns-weaken (Appends (ConcatLang matches us) rs)
              (Appends (ConcatLang matches (cons u us)) qs) (concat_children o rs us)
              (λ ss (l, f). (
                l,
                Same-trans f (
                    Same-trans (⊙_cong e (Same-refl (ConcatLang matches us)))
                      (⊙_assoc (QueriesLang qs) (SimpleLang matches u) (ConcatLang matches us))),
              ))
              (concat_children-Appends us rs gs k)

    alternation_unit-Adds :
        (u : SimpleQueryUnit) (qs : List StarQuery)
        → HasNoRegex u
        → All IsCounted qs
        → Returns (Adds (SimpleLang matches u) qs) (alternation_unit o qs u)
    alternation_unit-Adds (word t s) qs g h = single-Adds qs (StarQueryUnit.word t s) h
    alternation_unit-Adds (qmark s) qs g h = single-Adds qs (StarQueryUnit.qmark s) h
    alternation_unit-Adds (star s) qs g h = single-Adds qs (StarQueryUnit.star s) h
    alternation_unit-Adds (regex t s) qs g h = absurd g
    alternation_unit-Adds (alternation s us) qs g h = alternation_children-Adds us qs g h
    alternation_unit-Adds (concat s us) qs g h =
        Returns-bind (Appends (ConcatLang matches us) (empty_query ∷ []))
          (Adds (ConcatLang matches us) qs) (concat_children o (empty_query ∷ []) us)
          (λ con. ok (qs ++ keep_short o con))
          (concat_children-Appends us (empty_query ∷ []) g (empty_query-IsCounted, tt))
          λ con (k, e). (
            All-append IsCounted qs (keep_short o con) h (keep_short-IsCounted o con k),
            Same-trans (Union-append StarLang qs (keep_short o con)) (
                ⊕_cong (Same-refl (QueriesLang qs)) (
                  Same-trans (keep_short-Lang o con k) (
                    Same-trans e (
                      Same-trans (⊙_cong (⊕_none ε) (Same-refl (ConcatLang matches us)))
                        (ε_⊙ (ConcatLang matches us)))))),
          )

    alternation_children-Adds :
        (us : Children) (qs : List StarQuery)
        → HaveNoRegex us
        → All IsCounted qs
        → Returns (Adds (AlternationLang matches us) qs) (alternation_children o qs us)
    alternation_children-Adds nil qs g h = (h, Same-sym (⊕_none (QueriesLang qs)))
    alternation_children-Adds (cons u us) qs (g, gs) h =
        Returns-bind (Adds (SimpleLang matches u) qs)
          (Adds (AlternationLang matches (cons u us)) qs) (alternation_unit o qs u)
          (λ rs. alternation_children o rs us) (alternation_unit-Adds u qs g h)
          λ rs (k, e).
            Returns-weaken (Adds (AlternationLang matches us) rs)
              (Adds (AlternationLang matches (cons u us)) qs) (alternation_children o rs us)
              (λ ss (l, f). (
                l,
                Same-trans f (
                    Same-trans (⊕_cong e (Same-refl (AlternationLang matches us))) (
                      ⊕_assoc (QueriesLang qs) (SimpleLang matches u)
                        (AlternationLang matches us))),
              ))
              (alternation_children-Adds us rs gs k)

  -- Converting a simple query without regular expressions returns, the star queries are counted,
  -- and they accept the phrases of at most `max_length` words that the simple query accepts.
  pub to_star_queries-Mean :
      (root : SimpleQueryUnit)
      → HasNoRegex root
      → Returns (Mean (SimpleLang matches root)) (to_star_queries o root)
  unfolding to_star_queries
  to_star_queries-Mean root g =
      Returns-weaken (Adds (SimpleLang matches root) []) (Mean (SimpleLang matches root))
        (alternation_unit o [] root)
        (λ qs (h, e). (h, Same-trans e (none_⊕ (SimpleLang matches root))))
        (alternation_unit-Adds root [] g tt)
