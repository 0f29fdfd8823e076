-- ===== src/Normalizer/Expansion/Meaning.antt =====
-- What the norm queries of a simple query match.
use netspeak4_application_ng.Prelude.{
  ℕ, zero, suc, ◌≤◌, ◌<◌, ◌≡◌, refl, sym, ap, List, [], ◌∷◌, ◌++◌, arith, length, Phrase,
  Any-append_iff, All, All-append, ◌∙◌, inl, inr, leb, ltb, ◌==◌, true, false, Bool-cases,
  if◌then◌else◌, u32_mod, uint32_max, Result, ok, throw, Returns, Returns-weaken, ==_iff,
  append_assoc, append-nil, invalid_query_error, leb→le, ltb→lt, ◌>>=◌,
}
use netspeak4_application_ng.Language.{Lang, Union, ◌⊕◌}
use netspeak4_application_ng.Model.NormQuery.{NormQuery, NormQueryLang}
use netspeak4_application_ng.Normalizer.StarQuery.{Options, StarQuery, max_length_from}
use netspeak4_application_ng.Normalizer.StarQuery.Lang.{StarLang, required, required_le, IsCounted}
use netspeak4_application_ng.Normalizer.Expansion.{
  fill, star_count, add_simple, add_with_stars, add_query, add_queries,
}
use netspeak4_application_ng.Normalizer.Expansion.Fill.{fill-sound, fill_complete}
use netspeak4_application_ng.Normalizer.Expansion.Rounds.{
  InRange, Expansion, add_with_stars-Expansion, required-le-length,
}
use netspeak4_application_ng.Normalizer.Expansion.Simple.{
  max_length-no_star, max_length-star, simple_units-no_star, length-fill_exact, no_segments,
}

module _ (o : Options) where
  -- The star queries that are expanded at all.
  abbrev pub LongEnough : StarQuery → Lang
  LongEnough q p = (o.min_length ≤ q.min_length) × StarLang q p

  add_simple-Expansion :
      (acc : List NormQuery) (q : StarQuery)
      → star_count q.units ≡ 0
      → o.min_length ≤ required q.units
      → required q.units ≤ o.max_length
      → Returns (Expansion o (StarLang q) acc) (add_simple acc q)
  unfolding add_simple
  add_simple-Expansion acc q none lower upper =
      let us = q.units in
      rw (simple_units-no_star us none) (
        fill us [] ∷ [],
        refl,
        ((omega (arith, length-fill_exact us none), omega (arith, length-fill_exact us none)), tt),
        λ p _ _. (
          elim [ inl x ↦ fill-sound us [] p x | inr z ↦ absurd z ],
          λ x.
              (let (cs, count, _, h) = fill_complete us p x in
                inl (rw (no_segments us cs (count ∙ none)) at h)),
        ),
      )

  no-Expansion :
      (acc : List NormQuery) (L : Lang)
      → ((p : Phrase) → o.min_length ≤ length p → length p ≤ o.max_length → ¬ L p)
      → Expansion o L acc acc
  no-Expansion acc L none = (
    [],
    sym (append-nil acc),
    tt,
    λ p lower upper. (λ z. absurd z, λ x. absurd (none p lower upper x)),
  )

  Expansion-LongEnough :
      (acc : List NormQuery) (q : StarQuery) (r : List NormQuery)
      → o.min_length ≤ q.min_length
      → Expansion o (StarLang q) acc r
      → Expansion o (LongEnough q) acc r
  Expansion-LongEnough acc q r least (new, e, h, covers) = (
    new,
    e,
    h,
    λ p lower upper.
        (λ x. (least, (covers p lower upper).0 x), λ (_, x). (covers p lower upper).1 x),
  )

  -- The choice between the two ways to expand, by whether the star query holds a star.
  choose-Expansion :
      (acc : List NormQuery) (q : StarQuery)
      → q.min_length ≡ required q.units
      → o.min_length ≤ required q.units
      → required q.units ≤ o.max_length
      → o.max_length < uint32_max
      → (stars : ℕ) → star_count q.units ≡ stars
      → Returns (Expansion o (StarLang q) acc) (
          if q.min_length == max_length_from 0 q.units
          then add_simple acc q
          else ok (add_with_stars o acc q))
  choose-Expansion acc q Exact lower upper small zero count =
      let same : (q.min_length == max_length_from 0 q.units) ≡ true =
        (==_iff q.min_length (max_length_from 0 q.units)).1
          (omega (arith, max_length-no_star 0 q.units count (omega arith))) in
      rw same (add_simple-Expansion acc q count lower upper)
  choose-Expansion acc q Exact lower upper small (suc k) count =
      let other : (q.min_length == max_length_from 0 q.units) ≡ false =
        (let m : max_length_from 0 q.units ≡ uint32_max = max_length-star 0 q.units (omega arith) in
          ground arith) in
      rw other (add_with_stars-Expansion o acc q Exact upper small)

  -- Whatever branch is taken, the phrases of admissible length that are now matched are those that
  -- the star query accepts, provided that its least length is admissible.
  add_query-Expansion :
      (acc : List NormQuery) (q : StarQuery)
      → IsCounted q
      → length q.units < u32_mod
      → o.max_length < uint32_max
      → Returns (Expansion o (LongEnough q) acc) (add_query o acc q)
  unfolding add_query
  add_query-Expansion acc q counted fits small =
      let Exact : q.min_length ≡ required q.units = omega (arith, required-le-length q.units) in
      elim (Bool-cases (leb q.min_length o.max_length)) [
        | inr long ↦ rw long (
            no-Expansion acc (LongEnough q)
              λ p lower upper (_, x). (let least = required_le q.units p x in ground arith))
        | inl short ↦ rw short (elim (Bool-cases (leb o.min_length q.min_length)) [
          | inr few ↦
              rw few (no-Expansion acc (LongEnough q) λ p lower upper (least, x). (ground arith))
          | inl enough ↦ rw enough (
              Returns-weaken (Expansion o (StarLang q) acc) (Expansion o (LongEnough q) acc)
                (if q.min_length == max_length_from 0 q.units
                  then add_simple acc q
                  else ok (add_with_stars o acc q))
                (λ r. Expansion-LongEnough acc q r (leb→le _ _ enough))
                (choose-Expansion acc q Exact (rw Exact at (leb→le _ _ enough))
                  (rw Exact at (leb→le _ _ short)) small (star_count q.units) refl))
        ])
      ]

  -- The list of norm queries behind the star queries, if there were no limit on its length.
  abbrev pub without_limit : List NormQuery → List StarQuery → Result (List NormQuery)
  without_limit acc [] = ok acc
  without_limit acc (q ∷ qs) = do acc' ← add_query o acc q; without_limit acc' qs

  -- Either the norm queries, or the error, and then the list that was built when it was thrown.
  abbrev pub Outcome : List StarQuery → List NormQuery → Result (List NormQuery) → Type 0
  Outcome qs acc (ok r) = (without_limit acc qs ≡ ok r) × Expansion o (Union LongEnough qs) acc r
  Outcome qs acc (throw e) =
      (e ≡ invalid_query_error)
      × (taken : List StarQuery) × (left : List StarQuery) × (r : List NormQuery) × (qs
          ≡ taken ++ left)
      × (without_limit acc taken ≡ ok r)
      × Expansion o (Union LongEnough taken) acc r
      × (o.max_norm_queries < length r)

  abbrev pub Fits : StarQuery → Type 0
  Fits q = IsCounted q × (length q.units < u32_mod)

  Expansion-trans :
      (L K : Lang) (acc r r' : List NormQuery)
      → Expansion o L acc r
      → Expansion o K r r'
      → Expansion o (L ⊕ K) acc r'
  Expansion-trans L K acc r r' (new, e, h, covers) (new', e', h', covers') = (
    new ++ new',
    e' ∙ ap (λ l. l ++ new') e ∙ append_assoc acc new new',
    All-append (InRange o) new new' h h',
    λ p lower upper. (
      λ x. elim ((Any-append_iff (λ nq. NormQueryLang nq p) new new').0 x) [
        | inl y ↦ inl ((covers p lower upper).0 y)
        | inr z ↦ inr ((covers' p lower upper).0 z)
      ],
      elim [
        | inl y ↦
            (Any-append_iff (λ nq. NormQueryLang nq p) new new').1
              (inl ((covers p lower upper).1 y))
        | inr z ↦
            (Any-append_iff (λ nq. NormQueryLang nq p) new new').1
              (inr ((covers' p lower upper).1 z))
      ],
    ),
  )

  Expansion-single :
      (L : Lang) (acc r : List NormQuery) → Expansion o L acc r → Expansion o (L ⊕ (λ _. ⊥)) acc r
  Expansion-single L acc r (new, e, h, covers) = (
    new,
    e,
    h,
    λ p lower upper. (
      λ x. inl ((covers p lower upper).0 x),
      elim [ inl y ↦ (covers p lower upper).1 y | inr z ↦ absurd z ],
    ),
  )

  without_limit-cons :
      (q : StarQuery) (qs : List StarQuery) (acc r : List NormQuery) (m : Result (List NormQuery))
      → add_query o acc q ≡ ok r
      → without_limit r qs ≡ m
      → without_limit acc (q ∷ qs) ≡ m
  without_limit-cons q qs acc r m e f = ap (λ x. x >>= λ acc'. without_limit acc' qs) e ∙ f

  Outcome-cons :
      (q : StarQuery) (qs : List StarQuery) (acc r : List NormQuery) (m : Result (List NormQuery))
      → add_query o acc q ≡ ok r
      → Expansion o (LongEnough q) acc r
      → Outcome qs r m
      → Outcome (q ∷ qs) acc m
  Outcome-cons q qs acc r (ok r') e x (f, y) = (
    without_limit-cons q qs acc r (ok r') e f,
    Expansion-trans (LongEnough q) (Union LongEnough qs) acc r r' x y,
  )
  Outcome-cons q qs acc r (throw err) e x (d, taken, left, r', split, f, y, many) = (
    d,
    q ∷ taken,
    left,
    r',
    ap (λ l. q ∷ l) split,
    without_limit-cons q taken acc r (ok r') e f,
    Expansion-trans (LongEnough q) (Union LongEnough taken) acc r r' x y,
    many,
  )

  -- The test behind each star query.
  Outcome-step :
      (q : StarQuery) (qs : List StarQuery) (acc : List NormQuery) (m : Result (List NormQuery))
      → add_query o acc q ≡ m
      → Returns (Expansion o (LongEnough q) acc) m
      → ((r : List NormQuery) → Outcome qs r (add_queries o r qs))
      → Outcome (q ∷ qs) acc (
          m >>= λ r.
          if ltb o.max_norm_queries (length r)
          then throw invalid_query_error
          else add_queries o r qs)
  Outcome-step q qs acc (throw err) e x rest = absurd x
  Outcome-step q qs acc (ok r) e x rest = elim (Bool-cases (ltb o.max_norm_queries (length r))) [
    | inl many ↦ rw many (
      refl,
      q ∷ [],
      qs,
      r,
      refl,
      without_limit-cons q [] acc r (ok r) e refl,
      Expansion-single (LongEnough q) acc r x,
      ltb→lt _ _ many,
    )
    | inr few ↦ rw few (Outcome-cons q qs acc r (add_queries o r qs) e x (rest r))
  ]

  -- For star queries that count the units they require and have fewer than 2^32 units, and a
  -- `max_length` below 2^32 - 1: either the norm queries that are appended have admissible lengths
  -- and match exactly the phrases of admissible length of those star queries whose least length is
  -- at least `min_length`, or `invalid_query_error` is thrown, and then those appended for the star
  -- queries up to some point are as said and make the list longer than `max_norm_queries`. In both
  -- cases the list is the one that the rounds of the loop build for these star queries without the
  -- limit.
  pub add_queries-Outcome :
      (qs : List StarQuery) (acc : List NormQuery)
      → All Fits qs
      → o.max_length < uint32_max
      → Outcome qs acc (add_queries o acc qs)
  unfolding add_queries
  add_queries-Outcome [] acc h small =
      (refl, no-Expansion acc (Union LongEnough []) (λ p lower upper z. z))
  add_queries-Outcome (q ∷ qs) acc ((counted, fits), hs) small =
      Outcome-step q qs acc (add_query o acc q) refl (add_query-Expansion acc q counted fits small)
        (λ r. add_queries-Outcome qs r hs small)
