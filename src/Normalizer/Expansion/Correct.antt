-- ===== src/Normalizer/Expansion/Correct.antt =====
-- The norm queries of a simple query against the simple query itself.
use netspeak4_application_ng.Prelude.{
  ℕ, suc, ◌≤◌, ◌<◌, ◌≡◌, refl, sym, ap, List, [], ◌∷◌, ◌++◌, arith, length, Phrase, Any-append_iff,
  All, inl, inr, u32_mod, uint32_max, Result, ok, throw, Returns, Returns-both, Text,
  invalid_query_error, ◌>>=◌, append-nil, ◌∙◌,
}
use netspeak4_application_ng.Language.{Union, Same}
use netspeak4_application_ng.Model.NormQuery.{NormQuery}
use netspeak4_application_ng.Model.SimpleQuery.{
  SimpleQueryUnit, SimpleLang, HasNoRegex, terminals, min_length,
}
use netspeak4_application_ng.Model.SimpleQuery.Length.{min_length_sound}
use netspeak4_application_ng.Normalizer.StarQuery.{
  Options, StarQueryUnit, StarQuery, word, qmark, star,
}
use netspeak4_application_ng.Normalizer.StarQuery.Lang.{
  StarLang, UnitsLang, QueriesLang, required, required_le, IsCounted,
}
use netspeak4_application_ng.Normalizer.StarConverter.{to_star_queries}
use netspeak4_application_ng.Normalizer.StarConverter.Meaning.{Mean, to_star_queries-Mean}
use netspeak4_application_ng.Normalizer.StarConverter.Width.{Within, to_star_queries-Within}
use netspeak4_application_ng.Normalizer.Expansion.{add_queries, to_norm_queries}
use netspeak4_application_ng.Normalizer.Expansion.Fill.{NormQueryLang_length}
use netspeak4_application_ng.Normalizer.Expansion.Rounds.{
  NormLang, InRange, Covers, Expansion, required-le-length,
}
use netspeak4_application_ng.Normalizer.Expansion.Meaning.{
  LongEnough, Outcome, Fits, without_limit, add_queries-Outcome,
}

-- A phrase as short as the star query allows.
shortest : (us : List StarQueryUnit) → (p : Phrase) × UnitsLang us p × (length p ≡ required us)
unfolding required
shortest [] = ([], refl, refl)
shortest (word t s ∷ us) =
    let (p, h, e) = shortest us in (t ∷ p, (t ∷ [], p, refl, (t, refl, refl), h), ap suc e)
shortest (qmark s ∷ us) =
    let (p, h, e) = shortest us in ([] ∷ p, ([] ∷ [], p, refl, ([], refl, tt), h), ap suc e)
shortest (star s ∷ us) = let (p, h, e) = shortest us in (p, ([], p, refl, tt, h), e)

module _ (matches : Text → Text → Type 0) (o : Options) where
  -- The norm queries have admissible lengths, and match exactly the phrases of admissible length
  -- that the simple query accepts; or there are too many of them: so many does the loop build for the
  -- first star queries, without its limit, and each of them is as it should be.
  abbrev pub Correct : SimpleQueryUnit → Result (List NormQuery) → Type 0
  Correct root (ok r) = All (InRange o) r × Covers o (SimpleLang matches root) r
  Correct root (throw e) =
      (e ≡ invalid_query_error)
      × (taken : List StarQuery) × (left : List StarQuery) × (r : List NormQuery) × (to_star_queries
            o root
          ≡ ok (taken ++ left))
      × (without_limit o [] taken ≡ ok r)
      × All (InRange o) r
      × ((p : Phrase) → NormLang r p → SimpleLang matches root p)
      × (o.max_norm_queries < length r)

  -- What is matched is accepted, whatever is left out.
  abbrev pub Sound : SimpleQueryUnit → Result (List NormQuery) → Type 0
  Sound root (ok r) = All (InRange o) r × ((p : Phrase) → NormLang r p → SimpleLang matches root p)
  Sound root (throw e) = e ≡ invalid_query_error

  NormLang-InRange :
      (r : List NormQuery) (p : Phrase)
      → All (InRange o) r
      → NormLang r p
      → (o.min_length ≤ length p) × (length p ≤ o.max_length)
  NormLang-InRange [] p h x = absurd x
  NormLang-InRange (nq ∷ r) p (h, hs) (inl x) =
      (omega (arith, NormQueryLang_length nq p x), omega (arith, NormQueryLang_length nq p x))
  NormLang-InRange (nq ∷ r) p (h, hs) (inr x) = NormLang-InRange r p hs x

  LongEnough→StarLang :
      (qs : List StarQuery) (p : Phrase) → Union (LongEnough o) qs p → QueriesLang qs p
  LongEnough→StarLang [] p x = x
  LongEnough→StarLang (q ∷ qs) p (inl (_, x)) = inl x
  LongEnough→StarLang (q ∷ qs) p (inr x) = inr (LongEnough→StarLang qs p x)

  -- Where the least length of the simple query is admissible, so is that of each star query.
  StarLang→LongEnough :
      (root : SimpleQueryUnit) (qs : List StarQuery) (p : Phrase)
      → All (Fits o) qs
      → ((p' : Phrase) → length p' ≤ o.max_length → QueriesLang qs p' → SimpleLang matches root p')
      → o.min_length ≤ min_length root
      → length p ≤ o.max_length
      → QueriesLang qs p
      → Union (LongEnough o) qs p
  StarLang→LongEnough root [] p h sound least upper x = x
  StarLang→LongEnough root (q ∷ qs) p ((counted, fits), hs) sound least upper (inl x) =
      let (p', x', e) = shortest q.units in
      let shorter = required_le q.units p x in
      let accepted = sound p' (omega arith) (inl x') in
      let bound = min_length_sound matches root p' accepted in
      inl (omega (arith, required-le-length q.units), x)
  StarLang→LongEnough root (q ∷ qs) p (_, hs) sound least upper (inr x) =
      inr (StarLang→LongEnough root qs p hs (λ p' u y. sound p' u (inr y)) least upper x)

  All-Fits :
      (n : ℕ) (qs : List StarQuery)
      → n < u32_mod
      → All IsCounted qs
      → All (Within n) qs
      → All (Fits o) qs
  All-Fits n [] small h k = tt
  All-Fits n (q ∷ qs) small (h, hs) (k, ks) = ((h, omega arith), All-Fits n qs small hs ks)

  QueriesLang-prefix :
      (qs taken left : List StarQuery) (p : Phrase)
      → qs ≡ taken ++ left
      → QueriesLang taken p
      → QueriesLang qs p
  QueriesLang-prefix qs taken left p e x =
      rw e ((Any-append_iff (λ q. StarLang q p) taken left).1 (inl x))

  module _ (root : SimpleQueryUnit) (qs : List StarQuery)
      (same : Same o.max_length (QueriesLang qs) (SimpleLang matches root)) where
    Expansion-sound :
        (taken left : List StarQuery) (r : List NormQuery)
        → qs ≡ taken ++ left
        → Expansion o (Union (LongEnough o) taken) [] r
        → All (InRange o) r × ((p : Phrase) → NormLang r p → SimpleLang matches root p)
    Expansion-sound taken left r split (new, e, h, covers) = (
      rw e h,
      λ p x.
          (let x' : NormLang new p = rw e at x in
            let (lower, upper) = NormLang-InRange new p h x' in
            (same p upper).0 (
              QueriesLang-prefix qs taken left p split
                (LongEnough→StarLang taken p ((covers p lower upper).0 x')))),
    )

    Outcome-Sound : (m : Result (List NormQuery)) → Outcome o qs [] m → Sound root m
    Outcome-Sound (ok r) (_, x) = Expansion-sound qs [] r (sym (append-nil qs)) x
    Outcome-Sound (throw e) x = x.0

    Outcome-Correct :
        (m : Result (List NormQuery))
        → to_star_queries o root ≡ ok qs
        → All (Fits o) qs
        → o.min_length ≤ min_length root
        → Outcome o qs [] m
        → Correct root m
    Outcome-Correct (ok r) made fits least (_, x) =
        let (h, sound) = Expansion-sound qs [] r (sym (append-nil qs)) x in
        let (new, e, _, covers) = x in
        (
          h,
          λ p lower upper. (
            sound p,
            λ y. rw e (
                (covers p lower upper).1 (
                  StarLang→LongEnough root qs p fits (λ p' u. (same p' u).0) least upper
                    ((same p upper).1 y))),
          ),
        )
    Outcome-Correct (throw e) made fits least (d, taken, left, r, split, f, y, many) =
        let (h, sound) = Expansion-sound taken left r split y in
        (d, taken, left, r, made ∙ ap ok split, f, h, sound, many)

  Returns-then :
      (P : List StarQuery → Type 0) (Q : Result (List NormQuery) → Type 0)
      (m : Result (List StarQuery)) (f : List StarQuery → Result (List NormQuery))
      → Returns P m
      → ((qs : List StarQuery) → m ≡ ok qs → P qs → Q (f qs))
      → Q (m >>= f)
  Returns-then P Q (ok qs) f h k = k qs refl h
  Returns-then P Q (throw e) f h k = absurd h

  star_queries :
      (root : SimpleQueryUnit)
      → HasNoRegex root
      → Returns
          (λ qs. Mean matches o (SimpleLang matches root) qs × All (Within (terminals root)) qs)
          (to_star_queries o root)
  star_queries root g =
      Returns-both (Mean matches o (SimpleLang matches root)) (All (Within (terminals root)))
        (to_star_queries o root) (to_star_queries-Mean matches o root g)
        (to_star_queries-Within o root g)

  -- For a simple query without regular expressions, with fewer than 2^32 terminals and a least
  -- length of at least `min_length`, and a `max_length` below 2^32 - 1, starting from no norm
  -- queries: the norm queries have admissible lengths and match exactly the accepted phrases of
  -- admissible length, or `invalid_query_error` is thrown, and then the norm queries that the loop
  -- builds, without its limit, for the first star queries are more than `max_norm_queries`, have
  -- admissible lengths and match accepted phrases only.
  pub to_norm_queries-Correct :
      (root : SimpleQueryUnit)
      → HasNoRegex root
      → terminals root < u32_mod
      → o.max_length < uint32_max
      → o.min_length ≤ min_length root
      → Correct root (to_norm_queries o [] root)
  unfolding to_norm_queries
  to_norm_queries-Correct root g few small least =
      Returns-then
        (λ qs. Mean matches o (SimpleLang matches root) qs × All (Within (terminals root)) qs)
        (Correct root) (to_star_queries o root) (add_queries o []) (star_queries root g)
        λ qs made ((counted, same), within).
          let fits = All-Fits (terminals root) qs few counted within in
          Outcome-Correct root qs same (add_queries o [] qs) made fits least
            (add_queries-Outcome o qs [] fits small)

  -- For a simple query without regular expressions, with fewer than 2^32 terminals, and a
  -- `max_length` below 2^32 - 1, starting from no norm queries: whatever the least length, the norm
  -- queries have admissible lengths and match accepted phrases only, or `invalid_query_error` is
  -- thrown.
  pub to_norm_queries-Sound :
      (root : SimpleQueryUnit)
      → HasNoRegex root
      → terminals root < u32_mod
      → o.max_length < uint32_max
      → Sound root (to_norm_queries o [] root)
  unfolding to_norm_queries
  to_norm_queries-Sound root g few small =
      Returns-then
        (λ qs. Mean matches o (SimpleLang matches root) qs × All (Within (terminals root)) qs)
        (Sound root) (to_star_queries o root) (add_queries o []) (star_queries root g)
        λ qs made ((counted, same), within).
          Outcome-Sound root qs same (add_queries o [] qs)
            (add_queries-Outcome o qs [] (All-Fits (terminals root) qs few counted within) small)
