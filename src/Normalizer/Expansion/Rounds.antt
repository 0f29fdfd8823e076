-- ===== src/Normalizer/Expansion/Rounds.antt =====
-- What the norm queries of one star query with stars match: the rounds of its loop together.
use netspeak4_application_ng.Prelude.{
  ℕ, ◌+◌, ◌-◌, ◌%◌, ◌≤◌, ◌<◌, ◌≡◌, ap, List, [], ◌∷◌, ◌++◌, map, arith, length, Phrase, Any, All,
  subst, ◌∙◌, ◌↔◌, ◌⊎◌, inl, inr, leb, true, false, Bool, Bool-cases, if◌then◌else◌, u32_mod,
  uint32_max, leb→le, le→leb,
}
use netspeak4_application_ng.Language.{Lang, Union}
use netspeak4_application_ng.Model.NormQuery.{NormQuery, NormQueryLang}
use netspeak4_application_ng.Normalizer.StarQuery.{
  Options, StarQueryUnit, StarQuery, word, qmark, star,
}
use netspeak4_application_ng.Normalizer.StarQuery.Lang.{StarLang, UnitsLang, required}
use netspeak4_application_ng.Normalizer.Expansion.{
  fill, fill_all, star_count, add_with_stars, available,
}
use netspeak4_application_ng.Normalizer.Expansion.Fill.{
  NormQueryLang_length, fill-sound, fill_complete, fill-append, length-fill,
}
use netspeak4_application_ng.Util.ChainCutter.Enumerate.{all_cuts, all_cuts_complete, IsArrangement}
use netspeak4_application_ng.Util.ChainCutter.Segments.{
  sum, segments_of, sum-segments_of, arrange, arrange-IsArrangement, segments-arrange,
  all_cuts-IsArrangement, all_segments_lem,
}

pub required-le-length : (us : List StarQueryUnit) → required us ≤ length us
unfolding required
required-le-length [] = omega arith
required-le-length (word t s ∷ us) = omega (arith, required-le-length us)
required-le-length (qmark s ∷ us) = omega (arith, required-le-length us)
required-le-length (star s ∷ us) = omega (arith, required-le-length us)

abbrev pub NormLang : List NormQuery → Lang
NormLang = Union NormQueryLang

pick-cases :
    (b : Bool) (nq : NormQuery) (rest : List NormQuery) (p : Phrase)
    → NormLang (if b then nq ∷ rest else rest) p
    → NormQueryLang nq p ⊎ NormLang rest p
pick-cases true nq rest p h = h
pick-cases false nq rest p h = inr h

module _ (o : Options) where
  abbrev pub InRange : NormQuery → Type 0
  InRange nq = (o.min_length ≤ length nq) × (length nq ≤ o.max_length)

  fill_all-InRange :
      (us : List StarQueryUnit) (n k : ℕ) (cuts : List (List ℕ))
      → required us + n ≤ o.max_length
      → All (IsArrangement n k) cuts
      → All InRange (fill_all o us (map (segments_of 0) cuts))
  unfolding fill_all
  fill_all-InRange us n k [] h a = tt
  fill_all-InRange us n k (s ∷ cuts) h (a, more) =
      elim (Bool-cases (leb o.min_length (length (fill us (segments_of 0 s))))) [
        | inl e ↦ rw e (
          (
            leb→le _ _ e,
            omega (arith, length-fill us (segments_of 0 s), sum-segments_of n k 0 s a),
          ),
          fill_all-InRange us n k cuts h more,
        )
        | inr e ↦ rw e (fill_all-InRange us n k cuts h more)
      ]

  fill_all-sound :
      (us : List StarQueryUnit) (rounds : List (List ℕ)) (p : Phrase)
      → NormLang (fill_all o us rounds) p
      → UnitsLang us p
  unfolding fill_all
  fill_all-sound us [] p h = absurd h
  fill_all-sound us (cs ∷ rounds) p h =
      elim (pick-cases (leb o.min_length (length (fill us cs))) (fill us cs) (fill_all o us rounds)
        p h) [ inl x ↦ fill-sound us cs p x | inr y ↦ fill_all-sound us rounds p y ]

  fill_all-complete :
      (us : List StarQueryUnit) (cs : List ℕ) (rounds : List (List ℕ)) (p : Phrase)
      → Any (λ r. r ≡ cs) rounds
      → o.min_length ≤ length (fill us cs)
      → NormQueryLang (fill us cs) p
      → NormLang (fill_all o us rounds) p
  unfolding fill_all
  fill_all-complete us cs [] p h m x = absurd h
  fill_all-complete us cs (r ∷ rounds) p (inl h) m x = rw h (rw (le→leb _ _ m) (inl x))
  fill_all-complete us cs (r ∷ rounds) p (inr h) m x =
      elim (Bool-cases (leb o.min_length (length (fill us r)))) [
        | inl e ↦ rw e (inr (fill_all-complete us cs rounds p h m x))
        | inr e ↦ rw e (fill_all-complete us cs rounds p h m x)
      ]

  abbrev pub Covers : Lang → List NormQuery → Type 0
  Covers L new =
      (p : Phrase) → o.min_length ≤ length p → length p ≤ o.max_length → NormLang new p ↔ L p

  -- The list grows by norm queries of admissible length, which match the phrases of admissible
  -- length that `L` holds.
  abbrev pub Expansion : Lang → List NormQuery → List NormQuery → Type 0
  Expansion L acc r = (new : List NormQuery) × (r ≡ acc ++ new) × All InRange new × Covers L new

  Any-map :
      (cs s : List ℕ) (l : List (List ℕ))
      → segments_of 0 s ≡ cs
      → Any (λ r. r ≡ s) l
      → Any (λ r. r ≡ cs) (map (segments_of 0) l)
  Any-map cs s [] e h = absurd h
  Any-map cs s (r ∷ l) e (inl h) = inl (ap (segments_of 0) h ∙ e)
  Any-map cs s (r ∷ l) e (inr h) = inr (Any-map cs s l e h)

  -- Every phrase within the bound is matched by some round of the loop.
  rounds-complete :
      (us : List StarQueryUnit) (n : ℕ) (p : Phrase)
      → required us + n ≡ o.max_length
      → o.min_length ≤ length p
      → length p ≤ o.max_length
      → UnitsLang us p
      → NormLang (fill_all o us (map (segments_of 0) (all_cuts n (star_count us)))) p
  rounds-complete us n p total lower upper x =
      let (cs, count, len, h) = fill_complete us p x in
      let rest = n - sum cs in
      let same : fill us (cs ++ rest ∷ []) ≡ fill us cs = fill-append us cs (rest ∷ []) count in
      fill_all-complete us (cs ++ rest ∷ []) (map (segments_of 0) (all_cuts n (star_count us))) p
        (Any-map (cs ++ rest ∷ []) (arrange cs rest) (all_cuts n (star_count us))
          (segments-arrange cs rest)
          (all_cuts_complete n (star_count us) (arrange cs rest) (
            subst (λ k. IsArrangement n k (arrange cs rest)) count
              (subst (λ m. IsArrangement m (length cs) (arrange cs rest)) (omega arith)
                (arrange-IsArrangement cs rest)))))
        (rw same (omega (arith, NormQueryLang_length (fill us cs) p h))) (rw same h)

  -- For a star query that counts the units it requires and requires at most `max_length` of them,
  -- with `max_length` below 2^32 - 1: the loop appends norm queries of admissible lengths, which
  -- match exactly the phrases of admissible length that the star query accepts.
  pub add_with_stars-Expansion :
      (acc : List NormQuery) (q : StarQuery)
      → q.min_length ≡ required q.units
      → required q.units ≤ o.max_length
      → o.max_length < uint32_max
      → Expansion (StarLang q) acc (add_with_stars o acc q)
  unfolding add_with_stars available
  add_with_stars-Expansion acc q counted fits small =
      let us = q.units in
      let n = (o.max_length + u32_mod - q.min_length) % u32_mod in
      let k = star_count us in
      let total : required us + n ≡ o.max_length = omega arith in
      (
        fill_all o us (map (segments_of 0) (all_cuts n k)),
        ap (λ (rounds : List (List ℕ)). acc ++ fill_all o us rounds) (all_segments_lem k n),
        fill_all-InRange us n k (all_cuts n k) (omega arith) (all_cuts-IsArrangement n k),
        λ p lower upper. (
          fill_all-sound us (map (segments_of 0) (all_cuts n k)) p,
          rounds-complete us n p total lower upper,
        ),
      )
