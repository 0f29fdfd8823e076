-- ===== src/Normalizer/Expansion/Fill.antt =====
-- The norm queries that arise from one star query when its stars are filled with question marks.
use netspeak4_application_ng.Prelude.{
  ℕ, zero, suc, ◌+◌, ◌≤◌, ◌≡◌, refl, sym, ap, List, [], ◌∷◌, ◌++◌, arith, length, length-append,
  length-replicate, Phrase, subst, replicate, ◌∙◌, append_assoc,
}
use netspeak4_application_ng.Model.NormQuery.{NormQuery, NormQueryUnit, NormQueryLang, Source}
use netspeak4_application_ng.Normalizer.StarQuery.{StarQueryUnit, word, qmark, star}
use netspeak4_application_ng.Normalizer.StarQuery.Lang.{UnitsLang, required}
use netspeak4_application_ng.Normalizer.Expansion.{fill, star_count}
use netspeak4_application_ng.Util.ChainCutter.Segments.{sum}

-- A norm query matches phrases of its own length only.
pub NormQueryLang_length : (nq : NormQuery) (p : Phrase) → NormQueryLang nq p → length p ≡ length nq
NormQueryLang_length [] p h = ap length h
NormQueryLang_length (NormQueryUnit.word t s ∷ nq) p (a, b, e, (w, d, k), h) =
    omega (arith, ap length e, length-append a b, ap length d, NormQueryLang_length nq b h)
NormQueryLang_length (NormQueryUnit.qmark s ∷ nq) p (a, b, e, (w, d, k), h) =
    omega (arith, ap length e, length-append a b, ap length d, NormQueryLang_length nq b h)

qmarks-match :
    (a b : Phrase) (nq : NormQuery) (s : Source)
    → NormQueryLang nq b
    → NormQueryLang (replicate (length a) (NormQueryUnit.qmark s) ++ nq) (a ++ b)
qmarks-match [] b nq s h = h
qmarks-match (w ∷ a) b nq s h = (w ∷ [], a ++ b, refl, (w, refl, tt), qmarks-match a b nq s h)

qmarks-split :
    (c : ℕ) (s : Source) (nq : NormQuery) (p : Phrase)
    → NormQueryLang (replicate c (NormQueryUnit.qmark s) ++ nq) p
    → (a : Phrase) × (b : Phrase) × (p ≡ a ++ b) × NormQueryLang nq b
qmarks-split zero s nq p h = ([], p, refl, h)
qmarks-split (suc c) s nq p (a, b, e, x, h) =
    let (a', b', e', h') = qmarks-split c s nq b h in
    (a ++ a', b', e ∙ ap (λ t. a ++ t) e' ∙ sym (append_assoc a a' b'), h')

-- Whatever the stars are filled with, the star query accepts what the norm query matches.
pub fill-sound :
    (us : List StarQueryUnit) (cs : List ℕ) (p : Phrase)
    → NormQueryLang (fill us cs) p
    → UnitsLang us p
unfolding fill
fill-sound [] cs p h = h
fill-sound (word t s ∷ us) cs p (a, b, e, x, h) = (a, b, e, x, fill-sound us cs b h)
fill-sound (qmark s ∷ us) cs p (a, b, e, x, h) = (a, b, e, x, fill-sound us cs b h)
fill-sound (star s ∷ us) [] p h = ([], p, refl, tt, fill-sound us [] p h)
fill-sound (star s ∷ us) (c ∷ cs) p h =
    let (a, b, e, h') = qmarks-split c s (fill us cs) p h in (a, b, e, tt, fill-sound us cs b h')

-- The lengths that fill the stars for a phrase, with the norm query that then matches it.
pub fill_complete :
    (us : List StarQueryUnit) (p : Phrase)
    → UnitsLang us p
    → (cs : List ℕ) × (length cs ≡ star_count us)
      × (length p ≡ required us + sum cs)
      × NormQueryLang (fill us cs) p
unfolding fill star_count required sum
fill_complete [] p h = ([], refl, omega (arith, ap length h), h)
fill_complete (word t s ∷ us) p (a, b, e, (w, d, k), h) =
    let (cs, n, m, h') = fill_complete us b h in
    (cs, n, omega (arith, ap length e, length-append a b, ap length d), (a, b, e, (w, d, k), h'))
fill_complete (qmark s ∷ us) p (a, b, e, (w, d, k), h) =
    let (cs, n, m, h') = fill_complete us b h in
    (cs, n, omega (arith, ap length e, length-append a b, ap length d), (a, b, e, (w, d, k), h'))
fill_complete (star s ∷ us) p (a, b, e, x, h) =
    let (cs, n, m, h') = fill_complete us b h in
    (
      length a ∷ cs,
      ap suc n,
      omega (arith, ap length e, length-append a b),
      subst (NormQueryLang (fill (star s ∷ us) (length a ∷ cs))) (sym e)
          (qmarks-match a b (fill us cs) s h'),
    )

-- Segments behind the last star do not count.
pub fill-append :
    (us : List StarQueryUnit) (cs ds : List ℕ)
    → length cs ≡ star_count us
    → fill us (cs ++ ds) ≡ fill us cs
unfolding fill star_count
fill-append [] cs ds h = refl
fill-append (word t s ∷ us) cs ds h =
    ap (λ nq. NormQueryUnit.word t s ∷ nq) (fill-append us cs ds h)
fill-append (qmark s ∷ us) cs ds h = ap (λ nq. NormQueryUnit.qmark s ∷ nq) (fill-append us cs ds h)
fill-append (star s ∷ us) [] ds h = absurd (omega arith)
fill-append (star s ∷ us) (c ∷ cs) ds h =
    ap (λ nq. replicate c (NormQueryUnit.qmark s) ++ nq) (fill-append us cs ds (omega arith))

-- The length of a norm query whose stars have been filled.
pub length-fill :
    (us : List StarQueryUnit) (cs : List ℕ) → length (fill us cs) ≤ required us + sum cs
unfolding fill required sum
length-fill [] cs = omega arith
length-fill (word t s ∷ us) cs = omega (arith, length-fill us cs)
length-fill (qmark s ∷ us) cs = omega (arith, length-fill us cs)
length-fill (star s ∷ us) [] = length-fill us []
length-fill (star s ∷ us) (c ∷ cs) = omega (
  arith,
  length-fill us cs,
  length-append (replicate c (NormQueryUnit.qmark s)) (fill us cs),
  length-replicate c (NormQueryUnit.qmark s),
)
