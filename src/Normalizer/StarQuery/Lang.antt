-- ===== src/Normalizer/StarQuery/Lang.antt =====
-- What star queries accept, and the language of the queries that their operations build.
use netspeak4_application_ng.Prelude.{
  ℕ, suc, ◌+◌, ◌%◌, ◌≤◌, ◌≡◌, refl, ap, List, [], ◌∷◌, ◌++◌, map, arith, length, length-append,
  Phrase, u32_mod, All,
}
use netspeak4_application_ng.Language.{
  Lang, ε, ◌⊙◌, OneWord, AnyPhrase, Union, Same, Same-refl, Same-sym, Same-trans, ⊙_cong, ⊕_cong,
  ⊙_assoc, ε_⊙, ⊙_ε, ⊙_distrib, none_⊙,
}
use netspeak4_application_ng.Normalizer.StarQuery.{
  StarQueryUnit, StarQuery, word, qmark, star, push_back, append, empty_query,
}

abbrev pub StarUnitLang : StarQueryUnit → Lang
StarUnitLang (word t _) = OneWord (λ w. w ≡ t)
StarUnitLang (qmark _) = OneWord (λ _. Unit)
StarUnitLang (star _) = AnyPhrase

abbrev pub UnitsLang : List StarQueryUnit → Lang
UnitsLang [] = ε
UnitsLang (u ∷ us) = StarUnitLang u ⊙ UnitsLang us

abbrev pub StarLang : StarQuery → Lang
StarLang q = UnitsLang q.units

-- The number of units that are no stars, which `min_length` counts modulo 2^32.
unfoldable pub required : List StarQueryUnit → ℕ
required [] = 0
required (star _ ∷ us) = required us
required (word _ _ ∷ us) = suc (required us)
required (qmark _ ∷ us) = suc (required us)

abbrev pub IsCounted : StarQuery → Type 0
IsCounted q = q.min_length ≡ required q.units % u32_mod

pub required-append : (us vs : List StarQueryUnit) → required (us ++ vs) ≡ required us + required vs
unfolding required
required-append [] vs = omega arith
required-append (star _ ∷ us) vs = required-append us vs
required-append (word _ _ ∷ us) vs = omega (arith, required-append us vs)
required-append (qmark _ ∷ us) vs = omega (arith, required-append us vs)

OneWord_length : {P : List ℕ → Type 0} (a : Phrase) → OneWord P a → length a ≡ 1
OneWord_length a (w, e, h) = ap length e

-- A star query accepts no phrase that is shorter than its required units.
pub required_le : (us : List StarQueryUnit) (p : Phrase) → UnitsLang us p → required us ≤ length p
unfolding required
required_le [] p h = omega arith
required_le (star _ ∷ us) p (a, b, e, x, y) =
    omega (arith, required_le us b y, ap length e, length-append a b)
required_le (word _ _ ∷ us) p (a, b, e, x, y) =
    omega (arith, required_le us b y, ap length e, length-append a b, OneWord_length a x)
required_le (qmark _ ∷ us) p (a, b, e, x, y) =
    omega (arith, required_le us b y, ap length e, length-append a b, OneWord_length a x)

pub UnitsLang-append :
    {n : ℕ} (us vs : List StarQueryUnit)
    → Same n (UnitsLang (us ++ vs)) (UnitsLang us ⊙ UnitsLang vs)
UnitsLang-append [] vs = Same-sym (ε_⊙ (UnitsLang vs))
UnitsLang-append (u ∷ us) vs =
    Same-trans (⊙_cong (Same-refl (StarUnitLang u)) (UnitsLang-append us vs))
      (Same-sym (⊙_assoc (StarUnitLang u) (UnitsLang us) (UnitsLang vs)))

pub empty_query-IsCounted : IsCounted empty_query
unfolding required
empty_query-IsCounted = refl

pub push_back-IsCounted :
    (u : StarQueryUnit) (q : StarQuery) → IsCounted q → IsCounted (push_back u q)
unfolding push_back required
push_back-IsCounted (word t s) q h = omega (arith, required-append q.units (word t s ∷ []))
push_back-IsCounted (qmark s) q h = omega (arith, required-append q.units (qmark s ∷ []))
push_back-IsCounted (star s) q h = omega (arith, required-append q.units (star s ∷ []))

pub append-IsCounted : (q r : StarQuery) → IsCounted q → IsCounted r → IsCounted (append q r)
unfolding append
append-IsCounted q r h k = omega (arith, required-append q.units r.units)

pub map-push_back-IsCounted :
    (u : StarQueryUnit) (qs : List StarQuery)
    → All IsCounted qs
    → All IsCounted (map (push_back u) qs)
map-push_back-IsCounted u [] h = tt
map-push_back-IsCounted u (q ∷ qs) (h, hs) =
    (push_back-IsCounted u q h, map-push_back-IsCounted u qs hs)

pub map-append-IsCounted :
    (r : StarQuery) (qs : List StarQuery)
    → IsCounted r
    → All IsCounted qs
    → All IsCounted (map (λ q. append q r) qs)
map-append-IsCounted r [] k h = tt
map-append-IsCounted r (q ∷ qs) k (h, hs) =
    (append-IsCounted q r h k, map-append-IsCounted r qs k hs)

-- The languages of lists of star queries.
abbrev pub QueriesLang : List StarQuery → Lang
QueriesLang = Union StarLang

module _ {n : ℕ} where
  push_back-Lang :
      (u : StarQueryUnit) (q : StarQuery)
      → Same n (StarLang (push_back u q)) (StarLang q ⊙ StarUnitLang u)
  unfolding push_back
  push_back-Lang u q =
      Same-trans (UnitsLang-append q.units (u ∷ []))
        (⊙_cong (Same-refl (StarLang q)) (⊙_ε (StarUnitLang u)))

  pub append-Lang : (q r : StarQuery) → Same n (StarLang (append q r)) (StarLang q ⊙ StarLang r)
  unfolding append
  append-Lang q r = UnitsLang-append q.units r.units

  pub append_empty-Lang :
      (q r : StarQuery)
      → Same n (StarLang (append (append empty_query q) r)) (StarLang q ⊙ StarLang r)
  unfolding append
  append_empty-Lang q r = UnitsLang-append q.units r.units

  pub map-push_back-Lang :
      (u : StarQueryUnit) (qs : List StarQuery)
      → Same n (QueriesLang (map (push_back u) qs)) (QueriesLang qs ⊙ StarUnitLang u)
  map-push_back-Lang u [] = Same-sym (none_⊙ (StarUnitLang u))
  map-push_back-Lang u (q ∷ qs) =
      Same-trans (⊕_cong (push_back-Lang u q) (map-push_back-Lang u qs))
        (Same-sym (⊙_distrib (StarLang q) (QueriesLang qs) (StarUnitLang u)))

  pub map-append-Lang :
      (r : StarQuery) (qs : List StarQuery)
      → Same n (QueriesLang (map (λ q. append q r) qs)) (QueriesLang qs ⊙ StarLang r)
  map-append-Lang r [] = Same-sym (none_⊙ (StarLang r))
  map-append-Lang r (q ∷ qs) =
      Same-trans (⊕_cong (append-Lang q r) (map-append-Lang r qs))
        (Same-sym (⊙_distrib (StarLang q) (QueriesLang qs) (StarLang r)))
