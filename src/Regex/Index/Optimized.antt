-- ===== src/Regex/Index/Optimized.antt =====
-- What DefaultRegexIndex::optimize_query keeps.
use netspeak4_application_ng.Prelude.{
  ℕ, ◌≡◌, refl, sym, subst, ◌∙◌, ◌↔◌, inl, inr, true, false, List, [], ◌∷◌, ◌++◌, arith, Text, All,
  Bool-cases,
}
use netspeak4_application_ng.Regex.Query.{
  RegexUnit, qmark, star, word, char_set, optional_word, RegexQuery,
}
use netspeak4_application_ng.Regex.Lang.{
  OneOf, UnitLang, UnitsLang, RegexLang, UnitsLang-append, UnitsLang-single,
}
use netspeak4_application_ng.Regex.Builder.Meaning.{add_all-Equal}
use netspeak4_application_ng.Regex.Index.{DefaultRegexIndex}
use netspeak4_application_ng.Regex.Index.Matching.{
  is_known, contains_unknown_characters, known_only, known_unit, known_units, optimize_query,
}

-- Every character of the word is known.
abbrev pub IsKnown : List ℕ → Text → Type 0
IsKnown known = All (λ c. is_known known c ≡ true)

IsKnown-parts :
    (known : List ℕ) (s t : Text) → IsKnown known (s ++ t) → IsKnown known s × IsKnown known t
IsKnown-parts known [] t h = (tt, h)
IsKnown-parts known (c ∷ s) t (k, h) = let (a, b) = IsKnown-parts known s t h in ((k, a), b)

-- An unknown character is found in a word that is not known.
unknown_word :
    (known : List ℕ) (t : Text) → IsKnown known t → contains_unknown_characters t known ≡ false
unfolding contains_unknown_characters
unknown_word known [] h = refl
unknown_word known (c ∷ t) (k, h) = rw (k, unknown_word known t h) refl

OneOf-known_only :
    (known : List ℕ) (cs : Text) (c : ℕ)
    → is_known known c ≡ true
    → OneOf (known_only known cs) c ↔ OneOf cs c
unfolding known_only
OneOf-known_only known [] c k = (λ h. h, λ h. h)
OneOf-known_only known (d ∷ cs) c k =
    let (to, back) = OneOf-known_only known cs c k in
    elim (Bool-cases (is_known known d)) [
      | inl e ↦ rw e (
        elim [ inl x ↦ inl x | inr x ↦ inr (to x) ],
        elim [ inl x ↦ inl x | inr x ↦ inr (back x) ],
      )
      | inr e ↦ rw e (λ x. inr (to x), elim [ inl x ↦ absurd (other e x) | inr x ↦ back x ])
    ]
  where
    other : is_known known d ≡ false → c ≡ d → ⊥
    other e x = ground arith

-- A word with an unknown character is no known word.
unknown_differs :
    (known : List ℕ) (t w : Text)
    → IsKnown known w
    → contains_unknown_characters t known ≡ true
    → w ≡ t
    → ⊥
unknown_differs known t w h e q =
    absurd_bool (sym e ∙ unknown_word known t (subst (IsKnown known) q h))
  where
    absurd_bool : true ≡ false → ⊥
    absurd_bool r = cc

known_set-Lang :
    (known : List ℕ) (cs : Text) (w : Text)
    → IsKnown known w
    → UnitLang (char_set (known_only known cs)) w ↔ UnitLang (char_set cs) w
known_set-Lang known cs w h = (
  λ (c, e, o). (c, e, (OneOf-known_only known cs c (single c e)).0 o),
  λ (c, e, o). (c, e, (OneOf-known_only known cs c (single c e)).1 o),
)
  where
    single : (c : ℕ) → w ≡ c ∷ [] → is_known known c ≡ true
    single c e = (subst (IsKnown known) e h).0

-- Of the known words, a unit's known part accepts the same.
known_unit-Lang :
    (known : List ℕ) (u : RegexUnit) (w : Text)
    → IsKnown known w
    → UnitsLang (known_unit known u) w ↔ UnitLang u w
unfolding known_unit
known_unit-Lang known (word t) w h = elim (Bool-cases (contains_unknown_characters t known)) [
  | inl e ↦
      rw e (λ (a, b, q, (c, r, z), y). absurd z, λ q. absurd (unknown_differs known t w h e q))
  | inr e ↦ rw e (UnitsLang-single (word t) w)
]
known_unit-Lang known (optional_word t) w h =
    elim (Bool-cases (contains_unknown_characters t known)) [
      | inl e ↦ rw e (inl, elim [ inl q ↦ q | inr q ↦ absurd (unknown_differs known t w h e q) ])
      | inr e ↦ rw e (UnitsLang-single (optional_word t) w)
    ]
known_unit-Lang known (char_set cs) w h = elim (Bool-cases (contains_unknown_characters cs known)) [
  | inl e ↦
      let (to, back) = UnitsLang-single (char_set (known_only known cs)) w in
      let (to', back') = known_set-Lang known cs w h in rw e (λ x. to' (to x), λ x. back (back' x))
  | inr e ↦ rw e (UnitsLang-single (char_set cs) w)
]
known_unit-Lang known qmark w h = UnitsLang-single qmark w
known_unit-Lang known star w h = UnitsLang-single star w

known_units-Lang :
    (known : List ℕ) (us : List RegexUnit) (w : Text)
    → IsKnown known w
    → UnitsLang (known_units known us) w ↔ UnitsLang us w
unfolding known_units
known_units-Lang known [] w h = (λ e. e, λ e. e)
known_units-Lang known (u ∷ us) w h =
    let (to, back) = UnitsLang-append (known_unit known u) (known_units known us) w in
    (
      λ x.
          let (a, b, q, y, z) = to x in
          let (k, l) = IsKnown-parts known a b (subst (IsKnown known) q h) in
          (a, b, q, (known_unit-Lang known u a k).0 y, (known_units-Lang known us b l).0 z),
      λ (a, b, q, y, z).
          let (k, l) = IsKnown-parts known a b (subst (IsKnown known) q h) in
          back (a, b, q, (known_unit-Lang known u a k).1 y, (known_units-Lang known us b l).1 z),
    )

-- Of the words whose characters are all in the set of characters of the index, the optimized query
-- accepts the same as the query.
pub optimize_query-Lang :
    (t : DefaultRegexIndex) (q : RegexQuery) (w : Text)
    → IsKnown t.all_chars w
    → RegexLang (optimize_query t q) w ↔ RegexLang q w
unfolding optimize_query
optimize_query-Lang t q w h =
    let (to, back) = add_all-Equal (known_units t.all_chars q.units) w in
    let (to', back') = known_units-Lang t.all_chars q.units w h in
    (λ x. to' (to x), λ x. back (back' x))
