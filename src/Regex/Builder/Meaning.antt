-- ===== src/Regex/Builder/Meaning.antt =====
-- The words that a builder's query accepts are kept by every rule of RegexQueryBuilder::add.
use netspeak4_application_ng.Prelude.{inl, inr, List, [], ◌∷◌, Bool, true, false}
use netspeak4_application_ng.Regex.Query.{RegexUnit, qmark, star, word, char_set, optional_word}
use netspeak4_application_ng.Regex.Lang.{
  TextLang, ◌⊙◌, Equal, UnitLang, UnitsLang, RegexLang, BackLang, Equal-refl, Equal-sym,
  Equal-trans, ⊙_cong, ⊙_assoc, ε_⊙, ⊙_ε, none_⊙, ⊙_none, UnitsLang-reverse,
}
use netspeak4_application_ng.Regex.Builder.{
  RegexQueryBuilder, empty_builder, without_duplicates, optimize_unit, add_optimized, add, to_query,
  add_all,
}
use netspeak4_application_ng.Regex.Builder.Duplicates.{OneOf-without_duplicates}
use netspeak4_application_ng.Regex.Builder.Join.{add_to_units-Equal, as_word}

-- Rule 4: a set of one character is that character.
optimize_unit-Equal : (u : RegexUnit) → Equal (UnitLang (optimize_unit u)) (UnitLang u)
unfolding optimize_unit
optimize_unit-Equal (char_set cs) = Equal-trans (as_word (without_duplicates cs)) λ w. (
  λ (c, e, o). (c, e, (OneOf-without_duplicates c cs).0 o),
  λ (c, e, o). (c, e, (OneOf-without_duplicates c cs).1 o),
)
optimize_unit-Equal qmark = Equal-refl _
optimize_unit-Equal star = Equal-refl _
optimize_unit-Equal (word t) = Equal-refl _
optimize_unit-Equal (optional_word t) = Equal-refl _

-- What the query of a builder accepts.
abbrev BuilderLang : RegexQueryBuilder → TextLang
BuilderLang b w = elim b.reject_all [ true ↦ ⊥ | false ↦ BackLang b.units w ]

abbrev Open : List RegexUnit → RegexQueryBuilder
Open us = record { units = us; reject_all = false }

abbrev Closed : List RegexUnit → RegexQueryBuilder
Closed us = record { units = us; reject_all = true }

add_optimized-Equal :
    (us : List RegexUnit) (u : RegexUnit)
    → Equal (BuilderLang (add_optimized (Open us) u)) (BackLang us ⊙ UnitLang u)
unfolding add_optimized
add_optimized-Equal us (word []) = Equal-sym (⊙_ε (BackLang us))
add_optimized-Equal us (optional_word []) =
    Equal-trans (Equal-sym (⊙_ε (BackLang us)))
      (⊙_cong (Equal-refl (BackLang us)) λ w. (inl, elim [ inl e ↦ e | inr e ↦ e ]))
add_optimized-Equal us (char_set []) =
    Equal-trans (Equal-sym (⊙_none (BackLang us)))
      (⊙_cong (Equal-refl (BackLang us)) λ w. (λ z. absurd z, λ (c, e, z). z))
add_optimized-Equal us u = add_to_units-Equal us u

add-BuilderLang :
    (us : List RegexUnit) (r : Bool) (u : RegexUnit)
    → Equal
        (BuilderLang (add (record { units = us; reject_all = r }) u))
        (BuilderLang (record { units = us; reject_all = r }) ⊙ UnitLang u)
unfolding add
add-BuilderLang us true u = Equal-sym (none_⊙ (UnitLang u))
add-BuilderLang us false u =
    Equal-trans (add_optimized-Equal us (optimize_unit u))
      (⊙_cong (Equal-refl (BackLang us)) (optimize_unit-Equal u))

add-Equal :
    (b : RegexQueryBuilder) (u : RegexUnit)
    → Equal (BuilderLang (add b u)) (BuilderLang b ⊙ UnitLang u)
add-Equal b u = add-BuilderLang b.units b.reject_all u

add_all-BuilderLang :
    (b : RegexQueryBuilder) (us : List RegexUnit)
    → Equal (BuilderLang (add_all b us)) (BuilderLang b ⊙ UnitsLang us)
unfolding add_all
add_all-BuilderLang b [] = Equal-sym (⊙_ε (BuilderLang b))
add_all-BuilderLang b (u ∷ us) = Equal-trans (add_all-BuilderLang (add b u) us) (
    Equal-trans (⊙_cong (add-Equal b u) (Equal-refl (UnitsLang us)))
      (⊙_assoc (BuilderLang b) (UnitLang u) (UnitsLang us)))

to_query-BuilderLang :
    (us : List RegexUnit) (r : Bool)
    → Equal
        (RegexLang (to_query (record { units = us; reject_all = r })))
        (BuilderLang (record { units = us; reject_all = r }))
unfolding to_query
to_query-BuilderLang us true = λ w. (λ (a, b, q, (c, e, z), f). z, λ z. absurd z)
to_query-BuilderLang us false = UnitsLang-reverse us

-- The query that a builder gives after any units were added accepts exactly the words that the
-- units accept one after the other.
pub add_all-Equal :
    (us : List RegexUnit) → Equal (RegexLang (to_query (add_all empty_builder us))) (UnitsLang us)
unfolding empty_builder
add_all-Equal us =
    let b = add_all empty_builder us in
    Equal-trans (to_query-BuilderLang b.units b.reject_all)
      (Equal-trans (add_all-BuilderLang empty_builder us) (ε_⊙ (UnitsLang us)))

-- The same for a builder that holds units already: adding a unit appends it.
pub add-RegexLang :
    (b : RegexQueryBuilder) (u : RegexUnit)
    → Equal (RegexLang (to_query (add b u))) (RegexLang (to_query b) ⊙ UnitLang u)
add-RegexLang b u =
    let b' = add b u in
    Equal-trans (to_query-BuilderLang b'.units b'.reject_all) (
      Equal-trans (add-Equal b u)
        (⊙_cong (Equal-sym (to_query-BuilderLang b.units b.reject_all)) (Equal-refl (UnitLang u))))
