-- ===== src/Model/SimpleQuery/Equal.antt =====
-- `operator==` of simple query units against what the units accept.
use netspeak4_application_ng.Prelude.{
  ◌≡◌, refl, ap, ap₂, Text, true, arith, text_eq_sound, &&_of_true,
}
use netspeak4_application_ng.Language.{◌⊙◌, ◌⊕◌, OneWord}
use netspeak4_application_ng.Model.SimpleQuery.{
  SimpleQueryUnit, Children, word, qmark, star, regex, concat, alternation, nil, cons, unit_eq,
  children_eq, SimpleLang, ConcatLang, AlternationLang,
}

module _ (matches : Text → Text → Type 0) where
  mutual
    unfolding unit_eq

    unit-Lang :
        (u v : SimpleQueryUnit) → unit_eq u v ≡ true → SimpleLang matches u ≡ SimpleLang matches v
    unit-Lang (word t _) (word t' _) e = ap (λ x. OneWord (λ w. w ≡ x)) (text_eq_sound t t' e)
    unit-Lang (regex t _) (regex t' _) e = ap (λ x. OneWord (matches x)) (text_eq_sound t t' e)
    unit-Lang (qmark _) (qmark _) e = refl
    unit-Lang (star _) (star _) e = refl
    unit-Lang (concat _ us) (concat _ us') e = (children_eq-Lang us us' e).0
    unit-Lang (alternation _ us) (alternation _ us') e = (children_eq-Lang us us' e).1
    unit-Lang _ _ e = ground arith

    children_eq-Lang :
        (us vs : Children)
        → children_eq us vs ≡ true
        → (ConcatLang matches us ≡ ConcatLang matches vs)
          × (AlternationLang matches us ≡ AlternationLang matches vs)
    children_eq-Lang nil nil e = (refl, refl)
    children_eq-Lang (cons u us) (cons v vs) e =
        let (head, tail) = &&_of_true (unit_eq u v) (children_eq us vs) e in
        let same = unit-Lang u v head in
        let (cats, alts) = children_eq-Lang us vs tail in
        (ap₂ (λ L K. L ⊙ K) same cats, ap₂ (λ L K. L ⊕ K) same alts)
    children_eq-Lang nil (cons v vs) e = ground arith
    children_eq-Lang (cons u us) nil e = ground arith

  -- Units that `operator==` finds equal accept the same phrases.
  pub unit_eq-Lang :
      (u v : SimpleQueryUnit) → unit_eq u v ≡ true → SimpleLang matches u ≡ SimpleLang matches v
  unit_eq-Lang u v e = unit-Lang u v e
