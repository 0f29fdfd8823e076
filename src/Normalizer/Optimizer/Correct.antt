-- ===== src/Normalizer/Optimizer/Correct.antt =====
-- `SimpleQueryOptimizer::optimize` against the phrases a query accepts.
use netspeak4_application_ng.Prelude.{
  ℕ, ◌≤◌, ◌<◌, ◌≡◌, refl, ap, true, List, [], ◌∷◌, ◌++◌, arith, Bool-cases, inl, inr, Text,
  uint32_max, Option, none, some,
}
use netspeak4_application_ng.Language.{
  Lang, ε, ◌⊙◌, ◌⊕◌, Same, Same-refl, Same-sym, Same-trans, ⊙_cong, ⊙_assoc, ε_⊙, ⊙_ε, ⊕_cong,
  none_⊕, ⊕_assoc, none_⊙, ⊙_none, ⊕_none,
}
use netspeak4_application_ng.Model.NormQuery.{Source}
use netspeak4_application_ng.Model.SimpleQuery.{
  SimpleQueryUnit, Children, word, qmark, star, regex, concat, alternation, cons, nil, star_tag,
  concat_tag, alternation_tag, SimpleLang, ConcatLang, AlternationLang, terminals, terminals_of,
  from_list, to_list, children,
}
use netspeak4_application_ng.Normalizer.Optimizer.{
  has_tag, contains_child, inline_children, inline_nested, find_empty, finish_concat,
  optimize_simple_concat, optimize_simple_alt, optimize_simple_unit, optimize_simple_children,
  optimize,
}
use netspeak4_application_ng.Normalizer.Optimizer.Meaning.{concat_star_optimization-Same}
use netspeak4_application_ng.Normalizer.Optimizer.Weight.{
  weight, weight-inline_nested, weight-concat_star, ≤_trans,
}

module _ (matches : Text → Text → Type 0) (n : ℕ) where
  Concat : List SimpleQueryUnit → Lang
  Concat us = ConcatLang matches (from_list us)

  Alternation : List SimpleQueryUnit → Lang
  Alternation us = AlternationLang matches (from_list us)

  Concat-append :
      (us vs : List SimpleQueryUnit) → Same n (Concat (us ++ vs)) (Concat us ⊙ Concat vs)
  unfolding Concat from_list
  Concat-append [] vs = Same-sym (ε_⊙ (Concat vs))
  Concat-append (u ∷ us) vs =
      Same-trans (⊙_cong (Same-refl (SimpleLang matches u)) (Concat-append us vs))
        (Same-sym (⊙_assoc (SimpleLang matches u) (Concat us) (Concat vs)))

  Alternation-append :
      (us vs : List SimpleQueryUnit)
      → Same n (Alternation (us ++ vs)) (Alternation us ⊕ Alternation vs)
  unfolding Alternation from_list
  Alternation-append [] vs = Same-sym (none_⊕ (Alternation vs))
  Alternation-append (u ∷ us) vs =
      Same-trans (⊕_cong (Same-refl (SimpleLang matches u)) (Alternation-append us vs))
        (Same-sym (⊕_assoc (SimpleLang matches u) (Alternation us) (Alternation vs)))

  Concat-to_list : (us : Children) → Concat (to_list us) ≡ ConcatLang matches us
  unfolding Concat from_list to_list
  Concat-to_list nil = refl
  Concat-to_list (cons u us) = ap (λ L. SimpleLang matches u ⊙ L) (Concat-to_list us)

  Alternation-to_list : (us : Children) → Alternation (to_list us) ≡ AlternationLang matches us
  unfolding Alternation from_list to_list
  Alternation-to_list nil = refl
  Alternation-to_list (cons u us) = ap (λ L. SimpleLang matches u ⊕ L) (Alternation-to_list us)

  Concat-children :
      (u : SimpleQueryUnit)
      → has_tag concat_tag u ≡ true
      → Concat (children u) ≡ SimpleLang matches u
  unfolding children has_tag
  Concat-children (concat s us) e = Concat-to_list us
  Concat-children (alternation s us) e = ground arith
  Concat-children (word t s) e = ground arith
  Concat-children (qmark s) e = ground arith
  Concat-children (star s) e = ground arith
  Concat-children (regex t s) e = ground arith

  Alternation-children :
      (u : SimpleQueryUnit)
      → has_tag alternation_tag u ≡ true
      → Alternation (children u) ≡ SimpleLang matches u
  unfolding children has_tag
  Alternation-children (alternation s us) e = Alternation-to_list us
  Alternation-children (concat s us) e = ground arith
  Alternation-children (word t s) e = ground arith
  Alternation-children (qmark s) e = ground arith
  Alternation-children (star s) e = ground arith
  Alternation-children (regex t s) e = ground arith

  Concat-inline_children :
      (us : List SimpleQueryUnit) → Same n (Concat (inline_children us concat_tag)) (Concat us)
  unfolding inline_children Concat from_list
  Concat-inline_children [] = Same-refl ε
  Concat-inline_children (u ∷ us) =
      let rest = inline_children us concat_tag in
      elim (Bool-cases (has_tag concat_tag u)) [
        | inl e ↦ rw e (
            Same-trans (Concat-append (children u) rest) (
              ⊙_cong (rw (Concat-children u e) (Same-refl (SimpleLang matches u)))
                (Concat-inline_children us)))
        | inr e ↦ rw e (⊙_cong (Same-refl (SimpleLang matches u)) (Concat-inline_children us))
      ]

  Alternation-inline_children :
      (us : List SimpleQueryUnit)
      → Same n (Alternation (inline_children us alternation_tag)) (Alternation us)
  unfolding inline_children Alternation from_list
  Alternation-inline_children [] = Same-refl (λ _. ⊥)
  Alternation-inline_children (u ∷ us) =
      let rest = inline_children us alternation_tag in
      elim (Bool-cases (has_tag alternation_tag u)) [
        | inl e ↦ rw e (
            Same-trans (Alternation-append (children u) rest) (
              ⊕_cong (rw (Alternation-children u e) (Same-refl (SimpleLang matches u)))
                (Alternation-inline_children us)))
        | inr e ↦ rw e (⊕_cong (Same-refl (SimpleLang matches u)) (Alternation-inline_children us))
      ]

  Concat-inline_nested :
      (us : List SimpleQueryUnit) → Same n (Concat (inline_nested us concat_tag)) (Concat us)
  unfolding inline_nested
  Concat-inline_nested us = elim (Bool-cases (contains_child us concat_tag)) [
    | inl e ↦ rw e (Concat-inline_children us)
    | inr e ↦ rw e (Same-refl (Concat us))
  ]

  Alternation-inline_nested :
      (us : List SimpleQueryUnit)
      → Same n (Alternation (inline_nested us alternation_tag)) (Alternation us)
  unfolding inline_nested
  Alternation-inline_nested us = elim (Bool-cases (contains_child us alternation_tag)) [
    | inl e ↦ rw e (Alternation-inline_children us)
    | inr e ↦ rw e (Same-refl (Alternation us))
  ]

  skip_empty :
      (u : SimpleQueryUnit) (us : List SimpleQueryUnit)
      → Same n (Concat us) (λ _. ⊥)
      → Same n (SimpleLang matches u ⊙ Concat us) (λ _. ⊥)
  skip_empty u us e =
      Same-trans (⊙_cong (Same-refl (SimpleLang matches u)) e) (⊙_none (SimpleLang matches u))

  -- An empty alternation is absorbing.
  find_empty-Concat :
      (us : List SimpleQueryUnit) (s : Source)
      → find_empty us ≡ some s
      → Same n (Concat us) (λ _. ⊥)
  unfolding find_empty Concat from_list
  find_empty-Concat [] s e = ground arith
  find_empty-Concat (alternation _ nil ∷ us) s e = none_⊙ (Concat us)
  find_empty-Concat (alternation z (cons u vs) ∷ us) s e =
      skip_empty (alternation z (cons u vs)) us (find_empty-Concat us s e)
  find_empty-Concat (word t z ∷ us) s e = skip_empty (word t z) us (find_empty-Concat us s e)
  find_empty-Concat (qmark z ∷ us) s e = skip_empty (qmark z) us (find_empty-Concat us s e)
  find_empty-Concat (star z ∷ us) s e = skip_empty (star z) us (find_empty-Concat us s e)
  find_empty-Concat (regex t z ∷ us) s e = skip_empty (regex t z) us (find_empty-Concat us s e)
  find_empty-Concat (concat z vs ∷ us) s e = skip_empty (concat z vs) us (find_empty-Concat us s e)

  -- The optimized unit accepts what the unit does, and has no more terminals.
  Keeps : ℕ → Lang → SimpleQueryUnit → Type 0
  Keeps w L u = Same n (SimpleLang matches u) L × (terminals u ≤ w)

  finish_concat-Keeps :
      (s : Source) (us : List SimpleQueryUnit) (o : Option Source)
      → find_empty us ≡ o
      → weight us < uint32_max
      → Keeps (weight us) (Concat us) (finish_concat s us o)
  unfolding Keeps finish_concat terminals Concat
  finish_concat-Keeps s us (some z) e h = (Same-sym (find_empty-Concat us z e), omega arith)
  finish_concat-Keeps s us none e h = elim (Bool-cases (contains_child us star_tag)) [
    | inl c ↦ rw c (concat_star_optimization-Same matches n us h, weight-concat_star us)
    | inr c ↦ rw c (Same-refl (Concat us), omega arith)
  ]

  optimize_simple_concat-Keeps :
      (s : Source) (us : List SimpleQueryUnit)
      → weight us < uint32_max
      → Keeps (weight us) (Concat us) (optimize_simple_concat s us)
  unfolding optimize_simple_concat Concat Keeps terminals
  optimize_simple_concat-Keeps s [] h = (Same-refl ε, omega arith)
  optimize_simple_concat-Keeps s (u ∷ []) h = (Same-sym (⊙_ε (SimpleLang matches u)), omega arith)
  optimize_simple_concat-Keeps s (u ∷ v ∷ us) h =
      let inlined = inline_nested (u ∷ v ∷ us) concat_tag in
      let lighter = weight-inline_nested (u ∷ v ∷ us) concat_tag in
      let (same, light) = finish_concat-Keeps s inlined (find_empty inlined) refl (omega arith) in
      (Same-trans same (Concat-inline_nested (u ∷ v ∷ us)), ≤_trans light lighter)

  optimize_simple_alt-Keeps :
      (s : Source) (us : List SimpleQueryUnit)
      → Keeps (weight us) (Alternation us) (optimize_simple_alt s us)
  unfolding optimize_simple_alt Alternation Keeps terminals
  optimize_simple_alt-Keeps s [] = (Same-refl (λ _. ⊥), omega arith)
  optimize_simple_alt-Keeps s (u ∷ []) = (Same-sym (⊕_none (SimpleLang matches u)), omega arith)
  optimize_simple_alt-Keeps s (u ∷ v ∷ us) =
      (Alternation-inline_nested (u ∷ v ∷ us), weight-inline_nested (u ∷ v ∷ us) alternation_tag)

  mutual
    unfolding Concat Alternation Keeps terminals optimize_simple_unit from_list

    optimize_simple_unit-Keeps :
        (u : SimpleQueryUnit)
        → terminals u < uint32_max
        → Keeps (terminals u) (SimpleLang matches u) (optimize_simple_unit u)
    optimize_simple_unit-Keeps (concat s us) h =
        let (cats, alts, l) = optimize_simple_children-Keeps us h in
        let (same, light) =
          optimize_simple_concat-Keeps s (optimize_simple_children us) (omega arith) in
        (Same-trans same cats, ≤_trans light l)
    optimize_simple_unit-Keeps (alternation s us) h =
        let (cats, alts, l) = optimize_simple_children-Keeps us h in
        let (same, light) = optimize_simple_alt-Keeps s (optimize_simple_children us) in
        (Same-trans same alts, ≤_trans light l)
    optimize_simple_unit-Keeps (word t s) h =
        (Same-refl (SimpleLang matches (word t s)), omega arith)
    optimize_simple_unit-Keeps (qmark s) h = (Same-refl (SimpleLang matches (qmark s)), omega arith)
    optimize_simple_unit-Keeps (star s) h = (Same-refl (SimpleLang matches (star s)), omega arith)
    optimize_simple_unit-Keeps (regex t s) h =
        (Same-refl (SimpleLang matches (regex t s)), omega arith)

    optimize_simple_children-Keeps :
        (us : Children)
        → terminals_of us < uint32_max
        → Same n (Concat (optimize_simple_children us)) (ConcatLang matches us)
          × Same n (Alternation (optimize_simple_children us)) (AlternationLang matches us)
          × (weight (optimize_simple_children us) ≤ terminals_of us)
    optimize_simple_children-Keeps nil h = (Same-refl ε, Same-refl (λ _. ⊥), omega arith)
    optimize_simple_children-Keeps (cons u us) h =
        let (same, light) = optimize_simple_unit-Keeps u (omega arith) in
        let (cats, alts, l) = optimize_simple_children-Keeps us (omega arith) in
        (⊙_cong same cats, ⊕_cong same alts, omega arith)

  -- The optimized query accepts the same phrases as the query, for every query with fewer than
  -- 2^32 - 1 terminals.
  pub optimize-Same :
      (root : SimpleQueryUnit)
      → terminals root < uint32_max
      → Same n (SimpleLang matches (optimize root)) (SimpleLang matches root)
  unfolding optimize Concat Alternation terminals from_list
  optimize-Same (concat s us) h = (optimize_simple_children-Keeps us h).0
  optimize-Same (alternation s us) h = (optimize_simple_children-Keeps us h).1
  optimize-Same (word t s) h = Same-refl (SimpleLang matches (word t s))
  optimize-Same (qmark s) h = Same-refl (SimpleLang matches (qmark s))
  optimize-Same (star s) h = Same-refl (SimpleLang matches (star s))
  optimize-Same (regex t s) h = Same-refl (SimpleLang matches (regex t s))
