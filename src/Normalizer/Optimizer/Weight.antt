-- ===== src/Normalizer/Optimizer/Weight.antt =====
-- The optimizer adds no terminal.
use netspeak4_application_ng.Prelude.{
  ℕ, ◌+◌, ◌≤◌, ◌≡◌, refl, sym, ap, ◌∙◌, Bool, true, false, List, [], ◌∷◌, ◌++◌, map, reverse, arith,
  Bool-cases, inl, inr,
}
use mathlib.Core.List.{reverse-append}
use netspeak4_application_ng.Model.SimpleQuery.{
  SimpleQueryUnit, Children, word, qmark, star, regex, concat, alternation, cons, nil, star_tag,
  Tag, terminals, terminals_of, from_list, to_list, children,
}
use netspeak4_application_ng.Normalizer.Optimizer.{
  Item, has_tag, with_min_length, unit_of, first_pass, second_pass, concat_star_optimization,
  inline_children, inline_nested,
}
use netspeak4_application_ng.Normalizer.Optimizer.Passes.{first_pass_lem, second_pass_lem}
use netspeak4_application_ng.Normalizer.Optimizer.Marks.{absorb}
use netspeak4_application_ng.Normalizer.Optimizer.Meaning.{unit_of-with_min_length}

abbrev pub weight : List SimpleQueryUnit → ℕ
weight us = terminals_of (from_list us)

pub weight-append : (us vs : List SimpleQueryUnit) → weight (us ++ vs) ≡ weight us + weight vs
unfolding from_list terminals
weight-append [] vs = omega arith
weight-append (u ∷ us) vs = omega (arith, weight-append us vs)

weight-to_list : (us : Children) → weight (to_list us) ≡ terminals_of us
unfolding from_list terminals to_list
weight-to_list nil = refl
weight-to_list (cons u us) = omega (arith, weight-to_list us)

weight-children : (u : SimpleQueryUnit) → weight (children u) ≤ terminals u
unfolding children terminals from_list
weight-children (concat s us) = omega (arith, weight-to_list us)
weight-children (alternation s us) = omega (arith, weight-to_list us)
weight-children (word t s) = omega arith
weight-children (qmark s) = omega arith
weight-children (star s) = omega arith
weight-children (regex t s) = omega arith

weight-absorb :
    (active : Bool) (items : List Item)
    → weight (map unit_of (absorb active items)) ≤ weight (map unit_of items)
unfolding absorb from_list terminals unit_of
weight-absorb active [] = omega arith
weight-absorb true ((u, m) ∷ items) =
    ground (arith, weight-absorb true items, weight-absorb false items)
weight-absorb false ((u, m) ∷ items) = omega (arith, weight-absorb (has_tag star_tag u) items)

weight-snoc :
    (items : List Item) (x : Item)
    → weight (map unit_of (items ++ x ∷ [])) ≡ weight (map unit_of items) + terminals x.0
unfolding from_list terminals unit_of
weight-snoc [] x = omega arith
weight-snoc (y ∷ items) x = omega (arith, weight-snoc items x)

weight-reverse :
    (items : List Item) → weight (map unit_of (reverse items)) ≡ weight (map unit_of items)
unfolding from_list terminals unit_of
weight-reverse [] = refl
weight-reverse (x ∷ items) =
    ap (λ l. weight (map unit_of l)) (reverse-append (x ∷ []) items)
    ∙ weight-snoc (reverse items) x
    ∙ omega (arith, weight-reverse items)

weight-inline_children :
    (us : List SimpleQueryUnit) (t : Tag) → weight (inline_children us t) ≤ weight us
unfolding inline_children from_list terminals
weight-inline_children [] t = omega arith
weight-inline_children (u ∷ us) t = elim (Bool-cases (has_tag t u)) [
  | inl e ↦ rw e (
      omega (
        arith,
        weight-append (children u) (inline_children us t),
        weight-children u,
        weight-inline_children us t,
      ))
  | inr e ↦ rw e (omega (arith, weight-inline_children us t))
]

pub weight-inline_nested :
    (us : List SimpleQueryUnit) (t : Tag) → weight (inline_nested us t) ≤ weight us
unfolding inline_nested
weight-inline_nested us t = ground (arith, weight-inline_children us t)

pub ≤_trans : {a b c : ℕ} → a ≤ b → b ≤ c → a ≤ c
≤_trans h k = omega arith

weight-first :
    (items : List Item) → weight (map unit_of (first_pass items)) ≤ weight (map unit_of items)
weight-first items = rw (first_pass_lem items) (weight-absorb false items)

weight-second :
    (items : List Item) → weight (map unit_of (second_pass items)) ≤ weight (map unit_of items)
weight-second items = rw (second_pass_lem items) (
    rw (weight-reverse (absorb false (reverse items)))
      (rw (sym (weight-reverse items)) (weight-absorb false (reverse items))))

pub weight-concat_star :
    (us : List SimpleQueryUnit) → weight (concat_star_optimization us) ≤ weight us
unfolding concat_star_optimization
weight-concat_star us =
    let items = map with_min_length us in
    rw (sym (ap weight (unit_of-with_min_length us)))
      (≤_trans (weight-second (first_pass items)) (weight-first items))
