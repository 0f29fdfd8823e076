-- ===== src/Normalizer/Simplifier/Orders.antt =====
-- The permutations of an order set: what they accept is the elements in some order.
use netspeak4_application_ng.Prelude.{
  ◌≡◌, refl, sym, ap, subst, ◌∙◌, inl, inr, List, [], ◌∷◌, ◌++◌, Text, Phrase, append_assoc,
  append-nil,
}
use netspeak4_application_ng.Language.{Lang, ◌⊙◌, ◌⊕◌}
use netspeak4_application_ng.Model.SimpleQuery.{
  SimpleQueryUnit, Children, Tag, tag, from_list, to_list, children, SimpleLang, ConcatLang,
  AlternationLang, word, qmark, star, regex, concat, alternation,
}
use netspeak4_application_ng.Model.SimpleQuery
use netspeak4_application_ng.Normalizer.Optimizer.{has_tag}
use netspeak4_application_ng.Normalizer.Simplifier.{add_to_concat, add_to_alternation}
use netspeak4_application_ng.Util.Permutation.Reorder.{Reorder}

-- Two lists, item by item.
module _ {A B : Type 0} (R : A → B → Type 0) where
  abbrev pub Matched : List A → List B → Type 0
  Matched [] [] = Unit
  Matched [] (_ ∷ _) = ⊥
  Matched (_ ∷ _) [] = ⊥
  Matched (x ∷ xs) (y ∷ ys) = R x y × Matched xs ys

  pub Matched-Reorder :
      {xs xs' : List A} (ys : List B)
      → Reorder xs xs'
      → Matched xs ys
      → (ys' : List B) × Reorder ys ys' × Matched xs' ys'
  Matched-Reorder [] Reorder.nil h = ([], Reorder.nil, tt)
  Matched-Reorder (y ∷ ys) Reorder.nil h = absurd h
  Matched-Reorder [] (Reorder.cons x r) h = absurd h
  Matched-Reorder (y ∷ ys) (Reorder.cons x r) (h, hs) =
      let (ys', s, k) = Matched-Reorder ys r hs in (y ∷ ys', Reorder.cons y s, (h, k))
  Matched-Reorder [] (Reorder.swap x x' xs) h = absurd h
  Matched-Reorder (y ∷ []) (Reorder.swap x x' xs) (h, hs) = absurd hs
  Matched-Reorder (y ∷ y' ∷ ys) (Reorder.swap x x' xs) (h, (h', hs)) =
      (y' ∷ y ∷ ys, Reorder.swap y y' ys, (h', (h, hs)))
  Matched-Reorder ys (Reorder.trans r s) h =
      let (ys', r', k) = Matched-Reorder ys r h in
      let (ys'', s', l) = Matched-Reorder ys' s k in (ys'', Reorder.trans r' s', l)

module _ (matches : Text → Text → Type 0) where
  abbrev pub Listed : List SimpleQueryUnit → Lang
  Listed us = ConcatLang matches (from_list us)

  abbrev pub Alternatives : List SimpleQueryUnit → Lang
  Alternatives us = AlternationLang matches (from_list us)

  pub Listed-append :
      (us vs : List SimpleQueryUnit) (p : Phrase) → Listed (us ++ vs) p → (Listed us ⊙ Listed vs) p
  unfolding from_list
  Listed-append [] vs p h = ([], p, refl, refl, h)
  Listed-append (u ∷ us) vs p (a, b, e, x, y) =
      let (b', b'', f, y', y'') = Listed-append us vs b y in
      (
        a ++ b',
        b'',
        e ∙ ap (λ t. a ++ t) f ∙ sym (append_assoc a b' b''),
        (a, b', refl, x, y'),
        y'',
      )

  pub Alternatives-append :
      (us vs : List SimpleQueryUnit) (p : Phrase)
      → Alternatives (us ++ vs) p
      → (Alternatives us ⊕ Alternatives vs) p
  unfolding from_list
  Alternatives-append [] vs p h = inr h
  Alternatives-append (u ∷ us) vs p (inl x) = inl (inl x)
  Alternatives-append (u ∷ us) vs p (inr y) = elim (Alternatives-append us vs p y) [
    | inl z ↦ inl (inr z)
    | inr z ↦ inr z
  ]

  from_list-to_list : (us : Children) → from_list (to_list us) ≡ us
  unfolding from_list to_list
  from_list-to_list SimpleQuery.nil = refl
  from_list-to_list (SimpleQuery.cons u us) = ap (SimpleQuery.cons u) (from_list-to_list us)

  Listed-one : (u : SimpleQueryUnit) (p : Phrase) → Listed (u ∷ []) p → SimpleLang matches u p
  unfolding from_list
  Listed-one u p (a, b, e, x, y) =
      subst (SimpleLang matches u) (sym (e ∙ ap (λ t. a ++ t) y ∙ append-nil a)) x

  Alternatives-one :
      (u : SimpleQueryUnit) (p : Phrase) → Alternatives (u ∷ []) p → SimpleLang matches u p
  unfolding from_list
  Alternatives-one u p (inl x) = x
  Alternatives-one u p (inr y) = absurd y

  -- Inlining the children of a unit of the same kind.
  pub add_to_concat-Listed :
      (us : List SimpleQueryUnit) (u : SimpleQueryUnit) (p : Phrase)
      → Listed (add_to_concat us u) p
      → (Listed us ⊙ SimpleLang matches u) p
  unfolding add_to_concat has_tag tag children
  add_to_concat-Listed us (concat s vs) p h =
      let (a, b, e, x, y) = Listed-append us (to_list vs) p h in
      (a, b, e, x, subst (λ ws. ConcatLang matches ws b) (from_list-to_list vs) y)
  add_to_concat-Listed us u p h =
      let (a, b, e, x, y) = Listed-append us (u ∷ []) p h in (a, b, e, x, Listed-one u b y)

  pub add_to_alternation-Alternatives :
      (us : List SimpleQueryUnit) (u : SimpleQueryUnit) (p : Phrase)
      → Alternatives (add_to_alternation us u) p
      → (Alternatives us ⊕ SimpleLang matches u) p
  unfolding add_to_alternation has_tag tag children
  add_to_alternation-Alternatives us (alternation s vs) p h =
      elim (Alternatives-append us (to_list vs) p h) [
        | inl x ↦ inl x
        | inr y ↦ inr (subst (λ ws. AlternationLang matches ws p) (from_list-to_list vs) y)
      ]
  add_to_alternation-Alternatives us u p h = elim (Alternatives-append us (u ∷ []) p h) [
    | inl x ↦ inl x
    | inr y ↦ inr (Alternatives-one u p y)
  ]
