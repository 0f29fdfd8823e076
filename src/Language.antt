-- ===== src/Language.antt =====
-- Sets of phrases, and their algebra up to a bound on the length of the phrases compared. The
-- meaning of queries, simple queries, star queries and norm queries is stated in these terms.
use netspeak4_application_ng.Prelude.{
  ℕ, ◌≤◌, ◌≡◌, refl, sym, ap, ◌↔◌, ◌⊎◌, inl, inr, List, [], ◌∷◌, ◌++◌, arith, append-nil,
  append_assoc, subst, length, length-append, Any, Any-append_iff, Phrase, Text, ◌∙◌,
}

abbrev pub Lang : Type 1
Lang = Phrase → Type 0

-- Only the empty phrase, only one-word phrases, every phrase, phrases of at least some length.
abbrev pub ε : Lang
ε p = p ≡ []

abbrev pub OneWord : (Text → Type 0) → Lang
OneWord P p = (w : Text) × (p ≡ w ∷ []) × P w

abbrev pub AnyPhrase : Lang
AnyPhrase p = Unit

abbrev pub AtLeast : ℕ → Lang
AtLeast n p = n ≤ length p

infixr 60 ◌⊙◌
infixr 55 ◌⊕◌
-- Concatenation and union.
abbrev pub ◌⊙◌ : Lang → Lang → Lang
(L ⊙ K) p = (a : Phrase) × (b : Phrase) × (p ≡ a ++ b) × L a × K b

abbrev pub ◌⊕◌ : Lang → Lang → Lang
(L ⊕ K) p = L p ⊎ K p

-- The union over a list.
abbrev pub Union {ℓ} : {A : Type ℓ} → (A → Lang) → List A → Lang
Union L xs p = Any (λ x. L x p) xs

-- Two sets agree on the phrases of at most `n` words.
abbrev pub Same : ℕ → Lang → Lang → Type 0
Same n L K = (p : Phrase) → length p ≤ n → L p ↔ K p

module _ {n : ℕ} where
  pub Same-refl : (L : Lang) → Same n L L
  Same-refl L p h = (λ x. x, λ x. x)

  pub Same-sym : {L K : Lang} → Same n L K → Same n K L
  Same-sym e p h = ((e p h).1, (e p h).0)

  pub Same-trans : {L K M : Lang} → Same n L K → Same n K M → Same n L M
  Same-trans e f p h = (λ x. (f p h).0 ((e p h).0 x), λ x. (e p h).1 ((f p h).1 x))

  pub ⊙_cong : {L L' K K' : Lang} → Same n L L' → Same n K K' → Same n (L ⊙ K) (L' ⊙ K')
  ⊙_cong e f p h = (
    λ (a, b, q, x, y). (a, b, q, (e a (left a b q)).0 x, (f b (right a b q)).0 y),
    λ (a, b, q, x, y). (a, b, q, (e a (left a b q)).1 x, (f b (right a b q)).1 y),
  )
    where
      left : (a b : Phrase) → p ≡ a ++ b → length a ≤ n
      left a b q = omega (arith, ap length q, length-append a b)

      right : (a b : Phrase) → p ≡ a ++ b → length b ≤ n
      right a b q = omega (arith, ap length q, length-append a b)

  pub ⊕_cong : {L L' K K' : Lang} → Same n L L' → Same n K K' → Same n (L ⊕ K) (L' ⊕ K')
  ⊕_cong e f p h = (
    elim [ inl x ↦ inl ((e p h).0 x) | inr y ↦ inr ((f p h).0 y) ],
    elim [ inl x ↦ inl ((e p h).1 x) | inr y ↦ inr ((f p h).1 y) ],
  )

  pub ⊕_assoc : (L K M : Lang) → Same n ((L ⊕ K) ⊕ M) (L ⊕ K ⊕ M)
  ⊕_assoc L K M p h = (
    elim [ inl (inl x) ↦ inl x | inl (inr y) ↦ inr (inl y) | inr z ↦ inr (inr z) ],
    elim [ inl x ↦ inl (inl x) | inr (inl y) ↦ inl (inr y) | inr (inr z) ↦ inr z ],
  )

  pub ⊕_none : (L : Lang) → Same n (L ⊕ (λ _. ⊥)) L
  ⊕_none L p h = (elim [ inl x ↦ x | inr z ↦ absurd z ], inl)

  pub none_⊕ : (L : Lang) → Same n ((λ _. ⊥) ⊕ L) L
  none_⊕ L p h = (elim [ inl z ↦ absurd z | inr x ↦ x ], inr)

  pub ⊙_assoc : (L K M : Lang) → Same n ((L ⊙ K) ⊙ M) (L ⊙ K ⊙ M)
  ⊙_assoc L K M p h = (
    λ (ab, c, q, (a, b, r, x, y), z).
        (a, b ++ c, q ∙ ap (λ t. t ++ c) r ∙ append_assoc a b c, x, (b, c, refl, y, z)),
    λ (a, bc, q, x, (b, c, r, y, z)).
        (a ++ b, c, q ∙ ap (λ t. a ++ t) r ∙ sym (append_assoc a b c), (a, b, refl, x, y), z),
  )

  pub ε_⊙ : (L : Lang) → Same n (ε ⊙ L) L
  ε_⊙ L p h =
      (λ (a, b, q, e, x). subst L (sym (q ∙ ap (λ t. t ++ b) e)) x, λ x. ([], p, refl, refl, x))

  pub ⊙_ε : (L : Lang) → Same n (L ⊙ ε) L
  ⊙_ε L p h = (
    λ (a, b, q, x, e). subst L (sym (q ∙ ap (λ t. a ++ t) e ∙ append-nil a)) x,
    λ x. (p, [], sym (append-nil p), x, refl),
  )

  pub ⊙_distrib : (L K M : Lang) → Same n ((L ⊕ K) ⊙ M) ((L ⊙ M) ⊕ (K ⊙ M))
  ⊙_distrib L K M p h = (
    λ (a, b, q, s, z). pick a b q z s,
    elim [ inl (a, b, q, x, z) ↦ (a, b, q, inl x, z) | inr (a, b, q, y, z) ↦ (a, b, q, inr y, z) ],
  )
    where
      pick : (a b : Phrase) → p ≡ a ++ b → M b → (L ⊕ K) a → ((L ⊙ M) ⊕ (K ⊙ M)) p
      pick a b q z (inl x) = inl (a, b, q, x, z)
      pick a b q z (inr y) = inr (a, b, q, y, z)

  pub distrib_⊙ : (L K M : Lang) → Same n (L ⊙ (K ⊕ M)) ((L ⊙ K) ⊕ (L ⊙ M))
  distrib_⊙ L K M p h = (
    λ (a, b, q, x, s). pick a b q x s,
    elim [ inl (a, b, q, x, z) ↦ (a, b, q, x, inl z) | inr (a, b, q, y, z) ↦ (a, b, q, y, inr z) ],
  )
    where
      pick : (a b : Phrase) → p ≡ a ++ b → L a → (K ⊕ M) b → ((L ⊙ K) ⊕ (L ⊙ M)) p
      pick a b q x (inl y) = inl (a, b, q, x, y)
      pick a b q x (inr y) = inr (a, b, q, x, y)

  pub none_⊙ : (L : Lang) → Same n ((λ _. ⊥) ⊙ L) (λ _. ⊥)
  none_⊙ L p h = (λ (a, b, q, z, x). z, λ z. absurd z)

  pub ⊙_none : (L : Lang) → Same n (L ⊙ (λ _. ⊥)) (λ _. ⊥)
  ⊙_none L p h = (λ (a, b, q, x, z). z, λ z. absurd z)

module _ {ℓ} {A : Type ℓ} (L : A → Lang) {n : ℕ} where
  pub Union-append : (xs ys : List A) → Same n (Union L (xs ++ ys)) (Union L xs ⊕ Union L ys)
  Union-append xs ys p h = Any-append_iff (λ x. L x p) xs ys
