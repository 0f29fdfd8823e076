-- ===== src/Normalizer/Optimizer/Absorb.antt =====
-- What the walk of `concat_star_optimization` drops changes nothing: a star accepts it too.
use netspeak4_application_ng.Prelude.{
  ℕ, zero, suc, ◌≤◌, ◌≡◌, refl, sym, ap, true, false, List, [], ◌∷◌, ◌++◌, arith, length,
  length-append, All, append-nil, Bool-cases, inl, inr, Phrase, Text, ◌==◌, ==_iff,
}
use netspeak4_application_ng.Language.{
  Lang, ε, ◌⊙◌, OneWord, AtLeast, Same, Same-refl, Same-sym, Same-trans, ⊙_cong, ⊙_assoc,
}
use netspeak4_application_ng.Model.SimpleQuery.{
  SimpleQueryUnit, word, qmark, star, regex, concat, alternation, qmark_tag, star_tag, SimpleLang,
}
use netspeak4_application_ng.Normalizer.Optimizer.{Item, has_tag}
use netspeak4_application_ng.Normalizer.Optimizer.Marks.{absorb}

-- Concatenation in the direction of a walk: forward, or backward.
pub record Product (n : ℕ) : Type 1 where
  pub times : Lang → Lang → Lang
  pub cong : (L L' K K' : Lang) → Same n L L' → Same n K K' → Same n (times L K) (times L' K')
  pub assoc : (L K M : Lang) → Same n (times (times L K) M) (times L (times K M))
  pub grow : (k : ℕ) → Same n (times (AtLeast k) (OneWord (λ _. Unit))) (AtLeast (suc k))
  pub swallow : (k : ℕ) (L : Lang) → L [] → Same n (times (AtLeast k) L) (AtLeast k)

snoc-split :
    (k : ℕ) (p : Phrase)
    → suc k ≤ length p
    → (a : Phrase) × (w : Text) × (p ≡ a ++ w ∷ []) × (k ≤ length a)
snoc-split k [] h = absurd (omega arith)
snoc-split zero (w ∷ []) h = ([], w, refl, omega arith)
snoc-split (suc k) (w ∷ []) h = absurd (omega arith)
snoc-split zero (w ∷ v ∷ p) h =
    let (a, u, e, l) = snoc-split zero (v ∷ p) (omega arith) in
    (w ∷ a, u, ap (λ t. w ∷ t) e, omega arith)
snoc-split (suc k) (w ∷ v ∷ p) h =
    let (a, u, e, l) = snoc-split k (v ∷ p) (omega arith) in
    (w ∷ a, u, ap (λ t. w ∷ t) e, omega arith)

module _ (n : ℕ) where
  pub forward_grow : (k : ℕ) → Same n (AtLeast k ⊙ OneWord (λ _. Unit)) (AtLeast (suc k))
  forward_grow k p h = (
    λ (a, b, e, l, (w, d, _)). omega (arith, ap length e, length-append a b, ap length d),
    λ l. (let (a, w, e, l') = snoc-split k p l in (a, w ∷ [], e, l', (w, refl, tt))),
  )

  pub backward_grow : (k : ℕ) → Same n (OneWord (λ _. Unit) ⊙ AtLeast k) (AtLeast (suc k))
  backward_grow k [] h = (
    λ (a, b, e, (w, d, _), l). absurd (omega (arith, ap length e, length-append a b, ap length d)),
    λ l. absurd (omega arith),
  )
  backward_grow k (w ∷ p) h = (
    λ (a, b, e, (v, d, _), l). omega (arith, ap length e, length-append a b, ap length d),
    λ l. (w ∷ [], p, refl, (w, refl, tt), omega arith),
  )

  pub forward_swallow : (k : ℕ) (L : Lang) → L [] → Same n (AtLeast k ⊙ L) (AtLeast k)
  forward_swallow k L x p h = (
    λ (a, b, e, l, _). omega (arith, ap length e, length-append a b),
    λ l. (p, [], sym (append-nil p), l, x),
  )

  pub backward_swallow : (k : ℕ) (L : Lang) → L [] → Same n (L ⊙ AtLeast k) (AtLeast k)
  backward_swallow k L x p h =
      (λ (a, b, e, _, l). omega (arith, ap length e, length-append a b), λ l. ([], p, refl, x, l))

abbrev pub forward : (n : ℕ) → Product n
forward n = record {
  times = ◌⊙◌;
  cong = λ L L' K K' e f. ⊙_cong e f;
  assoc = ⊙_assoc;
  grow = forward_grow n;
  swallow = forward_swallow n;
}

abbrev pub backward : (n : ℕ) → Product n
backward n = record {
  times = λ L K. K ⊙ L;
  cong = λ L L' K K' e f. ⊙_cong f e;
  assoc = λ L K M. Same-sym (⊙_assoc M K L);
  grow = backward_grow n;
  swallow = backward_swallow n;
}

module _ (matches : Text → Text → Type 0) {n : ℕ} (c : Product n) where
  -- The language of the items in the order of the walk, from an item on.
  abbrev pub WalkLang : List Item → Lang
  WalkLang [] = ε
  WalkLang ((u, m) ∷ items) = c.times (SimpleLang matches u) (WalkLang items)

  -- Only units that accept the empty phrase were found to have the least length 0.
  abbrev pub IsCached : List Item → Type 0
  IsCached = All (λ (u, m). m ≡ 0 → SimpleLang matches u [])

  abbrev After : ℕ → List Item → Lang
  After k items = c.times (AtLeast k) (WalkLang items)

  -- The star takes in the next unit, where the two together accept what a star does.
  take_in :
      (k k' : ℕ) (u : SimpleQueryUnit) (m : ℕ) (items : List Item)
      → Same n (c.times (AtLeast k) (SimpleLang matches u)) (AtLeast k')
      → Same n (After k ((u, m) ∷ items)) (After k' items)
  take_in k k' u m items e =
      Same-trans (Same-sym (c.assoc (AtLeast k) (SimpleLang matches u) (WalkLang items))) (
        c.cong (c.times (AtLeast k) (SimpleLang matches u)) (AtLeast k') (WalkLang items)
          (WalkLang items) e (Same-refl (WalkLang items)))

  grow_qmark :
      (u : SimpleQueryUnit)
      → has_tag qmark_tag u ≡ true
      → (k : ℕ) → Same n (c.times (AtLeast k) (SimpleLang matches u)) (AtLeast (suc k))
  unfolding has_tag
  grow_qmark (qmark s) q k = c.grow k
  grow_qmark (word t s) q k = ground arith
  grow_qmark (star s) q k = ground arith
  grow_qmark (regex t s) q k = ground arith
  grow_qmark (concat s us) q k = ground arith
  grow_qmark (alternation s us) q k = ground arith

  star_AtLeast :
      (u : SimpleQueryUnit) → has_tag star_tag u ≡ true → Same n (SimpleLang matches u) (AtLeast 0)
  unfolding has_tag
  star_AtLeast (star s) q p h = (λ x. omega arith, λ x. tt)
  star_AtLeast (word t s) q p h = ground arith
  star_AtLeast (qmark s) q p h = ground arith
  star_AtLeast (regex t s) q p h = ground arith
  star_AtLeast (concat s us) q p h = ground arith
  star_AtLeast (alternation s us) q p h = ground arith

  -- With the star in front of a walk.
  from_star :
      (u : SimpleQueryUnit) (m : ℕ) (items : List Item)
      → has_tag star_tag u ≡ true
      → Same n (WalkLang ((u, m) ∷ items)) (After 0 items)
  from_star u m items q =
      c.cong (SimpleLang matches u) (AtLeast 0) (WalkLang items) (WalkLang items) (star_AtLeast u q)
        (Same-refl (WalkLang items))

  absorb_kept :
      (u : SimpleQueryUnit) (m : ℕ) (items : List Item)
      → Same n (WalkLang (absorb false items)) (WalkLang items)
      → Same n (WalkLang ((u, m) ∷ absorb false items)) (WalkLang ((u, m) ∷ items))
  absorb_kept u m items e =
      c.cong (SimpleLang matches u) (SimpleLang matches u) (WalkLang (absorb false items))
        (WalkLang items) (Same-refl (SimpleLang matches u)) e

  mutual
    unfolding absorb

    absorb_active :
        (items : List Item) (k : ℕ)
        → IsCached items
        → Same n (After k (absorb true items)) (After k items)
    absorb_active [] k h = Same-refl (After k [])
    absorb_active ((u, m) ∷ items) k (h, hs) = elim (Bool-cases (has_tag qmark_tag u)) [
      | inl q ↦
          let grown = grow_qmark u q k in
          rw q (
            Same-trans (take_in k (suc k) u m (absorb true items) grown) (
              Same-trans (absorb_active items (suc k) hs)
                (Same-sym (take_in k (suc k) u m items grown))))
      | inr q ↦ rw q (elim (Bool-cases (m == 0)) [
        | inl z ↦ rw z (
            Same-trans (absorb_active items k hs) (
              Same-sym (
                take_in k k u m items (c.swallow k (SimpleLang matches u) (h ((==_iff m 0).0 z))))))
        | inr z ↦ rw z (
            c.cong (AtLeast k) (AtLeast k) (WalkLang ((u, m) ∷ absorb false items))
              (WalkLang ((u, m) ∷ items)) (Same-refl (AtLeast k))
              (absorb_kept u m items (absorb_idle items hs)))
      ])
    ]

    pub absorb_idle :
        (items : List Item)
        → IsCached items
        → Same n (WalkLang (absorb false items)) (WalkLang items)
    absorb_idle [] h = Same-refl (WalkLang [])
    absorb_idle ((u, m) ∷ items) (h, hs) = elim (Bool-cases (has_tag star_tag u)) [
      | inl q ↦ rw q (
          Same-trans (from_star u m (absorb true items) q)
            (Same-trans (absorb_active items 0 hs) (Same-sym (from_star u m items q))))
      | inr q ↦ rw q (absorb_kept u m items (absorb_idle items hs))
    ]
