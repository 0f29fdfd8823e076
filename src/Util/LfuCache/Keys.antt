-- ===== src/Util/LfuCache/Keys.antt =====
-- Keyed lists: which keys they have after a removal or a write.
use netspeak4_application_ng.Prelude.{
  suc, ◌≤◌, ◌≡◌, refl, sym, subst, ◌∙◌, inl, inr, true, false, ◌||◌, List, [], ◌∷◌, arith, length,
  Text, text_eq, text_eq_sound, Bool-cases, if◌then◌else◌,
}
use netspeak4_application_ng.Util.LfuCache.{has, lookup, remove, assign}

module _ {A : Type 0} where
  -- No key stands twice.
  abbrev pub IsDistinct : List (Text × A) → Type 0
  IsDistinct [] = Unit
  IsDistinct ((k, _) ∷ m) = (has k m ≡ false) × IsDistinct m

  pub has-remove :
      (k j : Text) (m : List (Text × A))
      → IsDistinct m
      → has j (remove k m) ≡ (if text_eq k j then false else has j m)
  unfolding has remove
  has-remove k j [] d = ground arith
  has-remove k j ((i, a) ∷ m) (d, ds) = elim (Bool-cases (text_eq i k)) [
    | inl e ↦ rw e (
        subst (λ (l : Text). has j m ≡ (if text_eq l j then false else text_eq i j || has j m))
          (text_eq_sound i k e) (removed i d))
    | inr e ↦ rw (e, has-remove k j m ds) (kept e)
  ]
    where
      removed :
          (l : Text)
          → has l m ≡ false
          → has j m ≡ (if text_eq l j then false else text_eq l j || has j m)
      removed l h = elim (Bool-cases (text_eq l j)) [
        | inl b ↦ rw b (subst (λ (t : Text). has t m ≡ false) (text_eq_sound l j b) h)
        | inr b ↦ rw b refl
      ]

      kept :
          text_eq i k ≡ false
          → (text_eq i j || (if text_eq k j then false else has j m))
            ≡ (if text_eq k j then false else text_eq i j || has j m)
      kept h = elim (Bool-cases (text_eq k j)) [
        | inl b ↦
            rw b (
              subst (λ (t : Text). (text_eq i t || false) ≡ false) (text_eq_sound k j b)
                (rw h refl))
        | inr b ↦ rw b refl
      ]

  pub remove-IsDistinct : (k : Text) (m : List (Text × A)) → IsDistinct m → IsDistinct (remove k m)
  unfolding remove
  remove-IsDistinct k [] d = tt
  remove-IsDistinct k ((i, a) ∷ m) (d, ds) = elim (Bool-cases (text_eq i k)) [
    | inl e ↦ rw e ds
    | inr e ↦ rw e (rw (has-remove k i m ds) (absent d), remove-IsDistinct k m ds)
  ]
    where
      absent : has i m ≡ false → (if text_eq k i then false else has i m) ≡ false
      absent h = rw h (ground arith)

  pub length-remove :
      (k : Text) (m : List (Text × A)) → has k m ≡ true → suc (length (remove k m)) ≡ length m
  unfolding has remove
  length-remove k [] h = ground arith
  length-remove k ((i, a) ∷ m) h = ground (arith, length-remove k m)

  pub length-remove-le : (k : Text) (m : List (Text × A)) → length (remove k m) ≤ length m
  unfolding remove
  length-remove-le k [] = omega arith
  length-remove-le k ((i, a) ∷ m) = ground (arith, length-remove-le k m)

  pub has-assign : (k j : Text) (a : A) (m : List (Text × A)) → has j (assign k a m) ≡ has j m
  unfolding has assign
  has-assign k j a [] = refl
  has-assign k j a ((i, b) ∷ m) = ground (arith, has-assign k j a m)

  pub assign-IsDistinct :
      (k : Text) (a : A) (m : List (Text × A)) → IsDistinct m → IsDistinct (assign k a m)
  unfolding assign
  assign-IsDistinct k a [] d = tt
  assign-IsDistinct k a ((i, b) ∷ m) (d, ds) = elim (Bool-cases (text_eq i k)) [
    | inl e ↦ rw e (d, ds)
    | inr e ↦ rw e (has-assign k i a m ∙ d, assign-IsDistinct k a m ds)
  ]

  pub length-assign : (k : Text) (a : A) (m : List (Text × A)) → length (assign k a m) ≡ length m
  unfolding assign
  length-assign k a [] = refl
  length-assign k a ((i, b) ∷ m) = ground (arith, length-assign k a m)

  pub lookup-remove :
      (k j : Text) (m : List (Text × A)) → text_eq k j ≡ false → lookup j (remove k m) ≡ lookup j m
  unfolding lookup remove
  lookup-remove k j [] h = refl
  lookup-remove k j ((i, a) ∷ m) h = elim (Bool-cases (text_eq i k)) [
    | inl e ↦
        rw e (rw (subst (λ (l : Text). text_eq l j ≡ false) (sym (text_eq_sound i k e)) h) refl)
    | inr e ↦ rw (e, lookup-remove k j m h) refl
  ]
