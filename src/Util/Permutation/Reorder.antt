-- ===== src/Util/Permutation/Reorder.antt =====
-- Reordered lists, and that `next_permutation` reorders its list.
use mathlib.Core.List.{reverse-cons}
use netspeak4_application_ng.Prelude.{
  ℕ, sym, subst, List, [], ◌∷◌, ◌++◌, reverse, Option, none, some, Bool, true, false, if◌then◌else◌,
  ltb,
}
use netspeak4_application_ng.Util.Permutation.{
  replace_last_greater, raise, next?, wrap_around, next_permutation,
}

-- The same items in another order, item by item.
pub data Reorder {ℓ} {A : Type ℓ} : List A → List A → Type ℓ where
  nil : Reorder [] []
  cons : (x : A) {xs ys : List A} → Reorder xs ys → Reorder (x ∷ xs) (x ∷ ys)
  swap : (x y : A) (xs : List A) → Reorder (x ∷ y ∷ xs) (y ∷ x ∷ xs)
  trans : {xs ys zs : List A} → Reorder xs ys → Reorder ys zs → Reorder xs zs

module _ {ℓ} {A : Type ℓ} where
  pub same_order : (xs : List A) → Reorder xs xs
  same_order [] = Reorder.nil
  same_order (x ∷ xs) = Reorder.cons x (same_order xs)

  pub flip : {xs ys : List A} → Reorder xs ys → Reorder ys xs
  flip Reorder.nil = Reorder.nil
  flip (Reorder.cons x r) = Reorder.cons x (flip r)
  flip (Reorder.swap x y xs) = Reorder.swap y x xs
  flip (Reorder.trans r s) = Reorder.trans (flip s) (flip r)

  pub in_front : (xs : List A) {ys zs : List A} → Reorder ys zs → Reorder (xs ++ ys) (xs ++ zs)
  in_front [] r = r
  in_front (x ∷ xs) r = Reorder.cons x (in_front xs r)

  pub to_front : (xs : List A) (y : A) (ys : List A) → Reorder (xs ++ y ∷ ys) (y ∷ xs ++ ys)
  to_front [] y ys = same_order (y ∷ ys)
  to_front (x ∷ xs) y ys =
      Reorder.trans (Reorder.cons x (to_front xs y ys)) (Reorder.swap x y (xs ++ ys))

  to_end : (x : A) (xs : List A) → Reorder (xs ++ x ∷ []) (x ∷ xs)
  to_end x [] = same_order (x ∷ [])
  to_end x (y ∷ xs) = Reorder.trans (Reorder.cons y (to_end x xs)) (Reorder.swap y x xs)

  reverse-Reorder : (xs : List A) → Reorder (reverse xs) xs
  reverse-Reorder [] = Reorder.nil
  reverse-Reorder (x ∷ xs) =
      subst (λ ys. Reorder ys (x ∷ xs)) (sym (reverse-cons x xs))
        (Reorder.trans (to_end x (reverse xs)) (Reorder.cons x (reverse-Reorder xs)))

abbrev IsExchange : ℕ → List ℕ → Option (ℕ × List ℕ) → Type 0
IsExchange x xs none = Unit
IsExchange x xs (some (z, zs)) = Reorder (z ∷ zs) (x ∷ xs)

replace_last_greater-IsExchange :
    (x : ℕ) (xs : List ℕ) → IsExchange x xs (replace_last_greater x xs)
unfolding replace_last_greater
replace_last_greater-IsExchange x [] = tt
replace_last_greater-IsExchange x (y ∷ ys) =
    go (replace_last_greater x ys) (replace_last_greater-IsExchange x ys)
  where
    here : (b : Bool) → IsExchange x (y ∷ ys) (if b then some (y, x ∷ ys) else none)
    here true = Reorder.swap _ _ _
    here false = tt

    go :
        (r : Option (ℕ × List ℕ))
        → IsExchange x ys r
        → IsExchange x (y ∷ ys) (elim r [
          | some (z, zs) ↦ some (z, y ∷ zs)
          | none ↦ if ltb x y then some (y, x ∷ ys) else none
        ])
    go (some (z, zs)) h =
        Reorder.trans (Reorder.swap _ _ _) (Reorder.trans (Reorder.cons _ h) (Reorder.swap _ _ _))
    go none h = here (ltb x y)

abbrev IsReordered : List ℕ → Option (List ℕ) → Type 0
IsReordered xs none = Unit
IsReordered xs (some ys) = Reorder ys xs

raise-IsReordered :
    (x : ℕ) (xs : List ℕ) (r : Option (ℕ × List ℕ))
    → IsExchange x xs r
    → IsReordered (x ∷ xs) (raise r)
unfolding raise
raise-IsReordered x xs none h = tt
raise-IsReordered x xs (some (z, zs)) h = Reorder.trans (Reorder.cons _ (reverse-Reorder zs)) h

next?-IsReordered : (xs : List ℕ) → IsReordered xs (next? xs)
unfolding next?
next?-IsReordered [] = tt
next?-IsReordered (x ∷ xs) = go (next? xs) (next?-IsReordered xs)
  where
    go :
        (r : Option (List ℕ))
        → IsReordered xs r
        → IsReordered
            (x ∷ xs)
            (elim r [ some ys ↦ some (x ∷ ys) | none ↦ raise (replace_last_greater x xs) ])
    go (some ys) h = Reorder.cons _ h
    go none h =
        raise-IsReordered x xs (replace_last_greater x xs) (replace_last_greater-IsExchange x xs)

-- The next permutation of a list holds the same items.
pub next_permutation-Reorder : (xs : List ℕ) → Reorder (next_permutation xs).0 xs
unfolding next_permutation wrap_around
next_permutation-Reorder xs = go (next? xs) (next?-IsReordered xs)
  where
    go : (r : Option (List ℕ)) → IsReordered xs r → Reorder (wrap_around xs r).0 xs
    go (some ys) h = h
    go none h = reverse-Reorder xs
