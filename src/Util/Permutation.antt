-- ===== src/Util/Permutation.antt =====
-- `std::next_permutation`, which the chain cutter and the order sets call: the next list in
-- lexicographic order, or the first one again.
pub mod Reorder
use netspeak4_application_ng.Prelude.{
  ℕ, List, [], ◌∷◌, reverse, Option, none, some, Bool, true, false, if◌then◌else◌, ltb,
}

-- The last item that is greater than `x`, with `x` put in its place.
unfoldable pub replace_last_greater : ℕ → List ℕ → Option (ℕ × List ℕ)
replace_last_greater x [] = none
replace_last_greater x (y ∷ ys) = elim (replace_last_greater x ys) [
  | some (z, zs) ↦ some (z, y ∷ zs)
  | none ↦ if ltb x y then some (y, x ∷ ys) else none
]

-- The step at the pivot `x`: what follows it is in descending order.
raise : Option (ℕ × List ℕ) → Option (List ℕ)
raise none = none
raise (some (z, zs)) = some (z ∷ reverse zs)

unfoldable pub next? : List ℕ → Option (List ℕ)
unfolding replace_last_greater raise
next? [] = none
next? (x ∷ xs) = elim (next? xs) [
  | some ys ↦ some (x ∷ ys)
  | none ↦ raise (replace_last_greater x xs)
]

wrap_around : List ℕ → Option (List ℕ) → List ℕ × Bool
wrap_around xs (some ys) = (ys, true)
wrap_around xs none = (reverse xs, false)

unfoldable pub next_permutation : List ℕ → List ℕ × Bool
unfolding wrap_around
next_permutation xs = wrap_around xs (next? xs)
