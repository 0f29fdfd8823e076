-- ===== src/Util/Vec/Distinct.antt =====
-- `vec_sorted_filter_dups` where there is nothing to remove.
use netspeak4_application_ng.Prelude.{
  ℕ, zero, suc, ◌+◌, ◌-◌, ◌≤◌, ◌<◌, ◌≡◌, refl, ap, ◌∙◌, false, List, [], ◌∷◌, length, arith,
  le→ltb-false, Text, text_eq, throw, undefined_behaviour,
}
use netspeak4_application_ng.Util.Vec.{
  element_at, set_element, filter_from, erase_element, vec_sorted_filter_dups,
}

-- No two neighbours are equal, as in a sorted vector without duplicates.
abbrev pub IsDistinct : List Text → Type 0
IsDistinct base =
    (i : ℕ) → suc i < length base → text_eq (element_at base (suc i)) (element_at base i) ≡ false

set_element-same : (base : List Text) (i : ℕ) → set_element base i (element_at base i) ≡ base
unfolding set_element element_at
set_element-same [] i = refl
set_element-same (x ∷ base) zero = refl
set_element-same (x ∷ base) (suc i) = ap (λ l. x ∷ l) (set_element-same base i)

-- Every element is kept where it is.
filter_from-distinct :
    (f write_i : ℕ) (base : List Text)
    → IsDistinct base
    → suc write_i + f ≡ length base
    → filter_from f (suc write_i) write_i base ≡ (base, write_i + f)
unfolding filter_from
filter_from-distinct zero write_i base d e = ap (λ w. (base, w)) (omega arith)
filter_from-distinct (suc f) write_i base d e =
    let next : write_i + 1 ≡ suc write_i = omega arith in
    let next' : suc write_i + 1 ≡ suc (suc write_i) = omega arith in
    rw (d write_i (omega arith)) (
      rw next (
        rw next' (
          rw (set_element-same base (suc write_i)) (
            filter_from-distinct f (suc write_i) base d (omega arith)
            ∙ ap (λ w. (base, w)) (omega arith)))))

erase_element-end :
    (base : List Text) (i : ℕ) → length base ≤ i → erase_element base i ≡ throw undefined_behaviour
unfolding erase_element
erase_element-end [] i h = refl
erase_element-end (x ∷ base) zero h = absurd (omega arith)
erase_element-end (x ∷ base) (suc i) h = rw (erase_element-end base i (omega arith)) refl

-- For two elements or more of which no two neighbours are equal, the call erases at the end of the
-- vector, which is undefined behaviour.
pub vec_sorted_filter_dups-distinct :
    (base : List Text)
    → IsDistinct base
    → 2 ≤ length base
    → vec_sorted_filter_dups base ≡ throw undefined_behaviour
unfolding vec_sorted_filter_dups
vec_sorted_filter_dups-distinct base d h =
    rw (filter_from-distinct (length base - 1) 0 base d (omega arith)) (
      rw (le→ltb-false (length base) 2 h)
        (erase_element-end base (0 + (length base - 1) + 1) (omega arith)))
