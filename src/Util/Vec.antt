-- ===== src/Util/Vec.antt =====
-- `vec_sorted_filter_dups` of netspeak/util/Vec.hpp, at vectors of strings.
pub mod Distinct
use netspeak4_application_ng.Prelude.{
  ℕ, zero, suc, ◌+◌, ◌-◌, Bool, List, [], ◌∷◌, if◌then◌else◌, length, ltb, Text, text_eq, Result,
  ok, throw, undefined_behaviour,
}

-- `base[i]`, for an index in range.
unfoldable pub element_at : List Text → ℕ → Text
element_at [] i = []
element_at (x ∷ base) zero = x
element_at (x ∷ base) (suc i) = element_at base i

-- The assignment `base[i] = x`, for an index in range.
pub set_element : List Text → ℕ → Text → List Text
set_element [] i x = []
set_element (y ∷ base) zero x = x ∷ base
set_element (y ∷ base) (suc i) x = y ∷ set_element base i x

-- The loop, which runs once for each index from `read_i` on: the vector and `write_i` at its end.
pub filter_from : ℕ → ℕ → ℕ → List Text → List Text × ℕ
unfolding element_at set_element
filter_from zero read_i write_i base = (base, write_i)
filter_from (suc f) read_i write_i base =
    let kept = filter_from f (read_i + 1) write_i base in
    let moved =
      filter_from f (read_i + 1) (write_i + 1)
        (set_element base (write_i + 1) (element_at base read_i)) in
    if text_eq (element_at base read_i) (element_at base write_i) then kept else moved

-- `erase(base.begin() + i)`: one element. At the end of the vector it is undefined.
pub erase_element : List Text → ℕ → Result (List Text)
erase_element [] i = throw undefined_behaviour
erase_element (x ∷ base) zero = ok base
erase_element (x ∷ base) (suc i) = elim (erase_element base i) [
  | ok rest ↦ ok (x ∷ rest)
  | throw e ↦ throw e
]

pub vec_sorted_filter_dups : List Text → Result (List Text)
vec_sorted_filter_dups base =
    let (base', write_i) = filter_from (length base - 1) 1 0 base in
    if ltb (length base) 2 then ok base else erase_element base' (write_i + 1)
