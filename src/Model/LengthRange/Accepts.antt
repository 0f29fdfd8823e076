-- ===== src/Model/LengthRange/Accepts.antt =====
-- The operators on ranges of lengths, against the lengths that the ranges accept.
use netspeak4_application_ng.Prelude.{
  ℕ, ◌+◌, ◌-◌, ◌≤◌, ◌<◌, ◌≡◌, ◌↔◌, ◌⊎◌, true, arith, leb, uint32_max, if◌then◌else◌,
}
use netspeak4_application_ng.Model.LengthRange.{LengthRange, accepts, concat_assign, union_assign}

-- A range that is not empty, as the code builds them.
pub record IsProper (r : LengthRange) : Type 0 where
  pub nonempty : r.min < uint32_max
  pub ordered : r.min ≤ r.max
  pub bounded : r.max ≤ uint32_max

-- The sums of the bounds do not overflow.
pub record NoOverflow (lhs rhs : LengthRange) : Type 0 where
  pub mins : lhs.min + rhs.min < uint32_max
  pub maxs : (lhs.max ≡ uint32_max) ⊎ (rhs.max ≡ uint32_max) ⊎ (lhs.max + rhs.max < uint32_max)

accepts_iff :
    (r : LengthRange) (n : ℕ) → IsProper r → (accepts r n ≡ true) ↔ ((r.min ≤ n) × (n ≤ r.max))
unfolding accepts
accepts_iff r n h = ground arith

-- The bounds of a concatenation.
concat_bounds :
    (lhs rhs : LengthRange)
    → IsProper lhs
    → IsProper rhs
    → NoOverflow lhs rhs
    → ((concat_assign lhs rhs).min ≡ lhs.min + rhs.min)
      × ((((concat_assign lhs rhs).max ≡ uint32_max)
            × ((lhs.max ≡ uint32_max) ⊎ (rhs.max ≡ uint32_max)))
          ⊎ (((concat_assign lhs rhs).max ≡ lhs.max + rhs.max)
              × (lhs.max < uint32_max)
              × (rhs.max < uint32_max)))
unfolding concat_assign
concat_bounds lhs rhs h k o = ground arith

-- The first part of a length that a concatenation accepts.
left_part : LengthRange → LengthRange → ℕ → ℕ
left_part lhs rhs n = if leb (n - rhs.min) lhs.max then n - rhs.min else lhs.max

left_part_bounds :
    (lhs rhs : LengthRange) (n : ℕ)
    → IsProper lhs
    → IsProper rhs
    → NoOverflow lhs rhs
    → n ≤ uint32_max
    → (concat_assign lhs rhs).min ≤ n
    → n ≤ (concat_assign lhs rhs).max
    → let a = left_part lhs rhs n in
      (lhs.min ≤ a) × (a ≤ lhs.max) × (rhs.min ≤ n - a) × (n - a ≤ rhs.max) × (n ≡ a + (n - a))
unfolding left_part
left_part_bounds lhs rhs n h k o small lower upper = ground (arith, concat_bounds lhs rhs h k o)

sum_bounds :
    (lhs rhs : LengthRange) (n a b : ℕ)
    → IsProper lhs
    → IsProper rhs
    → NoOverflow lhs rhs
    → n ≤ uint32_max
    → n ≡ a + b
    → (lhs.min ≤ a) × (a ≤ lhs.max)
    → (rhs.min ≤ b) × (b ≤ rhs.max)
    → ((concat_assign lhs rhs).min ≤ n) × (n ≤ (concat_assign lhs rhs).max)
sum_bounds lhs rhs n a b h k o small e x y = ground (arith, concat_bounds lhs rhs h k o)

pub concat_assign-IsProper :
    (lhs rhs : LengthRange)
    → IsProper lhs
    → IsProper rhs
    → NoOverflow lhs rhs
    → IsProper (concat_assign lhs rhs)
concat_assign-IsProper lhs rhs h k o = record {
  nonempty = ground (arith, concat_bounds lhs rhs h k o);
  ordered = ground (arith, concat_bounds lhs rhs h k o);
  bounded = ground (arith, concat_bounds lhs rhs h k o);
}

-- A concatenation of two proper ranges accepts exactly the sums of a length that the left one
-- accepts and one that the right one accepts, if its bounds do not overflow.
pub concat_assign-accepts :
    (lhs rhs : LengthRange) (n : ℕ)
    → IsProper lhs
    → IsProper rhs
    → NoOverflow lhs rhs
    → n ≤ uint32_max
    → (accepts (concat_assign lhs rhs) n ≡ true)
      ↔ ((a : ℕ) × (b : ℕ) × (n ≡ a + b) × (accepts lhs a ≡ true) × (accepts rhs b ≡ true))
concat_assign-accepts lhs rhs n h k o small = (
  λ e.
      let a = left_part lhs rhs n in
      let (lower, upper) =
        (accepts_iff (concat_assign lhs rhs) n (concat_assign-IsProper lhs rhs h k o)).0 e in
      let (low, high, low', high', split) = left_part_bounds lhs rhs n h k o small lower upper in
      (
        a,
        n - a,
        split,
        (accepts_iff lhs a h).1 (low, high),
        (accepts_iff rhs (n - a) k).1 (low', high'),
      ),
  λ (a, b, e, x, y).
      (accepts_iff (concat_assign lhs rhs) n (concat_assign-IsProper lhs rhs h k o)).1 (
        sum_bounds lhs rhs n a b h k o small e ((accepts_iff lhs a h).0 x)
          ((accepts_iff rhs b k).0 y)),
)

-- The union of two proper ranges accepts every length that one of them accepts.
pub union_assign-accepts :
    (lhs rhs : LengthRange) (n : ℕ)
    → IsProper lhs
    → IsProper rhs
    → (accepts lhs n ≡ true) ⊎ (accepts rhs n ≡ true)
    → accepts (union_assign lhs rhs) n ≡ true
unfolding accepts union_assign
union_assign-accepts lhs rhs n h k x = ground arith
