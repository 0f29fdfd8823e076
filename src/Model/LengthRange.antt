-- ===== src/Model/LengthRange.antt =====
-- netspeak/model/LengthRange.hpp and LengthRange.cpp: intervals of lengths over `uint32_t`.
pub mod Accepts
use netspeak4_application_ng.Prelude.{
  ℕ, ◌+◌, ◌%◌, Bool, not, ◌&&◌, ltb, leb, ◌==◌, if◌then◌else◌, u32_mod, uint32_max,
}

pub record LengthRange : Type 0 where
  pub min : ℕ
  pub max : ℕ

-- The three constructors: `LengthRange()`, `LengthRange(min)` and `LengthRange(min, max)`.
abbrev pub no_length : LengthRange
no_length = record { min = uint32_max; max = 0 }

abbrev pub at_least : ℕ → LengthRange
at_least n = record { min = n; max = uint32_max }

abbrev pub between : ℕ → ℕ → LengthRange
between m n = record { min = m; max = n }

unfoldable pub is_empty : LengthRange → Bool
is_empty r = r.min == uint32_max

unfoldable pub is_unbounded : LengthRange → Bool
is_unbounded r = not (r.min == uint32_max) && r.max == uint32_max

unfoldable pub accepts : LengthRange → ℕ → Bool
unfolding is_empty
accepts r n = not (is_empty r) && (leb r.min n && leb n r.max)

-- `operator&=`, concatenation: its `uint32_t` sums wrap around.
unfoldable pub concat_assign : LengthRange → LengthRange → LengthRange
unfolding is_empty
concat_assign lhs rhs =
    if is_empty lhs
    then lhs
    else if is_empty rhs
    then record lhs { min = uint32_max }
    else if lhs.max == uint32_max
    then record lhs { min = (lhs.min + rhs.min) % u32_mod }
    else if rhs.max == uint32_max
    then record { min = (lhs.min + rhs.min) % u32_mod; max = uint32_max }
    else record { min = (lhs.min + rhs.min) % u32_mod; max = (lhs.max + rhs.max) % u32_mod }

-- `operator|=`, union.
unfoldable pub union_assign : LengthRange → LengthRange → LengthRange
unfolding is_empty
union_assign lhs rhs = if is_empty rhs then lhs else if is_empty lhs then rhs else record {
  min = if ltb rhs.min lhs.min then rhs.min else lhs.min;
  max = if ltb lhs.max rhs.max then rhs.max else lhs.max;
}

-- `operator&` and `operator|`: both copy the left side and apply `|=` to it.
pub concat_ranges : LengthRange → LengthRange → LengthRange
unfolding union_assign
concat_ranges lhs rhs = union_assign lhs rhs

unfoldable pub union_ranges : LengthRange → LengthRange → LengthRange
unfolding union_assign
union_ranges lhs rhs = union_assign lhs rhs
