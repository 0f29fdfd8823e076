-- ===== src/Normalizer/Simplifier/Bounded.antt =====
-- The ends of the range of lengths of a query are at most the number of its terminals.
use netspeak4_application_ng.Prelude.{
  ℕ, ◌+◌, ◌≡◌, ◌≤◌, ◌<◌, refl, ◌⊎◌, inl, inr, Bool-cases, arith, uint32_max,
}
use netspeak4_application_ng.Model.LengthRange.{
  LengthRange, no_length, between, is_empty, concat_assign, union_assign,
}
use netspeak4_application_ng.Model.Query.{
  QueryUnit, QueryChildren, length_range, union_range, concat_range,
}

-- The number of terminals of a query.
unfoldable mutual
  pub terminals : QueryUnit → ℕ
  terminals (QueryUnit.orderset _ us) = terminals_of us
  terminals (QueryUnit.optionset _ us) = terminals_of us
  terminals (QueryUnit.alternation _ us) = terminals_of us
  terminals (QueryUnit.concat _ us) = terminals_of us
  terminals _ = 1

  pub terminals_of : QueryChildren → ℕ
  terminals_of QueryChildren.nil = 0
  terminals_of (QueryChildren.cons u us) = terminals u + terminals_of us

-- The ends of a range are at most `k`, or the greatest `uint32_t`.
abbrev pub IsBounded : ℕ → LengthRange → Type 0
IsBounded k r = ((r.min ≤ k) ⊎ (r.min ≡ uint32_max)) × ((r.max ≤ k) ⊎ (r.max ≡ uint32_max))

IsBounded-mono : (k n : ℕ) (r : LengthRange) → k ≤ n → IsBounded k r → IsBounded n r
IsBounded-mono k n r h b = ground arith

pub concat_assign-IsBounded :
    (r s : LengthRange) (k n : ℕ)
    → IsBounded k r
    → IsBounded n s
    → k + n < uint32_max
    → IsBounded (k + n) (concat_assign r s)
unfolding concat_assign is_empty
concat_assign-IsBounded r s k n h h' l = ground arith

pub union_assign-IsBounded :
    (r s : LengthRange) (k n : ℕ)
    → IsBounded k r
    → IsBounded n s
    → IsBounded (k + n) (union_assign r s)
unfolding union_assign is_empty
union_assign-IsBounded r s k n h h' = ground arith

mutual
  unfolding length_range terminals

  pub length_range-IsBounded :
      (u : QueryUnit) → terminals u < uint32_max → IsBounded (terminals u) (length_range u)
  length_range-IsBounded (QueryUnit.word t a) h = ground arith
  length_range-IsBounded (QueryUnit.qmark a) h = ground arith
  length_range-IsBounded (QueryUnit.star a) h = ground arith
  length_range-IsBounded (QueryUnit.plus a) h = ground arith
  length_range-IsBounded (QueryUnit.regex t a) h = ground arith
  length_range-IsBounded (QueryUnit.dictset t a) h = ground arith
  length_range-IsBounded (QueryUnit.orderset a us) h =
      IsBounded-mono (0 + terminals_of us) _ (concat_range (between 0 0) us) (omega arith) (
        concat_range-IsBounded us (between 0 0) 0 (inl (omega arith), inl (omega arith))
          (omega arith))
  length_range-IsBounded (QueryUnit.optionset a us) h =
      IsBounded-mono (0 + terminals_of us) _ (union_range (between 0 0) us) (omega arith) (
        union_range-IsBounded us (between 0 0) 0 (inl (omega arith), inl (omega arith))
          (omega arith))
  length_range-IsBounded (QueryUnit.alternation a us) h =
      IsBounded-mono (0 + terminals_of us) _ (union_range no_length us) (omega arith)
        (union_range-IsBounded us no_length 0 (inr refl, inl (omega arith)) (omega arith))
  length_range-IsBounded (QueryUnit.concat a us) h =
      IsBounded-mono (0 + terminals_of us) _ (concat_range (between 0 0) us) (omega arith) (
        concat_range-IsBounded us (between 0 0) 0 (inl (omega arith), inl (omega arith))
          (omega arith))

  concat_range-IsBounded :
      (us : QueryChildren) (r : LengthRange) (k : ℕ)
      → IsBounded k r
      → k + terminals_of us < uint32_max
      → IsBounded (k + terminals_of us) (concat_range r us)
  concat_range-IsBounded QueryChildren.nil r k b h = IsBounded-mono k (k + 0) r (omega arith) b
  concat_range-IsBounded (QueryChildren.cons u us) r k b h =
      let r' = concat_assign r (length_range u) in
      let b' =
        concat_assign-IsBounded r (length_range u) k (terminals u) b
          (length_range-IsBounded u (omega arith)) (omega arith) in
      elim (Bool-cases (is_empty r')) [
        | inl e ↦ rw e (IsBounded-mono (k + terminals u) _ r' (omega arith) b')
        | inr e ↦ rw e (
            IsBounded-mono (k + terminals u + terminals_of us) _ (concat_range r' us) (omega arith)
              (concat_range-IsBounded us r' (k + terminals u) b' (omega arith)))
      ]

  union_range-IsBounded :
      (us : QueryChildren) (r : LengthRange) (k : ℕ)
      → IsBounded k r
      → k + terminals_of us < uint32_max
      → IsBounded (k + terminals_of us) (union_range r us)
  union_range-IsBounded QueryChildren.nil r k b h = IsBounded-mono k (k + 0) r (omega arith) b
  union_range-IsBounded (QueryChildren.cons u us) r k b h =
      let r' = union_assign r (length_range u) in
      IsBounded-mono (k + terminals u + terminals_of us) _ (union_range r' us) (omega arith) (
        union_range-IsBounded us r' (k + terminals u)
          (union_assign-IsBounded r (length_range u) k (terminals u) b
            (length_range-IsBounded u (omega arith)))
          (omega arith))
