-- ===== src/Model/SimpleQuery/Zero.antt =====
-- A simple query of which the range of lengths is from 0 to 0 accepts the empty phrase.
use netspeak4_application_ng.Prelude.{
  ℕ, ◌+◌, ◌≤◌, ◌<◌, ◌≡◌, ◌≢◌, refl, sym, ap, subst, ◌∙◌, ◌⊎◌, inl, inr, arith, [], Text, uint32_max,
  Bool-cases,
}
use netspeak4_application_ng.Model.LengthRange.{
  LengthRange, no_length, between, is_empty, concat_assign, union_assign,
}
use netspeak4_application_ng.Model.SimpleQuery.{
  SimpleQueryUnit, Children, word, qmark, star, regex, concat, alternation, nil, cons, length_range,
  union_range, concat_range, terminals, terminals_of, SimpleLang, ConcatLang, AlternationLang,
}

union_assign-max :
    (r s : LengthRange) (n : ℕ)
    → (s.max ≤ n) ⊎ (s.max ≡ uint32_max)
    → r.max + n < uint32_max
    → ((union_assign r s).max ≤ r.max + n)
      ⊎ (((union_assign r s).max ≡ uint32_max) × ((union_assign r s).min ≢ uint32_max))
unfolding union_assign is_empty
union_assign-max r s n h k = ground arith

union_assign-full :
    (r s : LengthRange) (n : ℕ)
    → r.min ≢ uint32_max
    → r.max ≡ uint32_max
    → (s.max ≤ n) ⊎ (s.max ≡ uint32_max)
    → n < uint32_max
    → ((union_assign r s).min ≢ uint32_max) × ((union_assign r s).max ≡ uint32_max)
unfolding union_assign is_empty
union_assign-full r s n k m h l = ground arith

concat_assign-max :
    (r s : LengthRange) (n : ℕ)
    → r.max + n < uint32_max
    → (s.max ≤ n) ⊎ (s.max ≡ uint32_max)
    → ((concat_assign r s).max ≤ r.max + n) ⊎ ((concat_assign r s).max ≡ uint32_max)
unfolding concat_assign is_empty
concat_assign-max r s n k h = ground arith

concat_range-full :
    (us : Children) (r : LengthRange) → r.max ≡ uint32_max → (concat_range r us).max ≡ uint32_max
unfolding concat_range concat_assign is_empty
concat_range-full nil r h = h
concat_range-full (cons u us) r h =
    ground (arith, concat_range-full us (concat_assign r (length_range u)))

concat_range-cons :
    (u : SimpleQueryUnit) (us : Children) (r : LengthRange)
    → let r' = concat_assign r (length_range u) in
      ((concat_range r (cons u us)).max ≡ r'.max)
      ⊎ ((concat_range r (cons u us)).max ≡ (concat_range r' us).max)
unfolding concat_range
concat_range-cons u us r = elim (Bool-cases (is_empty (concat_assign r (length_range u)))) [
  | inl e ↦ inl (rw e refl)
  | inr e ↦ inr (rw e refl)
]

sum_bound :
    (x r r' n m : ℕ)
    → (x ≡ r') ⊎ ((x ≤ r' + m) ⊎ (x ≡ uint32_max))
    → r' ≤ r + n
    → (x ≤ r + (n + m)) ⊎ (x ≡ uint32_max)
sum_bound x r r' n m h k = ground arith

-- The greatest length is at most the number of terminals, where it is bounded.
mutual
  unfolding length_range terminals concat_assign union_assign is_empty

  length_range-max :
      (u : SimpleQueryUnit)
      → terminals u < uint32_max
      → ((length_range u).max ≤ terminals u) ⊎ ((length_range u).max ≡ uint32_max)
  length_range-max (word t s) h = ground arith
  length_range-max (qmark s) h = ground arith
  length_range-max (star s) h = ground arith
  length_range-max (regex t s) h = ground arith
  length_range-max (concat s us) h = ground (arith, concat_range-max us (between 0 0))
  length_range-max (alternation s us) h = ground (arith, union_range-max us no_length)

  union_range-max :
      (us : Children) (r : LengthRange)
      → r.max + terminals_of us < uint32_max
      → ((union_range r us).max ≤ r.max + terminals_of us) ⊎ ((union_range r us).max ≡ uint32_max)
  union_range-max nil r h = ground arith
  union_range-max (cons u us) r h =
      let r' = union_assign r (length_range u) in
      elim (union_assign-max r (length_range u) (terminals u) (length_range-max u (omega arith))
        (omega arith)) [
          | inl k ↦ ground (arith, union_range-max us r')
          | inr (k, k') ↦ inr (union_range-full us r' (omega arith) k' k)
        ]

  union_range-full :
      (us : Children) (r : LengthRange)
      → terminals_of us < uint32_max
      → r.min ≢ uint32_max
      → r.max ≡ uint32_max
      → (union_range r us).max ≡ uint32_max
  union_range-full nil r h k m = m
  union_range-full (cons u us) r h k m =
      let (k', m') =
        union_assign-full r (length_range u) (terminals u) k m (length_range-max u (omega arith))
          (omega arith) in
      union_range-full us (union_assign r (length_range u)) (omega arith) k' m'

  concat_range-max :
      (us : Children) (r : LengthRange)
      → r.max + terminals_of us < uint32_max
      → ((concat_range r us).max ≤ r.max + terminals_of us) ⊎ ((concat_range r us).max ≡ uint32_max)
  concat_range-max nil r h = ground arith
  concat_range-max (cons u us) r h =
      let r' = concat_assign r (length_range u) in
      elim (concat_assign-max r (length_range u) (terminals u) (omega arith)
        (length_range-max u (omega arith))) [
          | inl k ↦
              let ih = concat_range-max us r' (omega arith) in
              sum_bound (concat_range r (cons u us)).max r.max r'.max (terminals u)
                (terminals_of us)
                (elim (concat_range-cons u us r) [
                  | inl e ↦ inl e
                  | inr e ↦
                      inr
                        (subst (λ x. (x ≤ r'.max + terminals_of us) ⊎ (x ≡ uint32_max)) (sym e) ih)
                ])
                k
          | inr k ↦ elim (concat_range-cons u us r) [
            | inl e ↦ inr (e ∙ k)
            | inr e ↦ inr (e ∙ concat_range-full us r' k)
          ]
        ]

union_assign-zero :
    (r s : LengthRange)
    → (union_assign r s).min ≢ uint32_max
    → (union_assign r s).max ≡ 0
    → ((r.min ≢ uint32_max) × (r.max ≡ 0)) ⊎ ((s.min ≢ uint32_max) × (s.max ≡ 0))
unfolding union_assign is_empty
union_assign-zero r s h k = ground arith

concat_assign-zero :
    (r s : LengthRange) (n : ℕ)
    → r.max + n < uint32_max
    → (s.max ≤ n) ⊎ (s.max ≡ uint32_max)
    → (concat_assign r s).min ≢ uint32_max
    → (concat_assign r s).max ≡ 0
    → (r.max ≡ 0) × (s.max ≡ 0) × (s.min ≢ uint32_max)
unfolding concat_assign is_empty
concat_assign-zero r s n l h k e = ground arith

-- A range that is empty stays so.
left_over :
    (r : LengthRange) (us : Children) → (concat_range r us).min ≢ uint32_max → r.min ≢ uint32_max
unfolding concat_range concat_assign is_empty
left_over r nil h = h
left_over r (cons u us) h = ground (arith, left_over (concat_assign r (length_range u)) us)

concat_range-step :
    (u : SimpleQueryUnit) (us : Children) (r : LengthRange)
    → (concat_range r (cons u us)).min ≢ uint32_max
    → concat_range r (cons u us) ≡ concat_range (concat_assign r (length_range u)) us
unfolding concat_range is_empty
concat_range-step u us r h = ground arith

module _ (matches : Text → Text → Type 0) where
  mutual
    unfolding length_range terminals

    pub accepts_empty :
        (u : SimpleQueryUnit)
        → terminals u < uint32_max
        → (length_range u).min ≢ uint32_max
        → (length_range u).max ≡ 0
        → SimpleLang matches u []
    accepts_empty (word t s) h k e = absurd (omega arith)
    accepts_empty (qmark s) h k e = absurd (omega arith)
    accepts_empty (star s) h k e = tt
    accepts_empty (regex t s) h k e = absurd (omega arith)
    accepts_empty (concat s us) h k e = (concat_empty us (between 0 0) (omega arith) k e).1
    accepts_empty (alternation s us) h k e = elim (alternation_empty us no_length h k e) [
      | inl (x, y) ↦ absurd (x refl)
      | inr x ↦ x
    ]

    concat_empty :
        (us : Children) (r : LengthRange)
        → r.max + terminals_of us < uint32_max
        → (concat_range r us).min ≢ uint32_max
        → (concat_range r us).max ≡ 0
        → (r.max ≡ 0) × ConcatLang matches us []
    concat_empty nil r h k e = (e, refl)
    concat_empty (cons u us) r h k e =
        let r' = concat_assign r (length_range u) in
        let step = concat_range-step u us r k in
        let k' : (concat_range r' us).min ≢ uint32_max = λ f. k (ap (λ s. s.min) step ∙ f) in
        let e' : (concat_range r' us).max ≡ 0 = ap (λ s. s.max) (sym step) ∙ e in
        let bound = length_range-max u (omega arith) in
        elim (concat_assign-max r (length_range u) (terminals u) (omega arith) bound) [
          | inl m ↦
              let (z, x) = concat_empty us r' (omega arith) k' e' in
              let (z', f, g) =
                concat_assign-zero r (length_range u) (terminals u) (omega arith) bound
                  (left_over r' us k') z in
              (z', ([], [], refl, accepts_empty u (omega arith) g f, x))
          | inr m ↦ absurd (omega (arith, concat_range-full us r' m, e'))
        ]

    alternation_empty :
        (us : Children) (r : LengthRange)
        → terminals_of us < uint32_max
        → (union_range r us).min ≢ uint32_max
        → (union_range r us).max ≡ 0
        → ((r.min ≢ uint32_max) × (r.max ≡ 0)) ⊎ AlternationLang matches us []
    alternation_empty nil r h k e = inl (k, e)
    alternation_empty (cons u us) r h k e =
        elim (alternation_empty us (union_assign r (length_range u)) (omega arith) k e) [
          | inl (x, y) ↦ elim (union_assign-zero r (length_range u) x y) [
            | inl z ↦ inl z
            | inr (z, w) ↦ inr (inl (accepts_empty u (omega arith) z w))
          ]
          | inr x ↦ inr (inr x)
        ]
