-- ===== src/Normalizer/Regexes/Search.antt =====
-- What `binary_search` finds.
use Prim.Native.Nat.{Ordering}
use netspeak4_application_ng.Prelude.{
  ℕ, zero, suc, ◌+◌, ◌-◌, ◌/◌, ◌≤◌, ◌<◌, ◌≡◌, ◌≢◌, refl, arith, ltb, Bool-cases, inl, inr, ◌⊎◌,
  ltb→lt,
}
use netspeak4_application_ng.Normalizer.Regexes.{search_from, binary_search}

-- A comparer that never falls back below 0: what is too much stays too much.
abbrev pub IsMonotone : (ℕ → Ordering) → Type 0
IsMonotone comparer = (m n : ℕ) → m ≤ n → comparer m ≡ Ordering.gt → comparer n ≡ Ordering.gt

-- The value is within the range and not too much, and it hits the mark or is the greatest such.
pub record Best (min max : ℕ) (comparer : ℕ → Ordering) (r : ℕ) : Type 0 where
  pub from_min : min ≤ r
  pub to_max : r ≤ max
  pub fits : comparer r ≢ Ordering.gt
  pub greatest : (comparer r ≡ Ordering.eq) ⊎ ((m : ℕ) → r < m → m ≤ max → comparer m ≡ Ordering.gt)

Ordering-cases : (c : Ordering) → (c ≡ Ordering.lt) ⊎ (c ≡ Ordering.eq) ⊎ (c ≡ Ordering.gt)
Ordering-cases Ordering.lt = inl refl
Ordering-cases Ordering.eq = inr (inl refl)
Ordering-cases Ordering.gt = inr (inr refl)

module _ (top : ℕ) (comparer : ℕ → Ordering) (mono : IsMonotone comparer) where
  Best-raise : (min m : ℕ) {r : ℕ} → min ≤ m → Best m top comparer r → Best min top comparer r
  Best-raise min m h b = record {
    from_min = omega arith;
    to_max = b.to_max;
    fits = b.fits;
    greatest = b.greatest;
  }

  search_from-Best :
      (f min max : ℕ)
      → max - min ≤ f
      → min ≤ max
      → max ≤ top
      → comparer min ≢ Ordering.gt
      → ((m : ℕ) → max < m → m ≤ top → comparer m ≡ Ordering.gt)
      → Best min top comparer (search_from f min max comparer)
  unfolding search_from
  search_from-Best zero min max enough le bound low high = record {
    from_min = omega arith;
    to_max = omega arith;
    fits = low;
    greatest = inr (λ m h k. high m (omega arith) k);
  }
  search_from-Best (suc f) min max enough le bound low high = elim (Bool-cases (ltb min max)) [
    | inr done ↦ rw done (record {
      from_min = omega arith;
      to_max = omega arith;
      fits = low;
      greatest = inr (λ m h k. high m (ground arith) k);
    })
    | inl more ↦ rw more (
        let m = min + (max - min) / 2 + 1 in
        let room : min < max = ltb→lt min max more in
        elim (Ordering-cases (comparer m)) [
          | inl below ↦ rw below (
              Best-raise min m (omega arith)
                (search_from-Best f m max (omega arith) (omega arith) bound (λ e. cc) high))
          | inr (inl equal) ↦ rw equal (record {
            from_min = omega arith;
            to_max = omega arith;
            fits = λ e. cc;
            greatest = inl equal;
          })
          | inr (inr above) ↦ rw above (
              search_from-Best f min (m - 1) (omega arith) (omega arith) (omega arith) low
                (λ k h j. mono m k (omega arith) above))
        ])
  ]

-- For a comparer that is monotone and not too much at the lower end, the search returns a value of
-- the range that is not too much, and that hits the mark or is the greatest such value.
pub binary_search-Best :
    (min max : ℕ) (comparer : ℕ → Ordering)
    → IsMonotone comparer
    → min ≤ max
    → comparer min ≢ Ordering.gt
    → Best min max comparer (binary_search min max comparer)
unfolding binary_search
binary_search-Best min max comparer mono le low =
    search_from-Best max comparer mono (max - min) min max (omega arith) le (omega arith) low
      (λ m h k. absurd (omega arith))
