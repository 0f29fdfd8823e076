-- ===== src/Regex/Builder/Duplicates.antt =====
-- What without_duplicates keeps: the same characters, each of them once, in ascending order.
use netspeak4_application_ng.Prelude.{
  ℕ, ◌≤◌, ◌<◌, ◌∙◌, ◌↔◌, inl, inr, [], ◌∷◌, arith, Text, leb, ◌==◌, Bool-cases, ==_iff, subst,
}
use netspeak4_application_ng.Regex.Lang.{OneOf}
use netspeak4_application_ng.Regex.Builder.{
  insert_sorted, sort, skip_repeated, first_of_each, without_duplicates,
}

-- Ascending; strictly ascending above a number.
abbrev From : ℕ → Text → Type 0
From n [] = Unit
From n (c ∷ cs) = (n ≤ c) × From c cs

abbrev pub Above : ℕ → Text → Type 0
Above n [] = Unit
Above n (c ∷ cs) = (n < c) × Above c cs

abbrev pub Ascending : Text → Type 0
Ascending [] = Unit
Ascending (c ∷ cs) = Above c cs

abbrev IsSorted : Text → Type 0
IsSorted [] = Unit
IsSorted (c ∷ cs) = From c cs

From-insert_sorted : (n c : ℕ) (cs : Text) → n ≤ c → From n cs → From n (insert_sorted c cs)
unfolding insert_sorted
From-insert_sorted n c [] h k = (h, tt)
From-insert_sorted n c (d ∷ ds) h (k, ks) = elim (Bool-cases (leb c d)) [
  | inl e ↦ rw e (ground arith)
  | inr e ↦ rw e (k, From-insert_sorted d c ds (ground arith) ks)
]

IsSorted-insert_sorted : (c : ℕ) (cs : Text) → IsSorted cs → IsSorted (insert_sorted c cs)
unfolding insert_sorted
IsSorted-insert_sorted c [] k = tt
IsSorted-insert_sorted c (d ∷ ds) k = elim (Bool-cases (leb c d)) [
  | inl e ↦ rw e (ground arith)
  | inr e ↦ rw e (From-insert_sorted d c ds (ground arith) k)
]

sort-IsSorted : (cs : Text) → IsSorted (sort cs)
unfolding sort
sort-IsSorted [] = tt
sort-IsSorted (c ∷ cs) = IsSorted-insert_sorted c (sort cs) (sort-IsSorted cs)

Above-skip_repeated : (last : ℕ) (cs : Text) → From last cs → Above last (skip_repeated last cs)
unfolding skip_repeated
Above-skip_repeated last [] h = tt
Above-skip_repeated last (c ∷ cs) (h, hs) = elim (Bool-cases (c == last)) [
  | inl e ↦ rw e (Above-skip_repeated last cs (subst (λ n. From n cs) ((==_iff c last).0 e) hs))
  | inr e ↦ rw e (ground arith, Above-skip_repeated c cs hs)
]

first_of_each-Ascending : (cs : Text) → IsSorted cs → Ascending (first_of_each cs)
unfolding first_of_each
first_of_each-Ascending [] h = tt
first_of_each-Ascending (c ∷ cs) h = Above-skip_repeated c cs h

pub without_duplicates-Ascending : (cs : Text) → Ascending (without_duplicates cs)
unfolding without_duplicates
without_duplicates-Ascending [] = tt
without_duplicates-Ascending (c ∷ []) = tt
without_duplicates-Ascending (c ∷ d ∷ cs) =
    first_of_each-Ascending (sort (c ∷ d ∷ cs)) (sort-IsSorted (c ∷ d ∷ cs))

OneOf-insert_sorted : (c d : ℕ) (cs : Text) → OneOf (insert_sorted c cs) d ↔ OneOf (c ∷ cs) d
unfolding insert_sorted
OneOf-insert_sorted c d [] = (λ x. x, λ x. x)
OneOf-insert_sorted c d (b ∷ cs) = elim (Bool-cases (leb c b)) [
  | inl e ↦ rw e (λ x. x, λ x. x)
  | inr e ↦
      let (to, back) = OneOf-insert_sorted c d cs in
      rw e (
        elim [ inl x ↦ inr (inl x) | inr x ↦ elim (to x) [ inl y ↦ inl y | inr y ↦ inr (inr y) ] ],
        elim [
          | inl x ↦ inr (back (inl x))
          | inr (inl x) ↦ inl x
          | inr (inr x) ↦ inr (back (inr x))
        ],
      )
]

OneOf-sort : (d : ℕ) (cs : Text) → OneOf (sort cs) d ↔ OneOf cs d
unfolding sort
OneOf-sort d [] = (λ x. x, λ x. x)
OneOf-sort d (c ∷ cs) =
    let (to, back) = OneOf-insert_sorted c d (sort cs) in
    (
      λ x. elim (to x) [ inl y ↦ inl y | inr y ↦ inr ((OneOf-sort d cs).0 y) ],
      elim [ inl y ↦ back (inl y) | inr y ↦ back (inr ((OneOf-sort d cs).1 y)) ],
    )

OneOf-skip_repeated :
    (last d : ℕ) (cs : Text) → OneOf (last ∷ skip_repeated last cs) d ↔ OneOf (last ∷ cs) d
unfolding skip_repeated
OneOf-skip_repeated last d [] = (λ x. x, λ x. x)
OneOf-skip_repeated last d (c ∷ cs) = elim (Bool-cases (c == last)) [
  | inl e ↦
      let (to, back) = OneOf-skip_repeated last d cs in
      rw e (
        λ x. elim (to x) [ inl y ↦ inl y | inr y ↦ inr (inr y) ],
        elim [
          | inl y ↦ inl y
          | inr (inl y) ↦ inl (y ∙ (==_iff c last).0 e)
          | inr (inr y) ↦ back (inr y)
        ],
      )
  | inr e ↦
      let (to, back) = OneOf-skip_repeated c d cs in
      rw e
        (elim [ inl y ↦ inl y | inr y ↦ inr (to y) ], elim [ inl y ↦ inl y | inr y ↦ inr (back y) ])
]

OneOf-first_of_each : (d : ℕ) (cs : Text) → OneOf (first_of_each cs) d ↔ OneOf cs d
unfolding first_of_each
OneOf-first_of_each d [] = (λ x. x, λ x. x)
OneOf-first_of_each d (c ∷ cs) = OneOf-skip_repeated c d cs

pub OneOf-without_duplicates : (d : ℕ) (cs : Text) → OneOf (without_duplicates cs) d ↔ OneOf cs d
unfolding without_duplicates
OneOf-without_duplicates d [] = (λ x. x, λ x. x)
OneOf-without_duplicates d (c ∷ []) = (λ x. x, λ x. x)
OneOf-without_duplicates d (c ∷ b ∷ cs) =
    let (to, back) = OneOf-first_of_each d (sort (c ∷ b ∷ cs)) in
    let (to', back') = OneOf-sort d (c ∷ b ∷ cs) in (λ x. to' (to x), λ x. back (back' x))
