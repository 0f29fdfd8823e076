-- ===== src/Normalizer/Simplifier/Lengths.antt =====
-- The range of lengths of a query, against what the query accepts.
use netspeak4_application_ng.Prelude.{
  ℕ, ◌+◌, ◌≡◌, ◌≢◌, ◌≤◌, ◌<◌, refl, sym, ap, subst, ◌∙◌, ◌⊎◌, inl, inr, false, List, [], ◌∷◌, ◌++◌,
  Option, none, some, Text, Phrase, length, length-append, arith, Any, uint32_max,
}
use netspeak4_application_ng.Model.LengthRange.{
  LengthRange, no_length, between, is_empty, concat_assign, union_assign,
}
use netspeak4_application_ng.Model.Query.{
  QueryUnit, QueryChildren, length_range, union_range, concat_range,
}
use netspeak4_application_ng.Normalizer.Simplifier.{
  TextLibrary, QuerySimplifier, equal_range, get_text,
}
use netspeak4_application_ng.Normalizer.Simplifier.Meaning.{
  joined, SynonymLang, QueryLang, PartsLang, AnyOfLang, InTurnLang,
}
use netspeak4_application_ng.Util.Permutation.Reorder.{Reorder}
use netspeak4_application_ng.Normalizer.Simplifier.Bounded.{
  IsBounded, concat_assign-IsBounded, length_range-IsBounded, terminals, terminals_of,
  union_assign-IsBounded,
}

-- A length lies in a range that is not empty; no bound above where the greatest is `uint32_max`.
abbrev pub IsIn : LengthRange → ℕ → Type 0
IsIn r n = (r.min < uint32_max) × (r.min ≤ n) × ((n ≤ r.max) ⊎ (r.max ≡ uint32_max))

concat_assign-IsIn :
    (r s : LengthRange) (k n m l : ℕ)
    → IsBounded k r
    → IsBounded n s
    → k + n < uint32_max
    → IsIn r m
    → IsIn s l
    → IsIn (concat_assign r s) (m + l)
unfolding concat_assign is_empty
concat_assign-IsIn r s k n m l b b' h i j = ground arith

union_assign-IsIn :
    (r s : LengthRange) (k n m : ℕ)
    → IsBounded k r
    → IsBounded n s
    → k + n < uint32_max
    → IsIn r m ⊎ IsIn s m
    → IsIn (union_assign r s) m
unfolding union_assign is_empty
union_assign-IsIn r s k n m b b' h i = ground arith

zero_plus : (r : LengthRange) (n : ℕ) → IsIn r (0 + n) → IsIn r n
zero_plus r n h = ground arith

not_empty : (r : LengthRange) → r.min < uint32_max → is_empty r ≡ false
unfolding is_empty
not_empty r h = ground arith

-- The parts of an order set, one behind the other.
length-joined :
    {order parts : List Phrase}
    → Reorder order parts
    → length (joined order) ≡ length (joined parts)
length-joined Reorder.nil = refl
length-joined (Reorder.cons a {xs} {ys} r) =
    omega (arith, length-append a (joined xs), length-append a (joined ys), length-joined r)
length-joined (Reorder.swap a b xs) = omega (
  arith,
  length-append a (b ++ joined xs),
  length-append b (joined xs),
  length-append b (a ++ joined xs),
  length-append a (joined xs),
)
length-joined (Reorder.trans r s) = length-joined r ∙ length-joined s

module _ (matches : Text → Text → Type 0) (lib : TextLibrary) (c : QuerySimplifier)
    (splits : (t : Text) → 1 ≤ length (lib.split_spaces t)) where
  parts-InTurn :
      (us : QueryChildren) (parts : List Phrase)
      → PartsLang matches lib c us parts
      → InTurnLang matches lib c us (joined parts)
  parts-InTurn QueryChildren.nil [] h = refl
  parts-InTurn QueryChildren.nil (a ∷ parts) h = absurd h
  parts-InTurn (QueryChildren.cons u us) [] h = absurd h
  parts-InTurn (QueryChildren.cons u us) (a ∷ parts) (x, h) =
      (a, joined parts, refl, x, parts-InTurn us parts h)

  synonym-length :
      (text : Text) (range : List Text) (p : Phrase)
      → Any (λ syn. (syn ≢ text) × (p ≡ lib.split_spaces syn)) range
      → 1 ≤ length p
  synonym-length text [] p h = absurd h
  synonym-length text (syn ∷ range) p (inl (_, e)) = omega (arith, ap length e, splits syn)
  synonym-length text (syn ∷ range) p (inr h) = synonym-length text range p h

  dictionary-length :
      (t : Text) (d : Option (List (Text × Text))) (p : Phrase)
      → SynonymLang matches lib c t d p
      → 1 ≤ length p
  dictionary-length t none p h = absurd h
  dictionary-length t (some entries) p h = synonym-length t (equal_range lib t entries) p h

  mutual
    unfolding length_range terminals

    pub length_range-IsIn :
        (u : QueryUnit) (p : Phrase)
        → terminals u < uint32_max
        → QueryLang matches lib c u p
        → IsIn (length_range u) (length p)
    length_range-IsIn (QueryUnit.word t a) p h (w, e, x) = ground (arith, ap length e)
    length_range-IsIn (QueryUnit.qmark a) p h (w, e, x) = ground (arith, ap length e)
    length_range-IsIn (QueryUnit.star a) p h x = ground arith
    length_range-IsIn (QueryUnit.plus a) p h x = ground arith
    length_range-IsIn (QueryUnit.regex t a) p h (w, e, x) = ground (arith, ap length e)
    length_range-IsIn (QueryUnit.dictset t a) p h (inl (w, e, x)) = ground (arith, ap length e)
    length_range-IsIn (QueryUnit.dictset t a) p h (inr x) =
        ground (arith, dictionary-length (get_text lib c t) c.dictionary p x)
    length_range-IsIn (QueryUnit.orderset a us) p h (parts, order, x, r, e) =
        subst (IsIn (concat_range (between 0 0) us)) (sym (ap length e ∙ length-joined r)) (
          zero_plus (concat_range (between 0 0) us) (length (joined parts)) (
            concat_range-IsIn us (between 0 0) 0 0 (joined parts)
              (inl (omega arith), inl (omega arith)) (omega arith)
              (omega arith, omega arith, inl (omega arith)) (parts-InTurn us parts x)))
    length_range-IsIn (QueryUnit.optionset a us) p h (inl (_, e)) =
        union_range-IsIn us (between 0 0) 0 p (inl (omega arith), inl (omega arith)) (omega arith)
          (inl (omega arith, omega arith, inl (omega (arith, ap length e))))
    length_range-IsIn (QueryUnit.optionset a us) p h (inr x) =
        union_range-IsIn us (between 0 0) 0 p (inl (omega arith), inl (omega arith)) (omega arith)
          (inr x)
    length_range-IsIn (QueryUnit.alternation a us) p h x =
        union_range-IsIn us no_length 0 p (inr refl, inl (omega arith)) (omega arith) (inr x)
    length_range-IsIn (QueryUnit.concat a us) p h x =
        zero_plus (concat_range (between 0 0) us) (length p) (
          concat_range-IsIn us (between 0 0) 0 0 p (inl (omega arith), inl (omega arith))
            (omega arith) (omega arith, omega arith, inl (omega arith)) x)

    concat_range-IsIn :
        (us : QueryChildren) (r : LengthRange) (k m : ℕ) (p : Phrase)
        → IsBounded k r
        → k + terminals_of us < uint32_max
        → IsIn r m
        → InTurnLang matches lib c us p
        → IsIn (concat_range r us) (m + length p)
    concat_range-IsIn QueryChildren.nil r k m p b h i e =
        subst (IsIn r) (omega (arith, ap length e)) i
    concat_range-IsIn (QueryChildren.cons u us) r k m p b h i (x, y, e, f, g) =
        let b' = length_range-IsBounded u (omega arith) in
        let r' = concat_assign r (length_range u) in
        let i' =
          concat_assign-IsIn r (length_range u) k (terminals u) m (length x) b b' (omega arith) i
            (length_range-IsIn u x (omega arith) f) in
        rw (not_empty r' i'.0) (
          subst (IsIn (concat_range r' us)) (omega (arith, ap length e, length-append x y)) (
            concat_range-IsIn us r' (k + terminals u) (m + length x) y
              (concat_assign-IsBounded r (length_range u) k (terminals u) b b' (omega arith))
              (omega arith) i' g))

    union_range-IsIn :
        (us : QueryChildren) (r : LengthRange) (k : ℕ) (p : Phrase)
        → IsBounded k r
        → k + terminals_of us < uint32_max
        → IsIn r (length p) ⊎ AnyOfLang matches lib c us p
        → IsIn (union_range r us) (length p)
    union_range-IsIn QueryChildren.nil r k p b h (inl i) = i
    union_range-IsIn QueryChildren.nil r k p b h (inr x) = absurd x
    union_range-IsIn (QueryChildren.cons u us) r k p b h x =
        let b' = length_range-IsBounded u (omega arith) in
        let r' = union_assign r (length_range u) in
        union_range-IsIn us r' (k + terminals u) p
          (union_assign-IsBounded r (length_range u) k (terminals u) b b') (omega arith)
          (elim x [
            | inl i ↦ inl (
                union_assign-IsIn r (length_range u) k (terminals u) (length p) b b' (omega arith)
                  (inl i))
            | inr (inl f) ↦ inl (
                union_assign-IsIn r (length_range u) k (terminals u) (length p) b b' (omega arith)
                  (inr (length_range-IsIn u p (omega arith) f)))
            | inr (inr g) ↦ inr g
          ])
