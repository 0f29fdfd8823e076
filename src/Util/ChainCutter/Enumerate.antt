-- ===== src/Util/ChainCutter/Enumerate.antt =====
-- The states that a chain cutter goes through: every arrangement of its zeros and ones, once.
use netspeak4_application_ng.Prelude.{
  ℕ, zero, suc, ◌+◌, ◌^◌, ◌≤◌, ◌≡◌, refl, sym, ap, List, [], ◌∷◌, ◌++◌, map, reverse, none, some,
  arith, length, length-append, replicate, Any, Any-append_iff, inl, inr, ◌∙◌, append-nil, subst,
}
use mathlib.Core.List.{reverse-append}
use native.Mathlib.Nat.{two-pow-succ, pow-le-pow_right}
use netspeak4_application_ng.Util.Permutation.{next?, replace_last_greater}

-- The arrangements of `n` zeros and `k` ones, in lexicographic order.
unfoldable pub all_cuts : ℕ → ℕ → List (List ℕ)
all_cuts zero k = replicate k 1 ∷ []
all_cuts (suc n) zero = replicate (suc n) 0 ∷ []
all_cuts (suc n) (suc k) =
    map (λ s. 0 ∷ s) (all_cuts n (suc k)) ++ map (λ s. 1 ∷ s) (all_cuts (suc n) k)

-- `Visits s l t`: going on from state `s` passes through the states `l`, of which `t` is the last.
pub data Visits : List ℕ → List (List ℕ) → List ℕ → Type 0 where
  here : {s : List ℕ} → Visits s (s ∷ []) s
  step :
      {s s' t : List ℕ} {l : List (List ℕ)} → next? s ≡ some s' → Visits s' l t → Visits s (s ∷ l) t

Visits-cons :
    (x : ℕ) {s t : List ℕ} {l : List (List ℕ)}
    → Visits s l t
    → Visits (x ∷ s) (map (λ r. x ∷ r) l) (x ∷ t)
unfolding next?
Visits-cons x here = here
Visits-cons x (step e v) = step (rw e) (Visits-cons x v)

Visits-append :
    {s t s' t' : List ℕ} {l l' : List (List ℕ)}
    → Visits s l t
    → next? t ≡ some s'
    → Visits s' l' t'
    → Visits s (l ++ l') t'
Visits-append here e w = step e w
Visits-append (step d v) e w = step d (Visits-append v e w)

replace-zeros : (x n : ℕ) → replace_last_greater x (replicate n 0) ≡ none
unfolding replace_last_greater
replace-zeros x zero = refl
replace-zeros x (suc n) = rw (replace-zeros x n) (ground arith)

replace-one : (k n : ℕ) → replace_last_greater 1 (replicate k 1 ++ replicate n 0) ≡ none
unfolding replace_last_greater
replace-one zero n = replace-zeros 1 n
replace-one (suc k) n = rw (replace-one k n)

replace-zero :
    (k n : ℕ)
    → replace_last_greater 0 (replicate (suc k) 1 ++ replicate n 0)
      ≡ some (1, replicate k 1 ++ replicate (suc n) 0)
unfolding replace_last_greater
replace-zero zero n = rw (replace-zeros 0 n, replace_last_greater)
replace-zero (suc k) n = rw (replace-zero k n)

-- The last state has no successor.
pub next?-last : (k n : ℕ) → next? (replicate k 1 ++ replicate n 0) ≡ none
unfolding next?
next?-last zero zero = refl
next?-last zero (suc n) = rw (next?-last zero n) (rw (replace-zeros 0 n))
next?-last (suc k) n = rw (next?-last k n) (rw (replace-one k n))

replicate_snoc : (n x : ℕ) → replicate n x ++ x ∷ [] ≡ replicate (suc n) x
replicate_snoc zero x = refl
replicate_snoc (suc n) x = ap (λ l. x ∷ l) (replicate_snoc n x)

reverse-replicate : (n x : ℕ) → reverse (replicate n x) ≡ replicate n x
reverse-replicate zero x = refl
reverse-replicate (suc n) x =
    rw (reverse-append (x ∷ []) (replicate n x)) (rw (reverse-replicate n x) (replicate_snoc n x))

reverse-blocks :
    (k x n y : ℕ) → reverse (replicate k x ++ replicate n y) ≡ replicate n y ++ replicate k x
reverse-blocks k x n y =
    rw (reverse-append (replicate k x) (replicate n y))
      (rw (reverse-replicate n y) (rw (reverse-replicate k x) refl))

-- Where the leading zero has to give way to a one.
next?-turn :
    (n k : ℕ)
    → next? (0 ∷ (replicate (suc k) 1 ++ replicate n 0))
      ≡ some (1 ∷ (replicate (suc n) 0 ++ replicate k 1))
unfolding next?
next?-turn n k =
    rw (next?-last (suc k) n, next?)
      (rw (replace-zero k n, replace_last_greater)
        (ap (λ (s : List ℕ). some (1 ∷ s)) (reverse-blocks k 1 (suc n) 0)))

-- A chain cutter starts at the first arrangement, and goes through all of them to the last one.
pub all_cuts-Visits :
    (n k : ℕ)
    → Visits (replicate n 0 ++ replicate k 1) (all_cuts n k) (replicate k 1 ++ replicate n 0)
unfolding all_cuts
all_cuts-Visits zero k =
    subst (λ t. Visits (replicate k 1) (replicate k 1 ∷ []) t) (sym (append-nil (replicate k 1)))
      here
all_cuts-Visits (suc n) zero =
    subst (λ s. Visits s (replicate (suc n) 0 ∷ []) (replicate (suc n) 0))
      (sym (append-nil (replicate (suc n) 0))) here
all_cuts-Visits (suc n) (suc k) =
    Visits-append (Visits-cons 0 (all_cuts-Visits n (suc k))) (next?-turn n k)
      (Visits-cons 1 (all_cuts-Visits (suc n) k))

length-map : (x : ℕ) (l : List (List ℕ)) → length (map (λ s. x ∷ s) l) ≡ length l
length-map x [] = refl
length-map x (s ∷ l) = ap suc (length-map x l)

pow-split : (n k : ℕ) → 2 ^ (suc n + suc k) ≡ 2 ^ (n + suc k) + 2 ^ (suc n + k)
pow-split n k =
    ap (λ (t : ℕ). 2 ^ t) (omega arith)
    ∙ two-pow-succ (n + suc k)
    ∙ ap (λ (t : ℕ). 2 ^ (n + suc k) + 2 ^ t) (omega arith)

one-le-pow : (m : ℕ) → 1 ≤ 2 ^ m
one-le-pow m = pow-le-pow_right {n = 2} (omega arith) {i = 0} {j = m} (omega arith)

-- There are no more arrangements than the fuel that the loop over them is given.
pub length-all_cuts : (n k : ℕ) → length (all_cuts n k) ≤ 2 ^ (n + k)
unfolding all_cuts
length-all_cuts zero k = one-le-pow (0 + k)
length-all_cuts (suc n) zero = one-le-pow (suc n + 0)
length-all_cuts (suc n) (suc k) = omega (
  arith,
  pow-split n k,
  length-append (map (λ s. 0 ∷ s) (all_cuts n (suc k))) (map (λ s. 1 ∷ s) (all_cuts (suc n) k)),
  length-map 0 (all_cuts n (suc k)),
  length-map 1 (all_cuts (suc n) k),
  length-all_cuts n (suc k),
  length-all_cuts (suc n) k,
)

-- A list that has the given numbers of zeros and of ones.
abbrev pub IsArrangement : ℕ → ℕ → List ℕ → Type 0
IsArrangement n k [] = (n ≡ 0) × (k ≡ 0)
IsArrangement n k (zero ∷ s) = (m : ℕ) × (n ≡ suc m) × IsArrangement m k s
IsArrangement n k (suc zero ∷ s) = (m : ℕ) × (k ≡ suc m) × IsArrangement n m s
IsArrangement n k (suc (suc _) ∷ s) = ⊥

Any-map :
    (x : ℕ) (s : List ℕ) (l : List (List ℕ))
    → Any (λ r. r ≡ s) l
    → Any (λ r. r ≡ x ∷ s) (map (λ r. x ∷ r) l)
Any-map x s [] h = absurd h
Any-map x s (r ∷ l) (inl e) = inl (ap (λ t. x ∷ t) e)
Any-map x s (r ∷ l) (inr h) = inr (Any-map x s l h)

-- The one arrangement of ones alone, and of zeros alone.
only_ones : (k : ℕ) (s : List ℕ) → IsArrangement 0 k s → replicate k 1 ≡ s
only_ones k [] (_, e) = rw e
only_ones k (zero ∷ s) (m, e, h) = cc
only_ones k (suc zero ∷ s) (m, e, h) = rw e (ap (λ t. 1 ∷ t) (only_ones m s h))
only_ones k (suc (suc x) ∷ s) h = absurd h

only_zeros : (n : ℕ) (s : List ℕ) → IsArrangement n 0 s → replicate n 0 ≡ s
only_zeros n [] (e, _) = rw e
only_zeros n (zero ∷ s) (m, e, h) = rw e (ap (λ t. 0 ∷ t) (only_zeros m s h))
only_zeros n (suc zero ∷ s) (m, e, h) = cc
only_zeros n (suc (suc x) ∷ s) h = absurd h

-- Every arrangement is visited.
pub all_cuts_complete :
    (n k : ℕ) (s : List ℕ) → IsArrangement n k s → Any (λ r. r ≡ s) (all_cuts n k)
unfolding all_cuts
all_cuts_complete zero k s h = inl (only_ones k s h)
all_cuts_complete (suc n) zero s h = inl (only_zeros (suc n) s h)
all_cuts_complete (suc n) (suc k) [] (e, _) = cc
all_cuts_complete (suc n) (suc k) (zero ∷ s) (m, e, h) =
    (Any-append_iff (λ r. r ≡ 0 ∷ s) (map (λ r. 0 ∷ r) (all_cuts n (suc k)))
        (map (λ r. 1 ∷ r) (all_cuts (suc n) k))).1
      (inl (
        Any-map 0 s (all_cuts n (suc k))
          (all_cuts_complete n (suc k) s (subst (λ t. IsArrangement t (suc k) s) (omega arith) h))))
all_cuts_complete (suc n) (suc k) (suc zero ∷ s) (m, e, h) =
    (Any-append_iff (λ r. r ≡ 1 ∷ s) (map (λ r. 0 ∷ r) (all_cuts n (suc k)))
        (map (λ r. 1 ∷ r) (all_cuts (suc n) k))).1
      (inr (
        Any-map 1 s (all_cuts (suc n) k)
          (all_cuts_complete (suc n) k s (subst (λ t. IsArrangement (suc n) t s) (omega arith) h))))
all_cuts_complete (suc n) (suc k) (suc (suc x) ∷ s) h = absurd h
