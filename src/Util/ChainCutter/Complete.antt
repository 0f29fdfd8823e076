-- ===== src/Util/ChainCutter/Complete.antt =====
-- Which segments the loop over a chain cutter sees.
use netspeak4_application_ng.Prelude.{
  ℕ, zero, suc, ◌+◌, ◌^◌, ◌≡◌, refl, sym, ap, ◌∙◌, List, [], ◌∷◌, ◌++◌, map, arith, length, All,
  Any, inl, inr, subst,
}
use netspeak4_application_ng.Util.ChainCutter.{chain_cutter, all_segments}
use netspeak4_application_ng.Util.ChainCutter.Enumerate.{all_cuts, IsArrangement, all_cuts_complete}
use netspeak4_application_ng.Util.ChainCutter.Segments.{
  segments_of, length-segments_of, sum, sum-segments_of, arrange, arrange-IsArrangement,
  segments-arrange, all_cuts-IsArrangement, all_segments_lem, All-map,
}

Any-map :
    (cs s : List ℕ) (l : List (List ℕ))
    → segments_of 0 s ≡ cs
    → Any (λ r. r ≡ s) l
    → Any (λ r. r ≡ cs) (map (segments_of 0) l)
Any-map cs s [] e h = absurd h
Any-map cs s (r ∷ l) e (inl h) = inl (ap (segments_of 0) h ∙ e)
Any-map cs s (r ∷ l) e (inr h) = inr (Any-map cs s l e h)

split_last :
    (k : ℕ) (cs : List ℕ)
    → length cs ≡ suc k
    → (before : List ℕ) × (rest : ℕ) × (cs ≡ before ++ rest ∷ [])
      × (length before ≡ k)
      × (sum cs ≡ sum before + rest)
unfolding sum
split_last k [] e = absurd (omega arith)
split_last zero (c ∷ []) e = ([], c, refl, refl, omega arith)
split_last zero (c ∷ d ∷ cs) e = absurd (omega arith)
split_last (suc k) (c ∷ cs) e =
    let (before, rest, same, count, total) = split_last k cs (omega arith) in
    (c ∷ before, rest, ap (λ l. c ∷ l) same, omega arith, omega arith)

-- Each round of the loop over a chain cutter sees `k + 1` segments whose sum is the length of the
-- chain, and every list of `k + 1` numbers with that sum is seen in some round.
pub all_segments_complete :
    (k n : ℕ)
    → All (λ cs. (length cs ≡ suc k) × (sum cs ≡ n)) (all_segments (2 ^ (n + k)) (chain_cutter k n))
      × ((cs : List ℕ)
          → length cs ≡ suc k
          → sum cs ≡ n
          → Any (λ r. r ≡ cs) (all_segments (2 ^ (n + k)) (chain_cutter k n)))
all_segments_complete k n = rw (all_segments_lem k n) (
  All-map (IsArrangement n k) (λ cs. (length cs ≡ suc k) × (sum cs ≡ n)) (segments_of 0)
      (all_cuts n k)
      (λ s h. (length-segments_of n k 0 s h, sum-segments_of n k 0 s h ∙ omega arith))
      (all_cuts-IsArrangement n k),
  λ cs count total.
      (let (before, rest, same, len, split) = split_last k cs count in
        let s = arrange before rest in
        let h : IsArrangement n k s =
          subst (λ m. IsArrangement m k s) (omega arith)
            (subst (λ m. IsArrangement (sum before + rest) m s) len
              (arrange-IsArrangement before rest)) in
        Any-map cs s (all_cuts n k) (segments-arrange before rest ∙ sym same)
          (all_cuts_complete n k s h)),
)
