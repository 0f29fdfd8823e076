-- ===== src/Util/ChainCutter/Segments.antt =====
-- The segments that the states of a chain cutter stand for.
use netspeak4_application_ng.Prelude.{
  ℕ, zero, suc, ◌+◌, ◌^◌, ◌≤◌, ◌≡◌, refl, sym, ap, ap₂, some, none, List, [], ◌∷◌, ◌++◌, map, arith,
  length, replicate, All, All-append, ◌∙◌, true, false, subst, length-replicate,
}
use netspeak4_application_ng.Util.Permutation.{next?, next_permutation}
use netspeak4_application_ng.Util.ChainCutter.{
  ChainCutter, chain_cutter, write_segments, set_output, next, all_segments,
}
use netspeak4_application_ng.Util.ChainCutter.Enumerate.{
  all_cuts, Visits, here, step, all_cuts-Visits, IsArrangement, next?-last, length-all_cuts,
}

-- The lengths of the runs of zeros between the ones, the first one longer by `sum`.
pub segments_of : ℕ → List ℕ → List ℕ
segments_of sum [] = sum ∷ []
segments_of sum (zero ∷ state) = segments_of (sum + 1) state
segments_of sum (suc _ ∷ state) = sum ∷ segments_of 0 state

-- `set_output` writes them, whatever the vector held before, if it is of the right length.
write_segments_lem :
    (sum : ℕ) (state output : List ℕ)
    → length output ≡ length (segments_of sum state)
    → write_segments sum state output ≡ segments_of sum state
unfolding write_segments segments_of
write_segments_lem sum [] [] h = absurd (omega arith)
write_segments_lem sum [] (x ∷ []) h = refl
write_segments_lem sum [] (x ∷ y ∷ output) h = absurd (omega arith)
write_segments_lem sum (zero ∷ state) output h = write_segments_lem (sum + 1) state output h
write_segments_lem sum (suc _ ∷ state) [] h = absurd (omega arith)
write_segments_lem sum (suc _ ∷ state) (x ∷ output) h =
    ap (λ l. sum ∷ l) (write_segments_lem 0 state output (omega arith))

pub length-segments_of :
    (n k sum : ℕ) (s : List ℕ) → IsArrangement n k s → length (segments_of sum s) ≡ suc k
unfolding segments_of
length-segments_of n k sum [] (e, d) = omega arith
length-segments_of n k sum (zero ∷ s) (m, e, h) = length-segments_of m k (sum + 1) s h
length-segments_of n k sum (suc zero ∷ s) (m, e, h) = omega (arith, length-segments_of n m 0 s h)
length-segments_of n k sum (suc (suc _) ∷ s) h = absurd h

unfoldable pub sum : List ℕ → ℕ
sum [] = 0
sum (c ∷ cs) = c + sum cs

-- The segments make up the whole chain.
pub sum-segments_of :
    (n k from : ℕ) (s : List ℕ) → IsArrangement n k s → sum (segments_of from s) ≡ from + n
unfolding segments_of sum
sum-segments_of n k from [] (e, d) = omega arith
sum-segments_of n k from (zero ∷ s) (m, e, h) = omega (arith, sum-segments_of m k (from + 1) s h)
sum-segments_of n k from (suc zero ∷ s) (m, e, h) = omega (arith, sum-segments_of n m 0 s h)
sum-segments_of n k from (suc (suc _) ∷ s) h = absurd h

-- The arrangement that stands for given segments, the last of which is `rest`.
pub arrange : List ℕ → ℕ → List ℕ
arrange [] rest = replicate rest 0
arrange (zero ∷ cs) rest = 1 ∷ arrange cs rest
arrange (suc c ∷ cs) rest = 0 ∷ arrange (c ∷ cs) rest

pub arrange-IsArrangement :
    (cs : List ℕ) (rest : ℕ) → IsArrangement (sum cs + rest) (length cs) (arrange cs rest)
unfolding arrange sum
arrange-IsArrangement [] zero = (omega arith, refl)
arrange-IsArrangement [] (suc rest) = (
  rest,
  omega arith,
  subst (λ t. IsArrangement t 0 (replicate rest 0)) (omega arith) (arrange-IsArrangement [] rest),
)
arrange-IsArrangement (zero ∷ cs) rest = (
  length cs,
  refl,
  subst (λ t. IsArrangement t (length cs) (arrange cs rest)) (omega arith)
      (arrange-IsArrangement cs rest),
)
arrange-IsArrangement (suc c ∷ cs) rest =
    (c + sum cs + rest, omega arith, arrange-IsArrangement (c ∷ cs) rest)

segments-zeros : (from rest : ℕ) → segments_of from (replicate rest 0) ≡ (from + rest) ∷ []
unfolding segments_of
segments-zeros from zero = ap (λ t. t ∷ []) (omega arith)
segments-zeros from (suc rest) = segments-zeros (from + 1) rest ∙ ap (λ t. t ∷ []) (omega arith)

segments-arrange_from :
    (from c : ℕ) (cs : List ℕ) (rest : ℕ)
    → segments_of from (arrange (c ∷ cs) rest) ≡ (from + c) ∷ segments_of 0 (arrange cs rest)
unfolding segments_of arrange
segments-arrange_from from zero cs rest =
    ap (λ t. t ∷ segments_of 0 (arrange cs rest)) (omega arith)
segments-arrange_from from (suc c) cs rest =
    segments-arrange_from (from + 1) c cs rest
    ∙ ap (λ t. t ∷ segments_of 0 (arrange cs rest)) (omega arith)

-- The segments of the arrangement for given segments are those.
pub segments-arrange : (cs : List ℕ) (rest : ℕ) → segments_of 0 (arrange cs rest) ≡ cs ++ rest ∷ []
unfolding arrange
segments-arrange [] rest = segments-zeros 0 rest ∙ ap (λ t. t ∷ []) (omega arith)
segments-arrange (c ∷ cs) rest =
    segments-arrange_from 0 c cs rest ∙ ap₂ (λ t l. t ∷ l) (omega arith) (segments-arrange cs rest)

zeros-IsArrangement : (n : ℕ) → IsArrangement n 0 (replicate n 0)
zeros-IsArrangement zero = (refl, refl)
zeros-IsArrangement (suc n) = (n, refl, zeros-IsArrangement n)

ones-IsArrangement : (k : ℕ) → IsArrangement 0 k (replicate k 1)
ones-IsArrangement zero = (refl, refl)
ones-IsArrangement (suc k) = (k, refl, ones-IsArrangement k)

pub All-map :
    (P Q : List ℕ → Type 0) (f : List ℕ → List ℕ) (l : List (List ℕ))
    → ((s : List ℕ) → P s → Q (f s))
    → All P l
    → All Q (map f l)
All-map P Q f [] k h = tt
All-map P Q f (s ∷ l) k (h, hs) = (k s h, All-map P Q f l k hs)

pub all_cuts-IsArrangement : (n k : ℕ) → All (IsArrangement n k) (all_cuts n k)
unfolding all_cuts
all_cuts-IsArrangement zero k = (ones-IsArrangement k, tt)
all_cuts-IsArrangement (suc n) zero = (zeros-IsArrangement (suc n), tt)
all_cuts-IsArrangement (suc n) (suc k) =
    All-append (IsArrangement (suc n) (suc k)) (map (λ s. 0 ∷ s) (all_cuts n (suc k)))
      (map (λ s. 1 ∷ s) (all_cuts (suc n) k))
      (All-map (IsArrangement n (suc k)) (IsArrangement (suc n) (suc k)) (λ s. 0 ∷ s)
        (all_cuts n (suc k)) (λ s h. (n, refl, h)) (all_cuts-IsArrangement n (suc k)))
      (All-map (IsArrangement (suc n) k) (IsArrangement (suc n) (suc k)) (λ s. 1 ∷ s)
        (all_cuts (suc n) k) (λ s h. (k, refl, h)) (all_cuts-IsArrangement (suc n) k))

abbrev at_state : ChainCutter → List ℕ → ChainCutter
at_state c s = record c { state = s; output = segments_of 0 s }

-- The output of the next state, where the vector has room for as many segments.
next-at_state :
    (c : ChainCutter) (n k : ℕ) (s s' : List ℕ)
    → IsArrangement n k s
    → IsArrangement n k s'
    → next? s ≡ some s'
    → next (at_state c s) ≡ (at_state c s', true)
unfolding next next_permutation
next-at_state c n k s s' h h' e = rw e (
    ap (λ (o : List ℕ). (record c { state = s'; output = o }, true))
      (write_segments_lem 0 s' (segments_of 0 s)
        (length-segments_of n k 0 s h ∙ sym (length-segments_of n k 0 s' h'))))

next-last_state : (c : ChainCutter) (s : List ℕ) → next? s ≡ none → (next (at_state c s)).1 ≡ false
unfolding next next_permutation
next-last_state c s e = rw e

Visits-head :
    (P : List ℕ → Type 0) {s t : List ℕ} {l : List (List ℕ)} → Visits s l t → All P l → P s
Visits-head P here (h, _) = h
Visits-head P (step e v) (h, _) = h

all_segments-Visits :
    (c : ChainCutter) (n k f : ℕ) {s t : List ℕ} {l : List (List ℕ)}
    → Visits s l t
    → All (IsArrangement n k) l
    → next? t ≡ none
    → length l ≤ f
    → all_segments f (at_state c s) ≡ map (segments_of 0) l
unfolding all_segments
all_segments-Visits c n k zero here h e room = absurd (omega arith)
all_segments-Visits c n k zero (step d v) h e room = absurd (omega arith)
all_segments-Visits c n k (suc f) {s} here h e room = rw (next-last_state c s e)
all_segments-Visits c n k (suc f) {s} (step {s' = r} d v) (h, hs) e room =
    rw (next-at_state c n k s r h (Visits-head (IsArrangement n k) v hs) d)
      (ap (λ l. segments_of 0 s ∷ l) (all_segments-Visits c n k f v hs e (omega arith)))

replicate-IsArrangement : (n k : ℕ) → IsArrangement n k (replicate n 0 ++ replicate k 1)
replicate-IsArrangement zero k = ones-IsArrangement k
replicate-IsArrangement (suc n) k = (n, refl, replicate-IsArrangement n k)

-- With fuel 2 ^ (n + k), the loop over a chain cutter with k cuts and n units ends, and its rounds
-- see the segments of the arrangements that `all_cuts n k` lists, in that order.
pub all_segments_lem :
    (k n : ℕ) → all_segments (2 ^ (n + k)) (chain_cutter k n) ≡ map (segments_of 0) (all_cuts n k)
unfolding chain_cutter set_output
all_segments_lem k n =
    let s : List ℕ = replicate n 0 ++ replicate k 1 in
    let c : ChainCutter = record { cuts = k; chain = n; state = s; output = replicate (suc k) 0 } in
    ap (λ (o : List ℕ). all_segments (2 ^ (n + k)) (record c { output = o }))
      (write_segments_lem 0 s (replicate (suc k) 0) (
        length-replicate (suc k) 0
        ∙ sym (length-segments_of n k 0 s (replicate-IsArrangement n k))))
    ∙ all_segments-Visits c n k (2 ^ (n + k)) (all_cuts-Visits n k) (all_cuts-IsArrangement n k)
        (next?-last k n) (length-all_cuts n k)
