-- ===== src/Util/ChainCutter.antt =====
-- netspeak/util/ChainCutter.hpp: all ways to cut a chain into segments.
pub mod Enumerate
pub mod Segments
pub mod Complete
use netspeak4_application_ng.Prelude.{
  ℕ, zero, suc, ◌+◌, ◌%◌, min, List, [], ◌∷◌, ◌++◌, replicate, Bool, u64_mod, if◌then◌else◌,
}
use netspeak4_application_ng.Util.Math.{binomial}
use netspeak4_application_ng.Util.Permutation.{next_permutation}

pub record ChainCutter : Type 0 where
  pub cuts : ℕ
  pub chain : ℕ
  pub state : List ℕ
  pub output : List ℕ

-- The loop of `set_output`. Its index only grows: the third argument is what stands in the vector
-- from there on. Nothing is written past the end.
pub write_segments : ℕ → List ℕ → List ℕ → List ℕ
write_segments sum [] [] = []
write_segments sum [] (_ ∷ output) = sum ∷ output
write_segments sum (zero ∷ state) output = write_segments (sum + 1) state output
write_segments sum (suc _ ∷ state) [] = []
write_segments sum (suc _ ∷ state) (_ ∷ output) = sum ∷ write_segments 0 state output

pub set_output : ChainCutter → ChainCutter
unfolding write_segments
set_output c = record c { output = write_segments 0 c.state c.output }

-- The constructor.
unfoldable pub chain_cutter : ℕ → ℕ → ChainCutter
unfolding set_output
chain_cutter cuts chain = set_output (record {
  cuts = cuts;
  chain = chain;
  state = replicate chain 0 ++ replicate cuts 1;
  output = replicate (suc cuts) 0;
})

unfoldable pub size : ChainCutter → ℕ
unfolding binomial
size c = binomial ((c.cuts + c.chain) % u64_mod) (min c.cuts c.chain)

abbrev pub segments : ChainCutter → List ℕ
segments c = c.output

pub next : ChainCutter → ChainCutter × Bool
unfolding set_output next_permutation
next c = let (state, n) = next_permutation c.state in (set_output (record c { state = state }), n)

-- The segments that `do { ... } while (cutter.next())` sees, in its rounds up to the fuel.
pub all_segments : ℕ → ChainCutter → List (List ℕ)
all_segments zero c = []
all_segments (suc f) c =
    let (c', more) = next c in
    let rest = all_segments f c' in segments c ∷ (if more then rest else [])
