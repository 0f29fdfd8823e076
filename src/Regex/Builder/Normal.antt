-- ===== src/Regex/Builder/Normal.antt =====
-- The form in which RegexQueryBuilder keeps its units.
use netspeak4_application_ng.Prelude.{
  ℕ, zero, suc, ◌<◌, ◌≡◌, ◌≢◌, List, [], ◌∷◌, ◌++◌, arith, length, length-append, Text,
  if◌then◌else◌, ◌==◌, Bool, true, false,
}
use netspeak4_application_ng.Regex.Query.{RegexUnit, qmark, star, word, char_set, optional_word}
use netspeak4_application_ng.Regex.Builder.{
  RegexQueryBuilder, pop_trailing, push_qmarks, remove_trailing_optional_words, without_duplicates,
  optimize_unit, join, add_to_units, add_optimized, add, add_all,
}
use netspeak4_application_ng.Regex.Builder.Duplicates.{Ascending, without_duplicates-Ascending}

-- No empty words, and sets of at least two characters, each given once and in order.
abbrev pub IsProper : RegexUnit → Type 0
IsProper (word t) = 0 < length t
IsProper (optional_word t) = 0 < length t
IsProper (char_set cs) = (1 < length cs) × Ascending cs
IsProper qmark = Unit
IsProper star = Unit

-- Which unit may stand directly behind which: words are merged, and what a star absorbs or passes
-- does not stand beside it.
abbrev pub MayPrecede : RegexUnit → RegexUnit → Type 0
MayPrecede (word s) (word t) = ⊥
MayPrecede star qmark = ⊥
MayPrecede star star = ⊥
MayPrecede star (optional_word t) = ⊥
MayPrecede (optional_word s) star = ⊥
MayPrecede prev u = Unit

abbrev MayFollow : List RegexUnit → RegexUnit → Type 0
MayFollow [] u = Unit
MayFollow (prev ∷ us) u = MayPrecede prev u

-- The last unit stands first.
abbrev pub IsNormal : List RegexUnit → Type 0
IsNormal [] = Unit
IsNormal (u ∷ us) = IsProper u × MayFollow us u × IsNormal us

abbrev Trimmed : List RegexUnit × ℕ → Type 0
Trimmed (us, k) = IsNormal us × MayFollow us qmark × MayFollow us star

-- Behind what takes a question mark or an optional word there is no star.
no_star : (us : List RegexUnit) (t : Text) → MayFollow us (optional_word t) → MayFollow us qmark
no_star [] t h = tt
no_star (word s ∷ us) t h = tt
no_star (char_set s ∷ us) t h = tt
no_star (optional_word s ∷ us) t h = tt
no_star (qmark ∷ us) t h = tt
no_star (star ∷ us) t h = h

pop_trailing-Trimmed :
    (k : ℕ) (us : List RegexUnit) → IsNormal us → MayFollow us qmark → Trimmed (pop_trailing k us)
unfolding pop_trailing
pop_trailing-Trimmed k [] h f = (tt, tt, tt)
pop_trailing-Trimmed k (qmark ∷ us) (_, g, h) f = pop_trailing-Trimmed (suc k) us h g
pop_trailing-Trimmed k (optional_word t ∷ us) (_, g, h) f =
    pop_trailing-Trimmed k us h (no_star us t g)
pop_trailing-Trimmed k (star ∷ us) h f = absurd f
pop_trailing-Trimmed k (word t ∷ us) h f = (h, tt, tt)
pop_trailing-Trimmed k (char_set t ∷ us) h f = (h, tt, tt)

push_qmarks-IsNormal :
    (us : List RegexUnit) (k : ℕ)
    → Trimmed (us, k)
    → IsNormal (push_qmarks (us, k))
      × MayFollow (push_qmarks (us, k)) qmark
      × MayFollow (push_qmarks (us, k)) star
unfolding push_qmarks
push_qmarks-IsNormal us zero h = h
push_qmarks-IsNormal us (suc k) h =
    let (n, f, _) = push_qmarks-IsNormal us k h in ((tt, f, n), tt, tt)

star-IsNormal :
    (us : List RegexUnit)
    → IsNormal us
    → MayFollow us qmark
    → IsNormal (star ∷ remove_trailing_optional_words us)
unfolding remove_trailing_optional_words
star-IsNormal us h f =
    let (vs, k) = pop_trailing 0 us in
    let (n, _, g) = push_qmarks-IsNormal vs k (pop_trailing-Trimmed 0 us h f) in (tt, g, n)

qmark-follows : (us : List RegexUnit) → MayFollow us star → MayFollow us qmark
qmark-follows [] h = tt
qmark-follows (word s ∷ us) h = tt
qmark-follows (char_set s ∷ us) h = tt
qmark-follows (optional_word s ∷ us) h = tt
qmark-follows (qmark ∷ us) h = tt
qmark-follows (star ∷ us) h = h

word-follows : (us : List RegexUnit) (s t : Text) → MayFollow us (word s) → MayFollow us (word t)
word-follows [] s t h = tt
word-follows (word r ∷ us) s t h = h
word-follows (char_set r ∷ us) s t h = tt
word-follows (optional_word r ∷ us) s t h = tt
word-follows (qmark ∷ us) s t h = tt
word-follows (star ∷ us) s t h = tt

join-IsNormal :
    (prev : RegexUnit) (us : List RegexUnit) (u : RegexUnit)
    → IsNormal (prev ∷ us)
    → IsProper u
    → IsNormal (join prev us u)
unfolding join
join-IsNormal (word s) us (word t) (p, f, n) q =
    (omega (arith, length-append s t), word-follows us s (s ++ t) f, n)
join-IsNormal star us qmark (p, f, n) q = (tt, tt, (tt, qmark-follows us f, n))
join-IsNormal star us star h q = h
join-IsNormal star us (optional_word t) h q = h
join-IsNormal (optional_word s) us star h q = star-IsNormal (optional_word s ∷ us) h tt
join-IsNormal qmark us star h q = star-IsNormal (qmark ∷ us) h tt
join-IsNormal prev us u h q = (q, tt, h)

add_to_units-IsNormal :
    (us : List RegexUnit) (u : RegexUnit) → IsNormal us → IsProper u → IsNormal (add_to_units us u)
unfolding add_to_units
add_to_units-IsNormal [] u h q = (q, tt, tt)
add_to_units-IsNormal (prev ∷ us) u h q = join-IsNormal prev us u h q

-- What optimize_unit leaves of a set that is not empty.
abbrev IsOptimized : RegexUnit → Type 0
IsOptimized (char_set cs) = (length cs ≢ 1) × Ascending cs
IsOptimized u = Unit

as_word-IsOptimized :
    (set : Text) → Ascending set → IsOptimized (if length set == 1 then word set else char_set set)
as_word-IsOptimized [] h = (omega arith, tt)
as_word-IsOptimized (c ∷ []) h = tt
as_word-IsOptimized (c ∷ d ∷ set) h = rw (two set) ((omega arith), h)
  where
    two : (t : Text) → (suc (suc (length t)) == 1) ≡ false
    two t = ground arith

optimize_unit-IsOptimized : (u : RegexUnit) → IsOptimized (optimize_unit u)
unfolding optimize_unit
optimize_unit-IsOptimized (char_set cs) =
    as_word-IsOptimized (without_duplicates cs) (without_duplicates-Ascending cs)
optimize_unit-IsOptimized qmark = tt
optimize_unit-IsOptimized star = tt
optimize_unit-IsOptimized (word t) = tt
optimize_unit-IsOptimized (optional_word t) = tt

add_optimized-IsNormal :
    (b : RegexQueryBuilder) (u : RegexUnit)
    → IsOptimized u
    → IsNormal b.units
    → IsNormal (add_optimized b u).units
unfolding add_optimized
add_optimized-IsNormal b (word []) o h = h
add_optimized-IsNormal b (word (c ∷ t)) o h =
    add_to_units-IsNormal b.units (word (c ∷ t)) h (omega arith)
add_optimized-IsNormal b (optional_word []) o h = h
add_optimized-IsNormal b (optional_word (c ∷ t)) o h =
    add_to_units-IsNormal b.units (optional_word (c ∷ t)) h (omega arith)
add_optimized-IsNormal b (char_set []) o h = h
add_optimized-IsNormal b (char_set (c ∷ [])) (o, _) h = absurd (o (omega arith))
add_optimized-IsNormal b (char_set (c ∷ d ∷ t)) (_, o) h =
    add_to_units-IsNormal b.units (char_set (c ∷ d ∷ t)) h (omega arith, o)
add_optimized-IsNormal b qmark o h = add_to_units-IsNormal b.units qmark h tt
add_optimized-IsNormal b star o h = add_to_units-IsNormal b.units star h tt

add-units-IsNormal :
    (us : List RegexUnit) (r : Bool) (u : RegexUnit)
    → IsNormal us
    → IsNormal (add (record { units = us; reject_all = r }) u).units
unfolding add
add-units-IsNormal us true u h = h
add-units-IsNormal us false u h =
    add_optimized-IsNormal (record { units = us; reject_all = false }) (optimize_unit u)
      (optimize_unit-IsOptimized u) h

-- Adding any unit keeps the units of a builder in normal form: no empty words, sets of two
-- characters or more in strictly ascending order, no word behind a word, no question mark, star or
-- optional word behind a star, and no star behind an optional word.
pub add-IsNormal :
    (b : RegexQueryBuilder) (u : RegexUnit) → IsNormal b.units → IsNormal (add b u).units
add-IsNormal b u h = add-units-IsNormal b.units b.reject_all u h

pub add_all-IsNormal :
    (b : RegexQueryBuilder) (us : List RegexUnit) → IsNormal b.units → IsNormal (add_all b us).units
unfolding add_all
add_all-IsNormal b [] h = h
add_all-IsNormal b (u ∷ us) h = add_all-IsNormal (add b u) us (add-IsNormal b u h)
