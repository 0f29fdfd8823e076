-- ===== src/Regex/Query/Characters.antt =====
-- The UTF-8 bytes of characters, sets of characters and words.
use netspeak4_application_ng.Prelude.{
  ℕ, ◌+◌, ◌*◌, ◌%◌, ◌≤◌, ◌<◌, ◌≡◌, ap, ◌∙◌, inl, inr, [], ◌∷◌, ◌++◌, arith, length, Text, u64_mod,
}
use netspeak4_application_ng.Regex.Query.{number_of_utf8_bytes, add_bytes, fewest_bytes, most_bytes}
use netspeak4_application_ng.Regex.Lang.{OneOf}

-- The number of bytes of the UTF-8 encoding of a word.
unfoldable pub utf8_bytes : Text → ℕ
utf8_bytes [] = 0
utf8_bytes (c ∷ cs) = number_of_utf8_bytes c + utf8_bytes cs

utf8_bytes-append : (s t : Text) → utf8_bytes (s ++ t) ≡ utf8_bytes s + utf8_bytes t
unfolding utf8_bytes
utf8_bytes-append [] t = omega arith
utf8_bytes-append (c ∷ s) t = omega (arith, utf8_bytes-append s t)

pub number_of_utf8_bytes_bounds :
    (c : ℕ) → (1 ≤ number_of_utf8_bytes c) × (number_of_utf8_bytes c ≤ 4)
unfolding number_of_utf8_bytes
number_of_utf8_bytes_bounds c = ground arith

pub add_bytes-le : (sum : ℕ) (t : Text) → add_bytes sum t ≤ sum + utf8_bytes t
unfolding add_bytes utf8_bytes
add_bytes-le sum [] = omega arith
add_bytes-le sum (c ∷ cs) =
    omega (arith, add_bytes-le ((sum + number_of_utf8_bytes c) % u64_mod) cs)

fewest_bytes-le : (best : ℕ) (cs : Text) → fewest_bytes best cs ≤ best
unfolding fewest_bytes
fewest_bytes-le best [] = omega arith
fewest_bytes-le best (c ∷ cs) =
    ground (arith, fewest_bytes-le best cs, fewest_bytes-le (number_of_utf8_bytes c) cs)

fewest_bytes-first : (best c : ℕ) (cs : Text) → fewest_bytes best (c ∷ cs) ≤ number_of_utf8_bytes c
unfolding fewest_bytes
fewest_bytes-first best c cs =
    ground (arith, fewest_bytes-le best cs, fewest_bytes-le (number_of_utf8_bytes c) cs)

fewest_bytes-rest :
    (best c d : ℕ) (cs : Text)
    → ((k : ℕ) → fewest_bytes k cs ≤ number_of_utf8_bytes d)
    → fewest_bytes best (c ∷ cs) ≤ number_of_utf8_bytes d
unfolding fewest_bytes
fewest_bytes-rest best c d cs h =
    ground (arith, h best, h (number_of_utf8_bytes c), number_of_utf8_bytes_bounds d)

pub fewest_bytes-one :
    (cs : Text) (d : ℕ) → OneOf cs d → (best : ℕ) → fewest_bytes best cs ≤ number_of_utf8_bytes d
fewest_bytes-one [] d z = absurd z
fewest_bytes-one (c ∷ cs) d (inl e) = λ best. rw e (fewest_bytes-first best c cs)
fewest_bytes-one (c ∷ cs) d (inr o) =
    λ best. fewest_bytes-rest best c d cs (fewest_bytes-one cs d o)

most_bytes-ge : (best : ℕ) (cs : Text) → best ≤ most_bytes best cs
unfolding most_bytes
most_bytes-ge best [] = omega arith
most_bytes-ge best (c ∷ cs) =
    ground (arith, most_bytes-ge best cs, most_bytes-ge (number_of_utf8_bytes c) cs)

pub most_bytes-le : (best : ℕ) (cs : Text) → best ≤ 4 → most_bytes best cs ≤ 4
unfolding most_bytes
most_bytes-le best [] h = h
most_bytes-le best (c ∷ cs) h = ground (
  arith,
  most_bytes-le best cs,
  most_bytes-le (number_of_utf8_bytes c) cs,
  number_of_utf8_bytes_bounds c,
)

most_bytes-first : (best c : ℕ) (cs : Text) → number_of_utf8_bytes c ≤ most_bytes best (c ∷ cs)
unfolding most_bytes
most_bytes-first best c cs =
    ground (arith, most_bytes-ge best cs, most_bytes-ge (number_of_utf8_bytes c) cs)

most_bytes-rest :
    (best c d : ℕ) (cs : Text)
    → ((k : ℕ) → number_of_utf8_bytes d ≤ most_bytes k cs)
    → number_of_utf8_bytes d ≤ most_bytes best (c ∷ cs)
unfolding most_bytes
most_bytes-rest best c d cs h =
    ground (arith, h best, h (number_of_utf8_bytes c), number_of_utf8_bytes_bounds d)

pub most_bytes-one :
    (cs : Text) (d : ℕ) → OneOf cs d → (best : ℕ) → number_of_utf8_bytes d ≤ most_bytes best cs
most_bytes-one [] d z = absurd z
most_bytes-one (c ∷ cs) d (inl e) = λ best. rw e (most_bytes-first best c cs)
most_bytes-one (c ∷ cs) d (inr o) = λ best. most_bytes-rest best c d cs (most_bytes-one cs d o)

-- One character: its bytes.
pub utf8_bytes-single : (w : Text) (c : ℕ) → w ≡ c ∷ [] → utf8_bytes w ≡ number_of_utf8_bytes c
unfolding utf8_bytes
utf8_bytes-single w c e = ap utf8_bytes e ∙ (omega arith)

pub utf8_bytes-parts : (w a b : Text) → w ≡ a ++ b → utf8_bytes w ≡ utf8_bytes a + utf8_bytes b
utf8_bytes-parts w a b q = ap utf8_bytes q ∙ utf8_bytes-append a b

pub utf8_bytes-le : (t : Text) → utf8_bytes t ≤ 4 * length t
unfolding utf8_bytes
utf8_bytes-le [] = omega arith
utf8_bytes-le (c ∷ t) = omega (arith, utf8_bytes-le t, number_of_utf8_bytes_bounds c)

pub add_bytes-exact :
    (sum : ℕ) (t : Text) → sum + utf8_bytes t < u64_mod → add_bytes sum t ≡ sum + utf8_bytes t
unfolding add_bytes utf8_bytes
add_bytes-exact sum [] h = omega arith
add_bytes-exact sum (c ∷ cs) h =
    omega (arith, add_bytes-exact ((sum + number_of_utf8_bytes c) % u64_mod) cs)
