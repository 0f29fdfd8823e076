-- ===== src/Regex/Query/Bytes.antt =====
-- The bounds on the number of UTF-8 bytes of an accepted word.
use netspeak4_application_ng.Prelude.{
  ℕ, ◌+◌, ◌*◌, ◌%◌, ◌≤◌, ◌<◌, ◌≡◌, refl, ap, ◌⊎◌, inl, inr, List, [], ◌∷◌, ◌++◌, arith, length,
  Text, u64_mod, uint64_max,
}
use netspeak4_application_ng.Regex.Query.{
  RegexUnit, qmark, star, word, char_set, optional_word, RegexQuery, add_bytes, fewest_bytes,
  most_bytes, min_bytes_from, max_bytes_from, min_utf8_input_length, max_utf8_input_length,
}
use netspeak4_application_ng.Regex.Lang.{UnitsLang, RegexLang}
use netspeak4_application_ng.Regex.Query.Characters.{
  utf8_bytes, number_of_utf8_bytes_bounds, add_bytes-le, fewest_bytes-one, most_bytes-one,
  most_bytes-le, utf8_bytes-single, utf8_bytes-parts, utf8_bytes-le, add_bytes-exact,
}

min_bytes_from-le :
    (sum : ℕ) (us : List RegexUnit) (w : Text)
    → UnitsLang us w
    → min_bytes_from sum us ≤ sum + utf8_bytes w
unfolding min_bytes_from
min_bytes_from-le sum [] w h = omega arith
min_bytes_from-le sum (word t ∷ us) w (a, b, q, e, y) = omega (
  arith,
  utf8_bytes-parts w a b q,
  ap utf8_bytes e,
  add_bytes-le sum t,
  min_bytes_from-le (add_bytes sum t) us b y,
)
min_bytes_from-le sum (qmark ∷ us) w (a, b, q, (c, e), y) = omega (
  arith,
  utf8_bytes-parts w a b q,
  utf8_bytes-single a c e,
  number_of_utf8_bytes_bounds c,
  min_bytes_from-le ((sum + 1) % u64_mod) us b y,
)
min_bytes_from-le sum (char_set [] ∷ us) w (a, b, q, (c, e, z), y) = absurd z
min_bytes_from-le sum (char_set (d ∷ cs) ∷ us) w (a, b, q, (c, e, o), y) = omega (
  arith,
  utf8_bytes-parts w a b q,
  utf8_bytes-single a c e,
  fewest_bytes-one (d ∷ cs) c o uint64_max,
  min_bytes_from-le ((sum + fewest_bytes uint64_max (d ∷ cs)) % u64_mod) us b y,
)
min_bytes_from-le sum (star ∷ us) w (a, b, q, _, y) =
    omega (arith, utf8_bytes-parts w a b q, min_bytes_from-le sum us b y)
min_bytes_from-le sum (optional_word t ∷ us) w (a, b, q, _, y) =
    omega (arith, utf8_bytes-parts w a b q, min_bytes_from-le sum us b y)

-- The number of characters that the loop for the greatest length counts four bytes for, at most.
unfoldable pub characters : List RegexUnit → ℕ
characters [] = 0
characters (word t ∷ us) = length t + characters us
characters (optional_word t ∷ us) = length t + characters us
characters (qmark ∷ us) = 1 + characters us
characters (char_set t ∷ us) = 1 + characters us
characters (star ∷ us) = characters us

-- The greatest number, or an upper bound for the bytes counted so far and those of the word.
abbrev Covers : ℕ → ℕ → Text → Type 0
Covers result sum w = (result ≡ uint64_max) ⊎ (sum + utf8_bytes w ≤ result)

Covers-step :
    (result sum sum' : ℕ) (w a b : Text)
    → w ≡ a ++ b
    → sum + utf8_bytes a ≤ sum'
    → Covers result sum' b
    → Covers result sum w
Covers-step result sum sum' w a b q h (inl e) = inl e
Covers-step result sum sum' w a b q h (inr k) = inr (omega (arith, utf8_bytes-parts w a b q))

max_bytes_from-Covers :
    (sum : ℕ) (us : List RegexUnit) (w : Text)
    → UnitsLang us w
    → sum + 4 * characters us < u64_mod
    → Covers (max_bytes_from sum us) sum w
unfolding max_bytes_from characters
max_bytes_from-Covers sum [] w h k = inr (omega (arith, ap utf8_bytes h, empty_bytes))
  where
    empty_bytes : utf8_bytes [] ≡ 0
    empty_bytes = unfold utf8_bytes in refl
max_bytes_from-Covers sum (word t ∷ us) w (a, b, q, e, y) k =
    let exact : add_bytes sum t ≡ sum + utf8_bytes t =
      add_bytes-exact sum t (omega (arith, utf8_bytes-le t)) in
    Covers-step _ sum (add_bytes sum t) w a b q (omega (arith, ap utf8_bytes e))
      (max_bytes_from-Covers (add_bytes sum t) us b y (omega (arith, utf8_bytes-le t)))
max_bytes_from-Covers sum (optional_word t ∷ us) w (a, b, q, o, y) k =
    let exact : add_bytes sum t ≡ sum + utf8_bytes t =
      add_bytes-exact sum t (omega (arith, utf8_bytes-le t)) in
    Covers-step _ sum (add_bytes sum t) w a b q (at_most exact o)
      (max_bytes_from-Covers (add_bytes sum t) us b y (omega (arith, utf8_bytes-le t)))
  where
    at_most :
        add_bytes sum t ≡ sum + utf8_bytes t
        → (a ≡ []) ⊎ (a ≡ t)
        → sum + utf8_bytes a ≤ add_bytes sum t
    at_most h (inl e) = omega (arith, ap utf8_bytes e, empty_bytes)
      where
        empty_bytes : utf8_bytes [] ≡ 0
        empty_bytes = unfold utf8_bytes in refl
    at_most h (inr e) = omega (arith, ap utf8_bytes e)
max_bytes_from-Covers sum (qmark ∷ us) w (a, b, q, (c, e), y) k =
    Covers-step _ sum ((sum + 4) % u64_mod) w a b q
      (omega (arith, utf8_bytes-single a c e, number_of_utf8_bytes_bounds c))
      (max_bytes_from-Covers ((sum + 4) % u64_mod) us b y (omega arith))
max_bytes_from-Covers sum (char_set t ∷ us) w (a, b, q, (c, e, o), y) k =
    Covers-step _ sum ((sum + most_bytes 0 t) % u64_mod) w a b q
      (omega
        (arith, utf8_bytes-single a c e, most_bytes-one t c o 0, most_bytes-le 0 t (omega arith)))
      (max_bytes_from-Covers ((sum + most_bytes 0 t) % u64_mod) us b y
        (omega (arith, most_bytes-le 0 t (omega arith))))
max_bytes_from-Covers sum (star ∷ us) w h k = inl refl

-- The number of UTF-8 bytes of an accepted word lies between the least and the greatest input
-- length, if the word has fewer than 2^64 bytes and the units, at four bytes a character, too.
pub utf8_input_length_bounds :
    (q : RegexQuery) (w : Text)
    → RegexLang q w
    → 4 * characters q.units < u64_mod
    → utf8_bytes w < u64_mod
    → (min_utf8_input_length q ≤ utf8_bytes w) × (utf8_bytes w ≤ max_utf8_input_length q)
unfolding min_utf8_input_length max_utf8_input_length
utf8_input_length_bounds q w h k l = (
  omega (arith, min_bytes_from-le 0 q.units w h),
  at_most (max_bytes_from-Covers 0 q.units w h (omega arith)),
)
  where
    at_most : Covers (max_bytes_from 0 q.units) 0 w → utf8_bytes w ≤ max_bytes_from 0 q.units
    at_most (inl e) = omega arith
    at_most (inr e) = omega arith
