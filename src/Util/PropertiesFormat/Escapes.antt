-- ===== src/Util/PropertiesFormat/Escapes.antt =====
-- How much of a stream is left behind an escape.
use netspeak4_application_ng.Prelude.{
  ℕ, zero, suc, ◌+◌, ◌*◌, ◌%◌, ◌≤◌, ◌≡◌, refl, Bool, true, false, Bool-cases, inl, inr, List, [],
  ◌∷◌, arith, length, ◌==◌, leb, Text, Result, ok, throw, ◌>>=◌, format_properties_error,
}
use netspeak4_application_ng.Util.PropertiesFormat.{
  line_feed, consume_spaces, consume_before_key, optional_delimiter, hex_digit, hex_digits,
  skip_line_feed, ascii_only, read_unicode, read_escaped,
}

-- At most `n` bytes are left; the only error is the one on the format.
abbrev pub Leaves {ℓ} : {A : Type ℓ} → (A → List ℕ) → ℕ → Result A → Type 0
Leaves left n (ok a) = length (left a) ≤ n
Leaves left n (throw e) = e ≡ format_properties_error

pub Leaves-bind {ℓ κ} :
    {A : Type ℓ} {B : Type κ} (left : A → List ℕ) (left' : B → List ℕ) (n k : ℕ) (m : Result A)
    (f : A → Result B)
    → Leaves left n m
    → ((a : A) → length (left a) ≤ n → Leaves left' k (f a))
    → Leaves left' k (m >>= f)
Leaves-bind left left' n k (ok a) f h g = g a h
Leaves-bind left left' n k (throw e) f h g = h

pub Leaves-mono {ℓ} :
    {A : Type ℓ} (left : A → List ℕ) (n k : ℕ) (m : Result A)
    → n ≤ k
    → Leaves left n m
    → Leaves left k m
Leaves-mono left n k (ok a) h g = omega arith
Leaves-mono left n k (throw e) h g = g

abbrev pub rest_of {ℓ} : {A : Type ℓ} → List ℕ × A → List ℕ
rest_of (rest, _) = rest

pub length-consume_spaces : (rest : List ℕ) → length (consume_spaces rest) ≤ length rest
unfolding consume_spaces
length-consume_spaces [] = omega arith
length-consume_spaces (c ∷ rest) = ground (arith, length-consume_spaces rest)

pub length-consume_before_key :
    (comment : Bool) (rest : List ℕ) → length (consume_before_key comment rest) ≤ length rest
unfolding consume_before_key
length-consume_before_key comment [] = omega arith
length-consume_before_key true (c ∷ rest) =
    ground (arith, length-consume_before_key true rest, length-consume_before_key false rest)
length-consume_before_key false (c ∷ rest) =
    ground (arith, length-consume_before_key true rest, length-consume_before_key false rest)

length-skip_line_feed : (rest : List ℕ) → length (skip_line_feed rest) ≤ length rest
unfolding skip_line_feed
length-skip_line_feed [] = omega arith
length-skip_line_feed (c ∷ rest) = ground arith

pub length-optional_delimiter : (rest : List ℕ) → length (optional_delimiter rest) ≤ length rest
unfolding optional_delimiter
length-optional_delimiter [] = omega arith
length-optional_delimiter (c ∷ rest) = ground (arith, length-consume_spaces rest)

hex_digit-Leaves : (c : ℕ) → Leaves (λ _. []) 0 (hex_digit c)
unfolding hex_digit
hex_digit-Leaves c = ground arith

hex_digits-Leaves :
    (n e : ℕ) (rest : List ℕ) → Leaves (λ (_, left). left) (length rest) (hex_digits n e rest)
unfolding hex_digits
hex_digits-Leaves zero e rest = omega arith
hex_digits-Leaves (suc n) e [] = refl
hex_digits-Leaves (suc n) e (c ∷ rest) =
    Leaves-bind (λ _. []) (λ (_, left). left) 0 (suc (length rest)) (hex_digit c)
      (λ digit. hex_digits n ((e * 16 + digit) % 65536) rest) (hex_digit-Leaves c)
      λ digit h.
        Leaves-mono (λ (_, left). left) (length rest) (suc (length rest))
          (hex_digits n ((e * 16 + digit) % 65536) rest) (omega arith)
          (hex_digits-Leaves n ((e * 16 + digit) % 65536) rest)

ascii_only-Leaves :
    (e : ℕ) (rest : List ℕ) (text : Text) (n : ℕ)
    → length rest ≤ n
    → Leaves rest_of n (ascii_only text (e, rest))
unfolding ascii_only
ascii_only-Leaves e rest text n h = elim (Bool-cases (leb 128 e)) [
  | inl l ↦ rw l refl
  | inr l ↦ rw l h
]

read_unicode-Leaves :
    (rest : List ℕ) (text : Text) → Leaves rest_of (length rest) (read_unicode rest text)
unfolding read_unicode
read_unicode-Leaves rest text =
    Leaves-bind (λ (_, left). left) rest_of (length rest) (length rest) (hex_digits 4 0 rest)
      (ascii_only text) (hex_digits-Leaves 4 0 rest)
      (λ (e, left) h. ascii_only-Leaves e left text (length rest) h)

pub read_escaped-Leaves :
    (rest : List ℕ) (text : Text) → Leaves rest_of (length rest) (read_escaped rest text)
unfolding read_escaped
read_escaped-Leaves [] text = refl
read_escaped-Leaves (c ∷ rest) text = elim (Bool-cases (c == 117)) [
  | inl u ↦ rw u (
      Leaves-mono rest_of (length rest) (suc (length rest)) (read_unicode rest text) (omega arith)
        (read_unicode-Leaves rest text))
  | inr u ↦ rw u (elim (Bool-cases (c == line_feed)) [
    | inl l ↦ rw l (omega (arith, length-consume_spaces rest))
    | inr l ↦ rw l (elim (Bool-cases (c == 13)) [
      | inl r ↦
          rw r
            (omega (arith, length-consume_spaces (skip_line_feed rest), length-skip_line_feed rest))
      | inr r ↦ rw r (omega arith)
    ])
  ])
]
