-- ===== src/Util/PropertiesFormat/Blocks.antt =====
-- What is written for one byte is read back as that byte.
use netspeak4_application_ng.Prelude.{
  ℕ, suc, ◌+◌, ◌*◌, ◌/◌, ◌%◌, ◌≤◌, ◌<◌, ◌≡◌, refl, true, false, Bool-cases, inl, inr, List, [], ◌∷◌,
  ◌++◌, arith, length, ltb, ◌==◌, Text, Result, ok, Returns, ltb→lt,
}
use netspeak4_application_ng.Util.PropertiesFormat.{
  backslash, hex_digit, hex_digits, ascii_only, read_unicode, read_escaped, read_key_from,
  read_value_from, write_hex_digit, write_unicode_char, write_plain, needs_escape, write_key_char,
  write_value_char, consume_before_key, consume_spaces,
}

hex_digit-write : (d : ℕ) → d < 16 → hex_digit (write_hex_digit d) ≡ ok d
unfolding hex_digit write_hex_digit
hex_digit-write d h = ground arith

hex_digits-step :
    (n e d : ℕ) (rest : List ℕ)
    → d < 16
    → hex_digits (suc n) e (write_hex_digit d ∷ rest) ≡ hex_digits n ((e * 16 + d) % 65536) rest
unfolding hex_digits
hex_digits-step n e d rest h = rw (hex_digit-write d h) refl

hex_zeros : (rest : List ℕ) → hex_digits 4 0 (48 ∷ 48 ∷ rest) ≡ hex_digits 2 0 rest
unfolding hex_digits
hex_zeros rest = refl

below_128 :
    (e c : ℕ) (tail : List ℕ) (consumer : Text)
    → e ≡ c
    → c < 128
    → ascii_only consumer (e, tail) ≡ ok (tail, consumer ++ c ∷ [])
unfolding ascii_only
below_128 e c tail consumer same h = rw same (ground arith)

-- The escape of a control character.
read_unicode-write :
    (c : ℕ) (tail : List ℕ) (consumer : Text)
    → c < 128
    → read_unicode (48 ∷ 48 ∷ write_hex_digit (c / 16) ∷ write_hex_digit (c % 16) ∷ tail) consumer
      ≡ ok (tail, consumer ++ c ∷ [])
unfolding read_unicode
read_unicode-write c tail consumer h =
    rw (hex_zeros (write_hex_digit (c / 16) ∷ write_hex_digit (c % 16) ∷ tail)) (
      rw (hex_digits-step 1 0 (c / 16) (write_hex_digit (c % 16) ∷ tail) (omega arith)) (
        rw (hex_digits-step 0 ((0 * 16 + c / 16) % 65536) (c % 16) tail (omega arith)) (
          below_128 (((0 * 16 + c / 16) % 65536 * 16 + c % 16) % 65536) c tail consumer
            (omega arith) h)))

escaped_literal :
    (c : ℕ) (tail : List ℕ) (consumer : Text)
    → needs_escape c ≡ true
    → read_escaped (c ∷ tail) consumer ≡ ok (tail, consumer ++ c ∷ [])
unfolding read_escaped needs_escape
escaped_literal c tail consumer h = ground arith

-- The output for a byte takes one round of the loop, which reads the byte.
abbrev pub IsBlock : (ℕ → List ℕ → Text → Result (List ℕ × Text)) → ℕ → List ℕ → Type 0
IsBlock loop c block =
    (1 ≤ length block)
    × ((f : ℕ) (tail : List ℕ) (text : Text)
        → loop (suc f) (block ++ tail) text ≡ loop f tail (text ++ c ∷ []))

key_escape-IsBlock : (c : ℕ) → needs_escape c ≡ true → IsBlock read_key_from c (backslash ∷ c ∷ [])
unfolding read_key_from
key_escape-IsBlock c h = (omega arith, λ f tail text. rw (escaped_literal c tail text h) refl)

value_escape-IsBlock :
    (c : ℕ) → needs_escape c ≡ true → IsBlock read_value_from c (backslash ∷ c ∷ [])
unfolding read_value_from
value_escape-IsBlock c h = (omega arith, λ f tail text. rw (escaped_literal c tail text h) refl)

key_plain-IsBlock : (c : ℕ) → needs_escape c ≡ false → 32 ≤ c → IsBlock read_key_from c (c ∷ [])
unfolding read_key_from needs_escape
key_plain-IsBlock c h k = (omega arith, λ f tail text. ground arith)

value_plain-IsBlock :
    (c : ℕ) → (c == backslash) ≡ false → 32 ≤ c → IsBlock read_value_from c (c ∷ [])
unfolding read_value_from
value_plain-IsBlock c h k = (omega arith, λ f tail text. ground arith)

unicode_block : ℕ → List ℕ
unicode_block c =
    backslash ∷ 117 ∷ 48 ∷ 48 ∷ write_hex_digit (c / 16) ∷ write_hex_digit (c % 16) ∷ []

read_escaped-unicode :
    (c : ℕ) (tail : List ℕ) (consumer : Text)
    → c < 128
    → read_escaped
        (117 ∷ 48 ∷ 48 ∷ write_hex_digit (c / 16) ∷ write_hex_digit (c % 16) ∷ tail)
        consumer
      ≡ ok (tail, consumer ++ c ∷ [])
unfolding read_escaped
read_escaped-unicode c tail consumer h = read_unicode-write c tail consumer h

key_unicode-IsBlock : (c : ℕ) → c < 128 → IsBlock read_key_from c (unicode_block c)
unfolding read_key_from unicode_block
key_unicode-IsBlock c h = (omega arith, λ f tail text. rw (read_escaped-unicode c tail text h) refl)

value_unicode-IsBlock : (c : ℕ) → c < 128 → IsBlock read_value_from c (unicode_block c)
unfolding read_value_from unicode_block
value_unicode-IsBlock c h =
    (omega arith, λ f tail text. rw (read_escaped-unicode c tail text h) refl)

write_plain-control : (c : ℕ) → c < 32 → write_plain c ≡ ok (unicode_block c)
unfolding write_plain write_unicode_char unicode_block
write_plain-control c h = ground arith

write_plain-literal : (c : ℕ) → 32 ≤ c → c < 128 → write_plain c ≡ ok (c ∷ [])
unfolding write_plain
write_plain-literal c h k = ground arith

pub write_key_char-IsBlock :
    (c : ℕ) → c < 128 → Returns (IsBlock read_key_from c) (write_key_char c)
unfolding write_key_char
write_key_char-IsBlock c h = elim (Bool-cases (needs_escape c)) [
  | inl e ↦ rw e (key_escape-IsBlock c e)
  | inr e ↦ rw e (elim (Bool-cases (ltb c 32)) [
    | inl low ↦ rw (write_plain-control c (ltb→lt c 32 low)) (key_unicode-IsBlock c h)
    | inr high ↦
        let k : 32 ≤ c = ground arith in rw (write_plain-literal c k h) (key_plain-IsBlock c e k)
  ])
]

backslash_escape : (c : ℕ) → (c == backslash) ≡ true → needs_escape c ≡ true
unfolding needs_escape
backslash_escape c e = ground arith

pub write_value_char-IsBlock :
    (c : ℕ) → c < 128 → Returns (IsBlock read_value_from c) (write_value_char c)
unfolding write_value_char
write_value_char-IsBlock c h = elim (Bool-cases (c == backslash)) [
  | inl e ↦ rw e (value_escape-IsBlock c (backslash_escape c e))
  | inr e ↦ rw e (elim (Bool-cases (ltb c 32)) [
    | inl low ↦ rw (write_plain-control c (ltb→lt c 32 low)) (value_unicode-IsBlock c h)
    | inr high ↦
        let k : 32 ≤ c = ground arith in rw (write_plain-literal c k h) (value_plain-IsBlock c e k)
  ])
]

space_escape : (c : ℕ) → (c == 32) ≡ true → needs_escape c ≡ true
unfolding needs_escape
space_escape c e = ground arith

-- The escape of the first space of a value.
pub space-IsBlock : (c : ℕ) → (c == 32) ≡ true → IsBlock read_value_from c (backslash ∷ c ∷ [])
space-IsBlock c e = value_escape-IsBlock c (space_escape c e)

escape_start : (tail : List ℕ) → consume_before_key false (backslash ∷ tail) ≡ backslash ∷ tail
unfolding consume_before_key
escape_start tail = refl

unicode_start :
    (c : ℕ) (tail : List ℕ)
    → consume_before_key false (unicode_block c ++ tail) ≡ unicode_block c ++ tail
unfolding unicode_block
unicode_start c tail =
    escape_start (117 ∷ 48 ∷ 48 ∷ write_hex_digit (c / 16) ∷ write_hex_digit (c % 16) ∷ tail)

plain_start :
    (c : ℕ) (tail : List ℕ)
    → needs_escape c ≡ false
    → 32 ≤ c
    → consume_before_key false (c ∷ tail) ≡ c ∷ tail
unfolding consume_before_key needs_escape
plain_start c tail e k = ground arith

pub no_spaces : (c : ℕ) (tail : List ℕ) → 32 < c → consume_spaces (c ∷ tail) ≡ c ∷ tail
unfolding consume_spaces
no_spaces c tail h = ground arith

unicode_no_spaces :
    (c : ℕ) (tail : List ℕ) → consume_spaces (unicode_block c ++ tail) ≡ unicode_block c ++ tail
unfolding unicode_block
unicode_no_spaces c tail =
    no_spaces backslash (117 ∷ 48 ∷ 48 ∷ write_hex_digit (c / 16) ∷ write_hex_digit (c % 16) ∷ tail)
      (omega arith)

-- The output for the first byte of a key is not skipped before the key, and that for the first byte
-- of a value not before the value.
pub write_key_char-start :
    (c : ℕ)
    → c < 128
    → Returns
        (λ block. (tail : List ℕ) → consume_before_key false (block ++ tail) ≡ block ++ tail)
        (write_key_char c)
unfolding write_key_char
write_key_char-start c h = elim (Bool-cases (needs_escape c)) [
  | inl e ↦ rw e (λ tail. escape_start (c ∷ tail))
  | inr e ↦ rw e (elim (Bool-cases (ltb c 32)) [
    | inl low ↦ rw (write_plain-control c (ltb→lt c 32 low)) (λ tail. unicode_start c tail)
    | inr high ↦
        let k : 32 ≤ c = ground arith in
        rw (write_plain-literal c k h) (λ tail. plain_start c tail e k)
  ])
]

pub write_value_char-start :
    (c : ℕ)
    → c < 128
    → (c == 32) ≡ false
    → Returns
        (λ block. (tail : List ℕ) → consume_spaces (block ++ tail) ≡ block ++ tail)
        (write_value_char c)
unfolding write_value_char
write_value_char-start c h other = elim (Bool-cases (c == backslash)) [
  | inl e ↦ rw e (λ tail. no_spaces backslash (c ∷ tail) (omega arith))
  | inr e ↦ rw e (elim (Bool-cases (ltb c 32)) [
    | inl low ↦ rw (write_plain-control c (ltb→lt c 32 low)) (λ tail. unicode_no_spaces c tail)
    | inr high ↦
        rw (write_plain-literal c (ground arith) h) (λ tail. no_spaces c tail (ground arith))
  ])
]
