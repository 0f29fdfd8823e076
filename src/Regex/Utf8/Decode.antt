-- ===== src/Regex/Utf8/Decode.antt =====
-- UTF-8 can be read back: where characters begin, and which they are.
use netspeak4_application_ng.Prelude.{
  ℕ, ◌+◌, ◌-◌, ◌*◌, ◌/◌, ◌%◌, ◌≤◌, ◌<◌, ◌≡◌, refl, sym, ap, ◌∙◌, ◌⊎◌, inl, inr, Bool-cases, true,
  false, [], ◌∷◌, ◌++◌, arith, All, Text, ltb, if◌then◌else◌,
}
use netspeak4_application_ng.Regex.Utf8.{char_bytes}

-- A code point of Unicode; a byte that continues a character.
abbrev pub IsCode : ℕ → Type 0
IsCode c = c < 0x110000

abbrev pub IsContinuation : ℕ → Type 0
IsContinuation b = (0x80 ≤ b) × (b < 0xC0)

abbrev pub IsLead : ℕ → Type 0
IsLead b = (b < 0x80) ⊎ (0xC0 ≤ b)

two : ℕ → Text → ℕ × Text
two h [] = (0, [])
two h (b ∷ r) = (h * 64 + (b - 0x80), r)

three : ℕ → Text → ℕ × Text
unfolding two
three h [] = (0, [])
three h (b ∷ r) = two (h * 64 + (b - 0x80)) r

four : ℕ → Text → ℕ × Text
unfolding three
four h [] = (0, [])
four h (b ∷ r) = three (h * 64 + (b - 0x80)) r

-- The first character of a text.
decode : Text → ℕ × Text
unfolding four
decode [] = (0, [])
decode (b ∷ r) =
    if ltb b 0x80
    then (b, r)
    else if ltb b 0xE0
    then two (b - 0xC0) r
    else if ltb b 0xF0
    then three (b - 0xE0) r
    else four (b - 0xF0) r

-- The four forms of a character.
abbrev Forms : ℕ → Text → Type 0
Forms c w =
    ((c < 0x80) × (w ≡ c ∷ []))
    ⊎ ((0x80 ≤ c) × (c < 0x800) × (w ≡ (0xC0 + c / 64) ∷ (0x80 + c % 64) ∷ []))
    ⊎ ((0x800 ≤ c)
        × (c < 0x10000)
        × (w ≡ (0xE0 + c / 4096) ∷ (0x80 + c / 64 % 64) ∷ (0x80 + c % 64) ∷ []))
    ⊎ ((0x10000 ≤ c)
        × (w
            ≡ (0xF0 + c / 262144)
              ∷ (0x80 + c / 4096 % 64)
              ∷ (0x80 + c / 64 % 64)
              ∷ (0x80 + c % 64)
              ∷ []))

pub char_bytes-Forms : (c : ℕ) → Forms c (char_bytes c)
unfolding char_bytes
char_bytes-Forms c = elim (Bool-cases (ltb c 0x80)) [
  | inl a ↦ rw a (inl (ground arith, refl))
  | inr a ↦ rw a (elim (Bool-cases (ltb c 0x800)) [
    | inl b ↦ rw b (inr (inl (ground arith, ground arith, refl)))
    | inr b ↦ rw b (elim (Bool-cases (ltb c 0x10000)) [
      | inl d ↦ rw d (inr (inr (inl (ground arith, ground arith, refl))))
      | inr d ↦ rw d (inr (inr (inr (ground arith, refl))))
    ])
  ])
]

less : (b n : ℕ) → b < n → ltb b n ≡ true
less b n h = ground arith

not_less : (b n : ℕ) → n ≤ b → ltb b n ≡ false
not_less b n h = ground arith

decode-Forms : (c : ℕ) (w r : Text) → IsCode c → Forms c w → decode (w ++ r) ≡ (c, r)
unfolding decode
decode-Forms c w r h (inl (a, e)) = rw (e, less c 0x80 a) refl
decode-Forms c w r h (inr (inl (a, b, e))) =
    rw (e, not_less (0xC0 + c / 64) 0x80 (omega arith), less (0xC0 + c / 64) 0xE0 (omega arith))
      (ap (λ n. (n, r)) (omega arith))
decode-Forms c w r h (inr (inr (inl (a, b, e)))) =
    rw
      (
        e,
        not_less (0xE0 + c / 4096) 0x80 (omega arith),
        not_less (0xE0 + c / 4096) 0xE0 (omega arith),
        less (0xE0 + c / 4096) 0xF0 (omega arith),
      )
      (ap (λ n. (n, r)) (omega arith))
decode-Forms c w r h (inr (inr (inr (a, e)))) =
    rw
      (
        e,
        not_less (0xF0 + c / 262144) 0x80 (omega arith),
        not_less (0xF0 + c / 262144) 0xE0 (omega arith),
        not_less (0xF0 + c / 262144) 0xF0 (omega arith),
      )
      (ap (λ n. (n, r)) (omega arith))

decode-char_bytes : (c : ℕ) (r : Text) → IsCode c → decode (char_bytes c ++ r) ≡ (c, r)
decode-char_bytes c r h = decode-Forms c (char_bytes c) r h (char_bytes-Forms c)

-- Equal encodings begin with the same character.
pub same_char :
    (c d : ℕ) (r s : Text)
    → IsCode c
    → IsCode d
    → char_bytes c ++ r ≡ char_bytes d ++ s
    → (c ≡ d) × (r ≡ s)
same_char c d r s h k e =
    let f : (c, r) ≡ (d, s) =
      sym (decode-char_bytes c r h) ∙ ap decode e ∙ decode-char_bytes d s k in
    (ap (λ p. p.0) f, ap (λ p. p.1) f)

-- A lead byte, and bytes that continue the character.
abbrev Shape : Text → Type 0
Shape w = (l : ℕ) × (ks : Text) × (w ≡ l ∷ ks) × IsLead l × All IsContinuation ks

pub char_bytes-Shape : (c : ℕ) → Shape (char_bytes c)
char_bytes-Shape c = elim (char_bytes-Forms c) [
  | inl (a, e) ↦ (c, [], e, inl a, tt)
  | inr (inl (a, b, e)) ↦ (_, _, e, inr (omega arith), ((omega arith, omega arith), tt))
  | inr (inr (inl (a, b, e))) ↦
      (_, _, e, inr (omega arith), ((omega arith, omega arith), ((omega arith, omega arith), tt)))
  | inr (inr (inr (a, e))) ↦ (
    _,
    _,
    e,
    inr (omega arith),
    ((omega arith, omega arith), ((omega arith, omega arith), ((omega arith, omega arith), tt))),
  )
]
