-- ===== src/Regex/Index/Character.antt =====
-- The regular expression for any character, and UTF-8 encodings of one code point.
use netspeak4_application_ng.Prelude.{
  ℕ, ◌+◌, ◌-◌, ◌*◌, ◌≤◌, ◌<◌, ◌≡◌, refl, sym, ap₂, ◌∙◌, ◌⊎◌, inl, inr, [], ◌∷◌, ◌++◌, arith, Text,
}
use netspeak4_application_ng.Regex.Query.{qmark}
use netspeak4_application_ng.Regex.Lang.{UnitLang}
use netspeak4_application_ng.Regex.Utf8.{char_bytes}
use netspeak4_application_ng.Regex.Utf8.Decode.{IsCode, IsContinuation, char_bytes-Forms}
use netspeak4_application_ng.Regex.Index.Perl.{PerlLang}
use netspeak4_application_ng.Regex.Index.Pattern.{perl_any, perl_front}
use netspeak4_application_ng.Regex.Index.Reading.{Encoded, one_char}

encoded : (c : ℕ) (w : Text) → w ≡ char_bytes c → IsCode c → Encoded (UnitLang qmark) w
encoded c w e h = (c ∷ [], e ∙ one_char c, (c, refl), (h, tt))

one_byte : (a : ℕ) → a ≤ 0x7F → a ∷ [] ≡ char_bytes a
one_byte a h = elim (char_bytes-Forms a) [
  | inl (l, e) ↦ sym e
  | inr (inl (l, u, e)) ↦ absurd (omega arith)
  | inr (inr (inl (l, u, e))) ↦ absurd (omega arith)
  | inr (inr (inr (l, e))) ↦ absurd (omega arith)
]

two_bytes :
    (a b c : ℕ)
    → 0xC2 ≤ a
    → a ≤ 0xDF
    → IsContinuation b
    → c ≡ (a - 0xC0) * 64 + (b - 0x80)
    → a ∷ b ∷ [] ≡ char_bytes c
two_bytes a b c h k (p, q) d = elim (char_bytes-Forms c) [
  | inl (l, e) ↦ absurd (omega arith)
  | inr (inl (l, u, e)) ↦ ap₂ (λ x y. x ∷ y ∷ []) (omega arith) (omega arith) ∙ sym e
  | inr (inr (inl (l, u, e))) ↦ absurd (omega arith)
  | inr (inr (inr (l, e))) ↦ absurd (omega arith)
]

three_bytes :
    (a b b' c : ℕ)
    → 0xE0 ≤ a
    → a ≤ 0xEF
    → IsContinuation b
    → IsContinuation b'
    → c ≡ ((a - 0xE0) * 64 + (b - 0x80)) * 64 + (b' - 0x80)
    → 0x800 ≤ c
    → a ∷ b ∷ b' ∷ [] ≡ char_bytes c
three_bytes a b b' c h k (p, q) (p', q') d m = elim (char_bytes-Forms c) [
  | inl (l, e) ↦ absurd (omega arith)
  | inr (inl (l, u, e)) ↦ absurd (omega arith)
  | inr (inr (inl (l, u, e))) ↦
      ap₂ (λ x y. x ∷ y) (omega arith) (ap₂ (λ x y. x ∷ y ∷ []) (omega arith) (omega arith)) ∙ sym e
  | inr (inr (inr (l, e))) ↦ absurd (omega arith)
]

four_bytes :
    (a b b' b'' c : ℕ)
    → 0xF0 ≤ a
    → IsContinuation b
    → IsContinuation b'
    → IsContinuation b''
    → c ≡ (((a - 0xF0) * 64 + (b - 0x80)) * 64 + (b' - 0x80)) * 64 + (b'' - 0x80)
    → 0x10000 ≤ c
    → a ∷ b ∷ b' ∷ b'' ∷ [] ≡ char_bytes c
four_bytes a b b' b'' c h (p, q) (p', q') (p'', q'') d m = elim (char_bytes-Forms c) [
  | inl (l, e) ↦ absurd (omega arith)
  | inr (inl (l, u, e)) ↦ absurd (omega arith)
  | inr (inr (inl (l, u, e))) ↦ absurd (omega arith)
  | inr (inr (inr (l, e))) ↦
      ap₂ (λ x y. x ∷ y) (omega arith)
        (ap₂ (λ x y. x ∷ y) (omega arith) (ap₂ (λ x y. x ∷ y ∷ []) (omega arith) (omega arith)))
      ∙ sym e
]

-- The expression's alternatives, the bytes of each in order.
abbrev AnyBytes : Text → Type 0
AnyBytes w =
    ((a : ℕ) × (w ≡ a ∷ []) × (a ≤ 0x7F))
    ⊎ ((a : ℕ) × (b : ℕ) × (w ≡ a ∷ b ∷ []) × (0xC2 ≤ a) × (a ≤ 0xDF) × IsContinuation b)
    ⊎ ((a : ℕ) × (b : ℕ) × (b' : ℕ) × (w ≡ a ∷ b ∷ b' ∷ [])
        × (0xE0 ≤ a)
        × (a ≤ 0xEF)
        × IsContinuation b
        × IsContinuation b'
        × (0x800 ≤ ((a - 0xE0) * 64 + (b - 0x80)) * 64 + (b' - 0x80)))
    ⊎ ((a : ℕ) × (b : ℕ) × (b' : ℕ) × (b'' : ℕ) × (w ≡ a ∷ b ∷ b' ∷ b'' ∷ [])
        × (0xF0 ≤ a)
        × IsContinuation b
        × IsContinuation b'
        × IsContinuation b''
        × (0x10000 ≤ (((a - 0xF0) * 64 + (b - 0x80)) * 64 + (b' - 0x80)) * 64 + (b'' - 0x80))
        × ((((a - 0xF0) * 64 + (b - 0x80)) * 64 + (b' - 0x80)) * 64 + (b'' - 0x80) < 0x110000))

AnyBytes-Encoded : (w : Text) → AnyBytes w → Encoded (UnitLang qmark) w
AnyBytes-Encoded w (inl (a, e, h)) = encoded a w (e ∙ one_byte a h) (omega arith)
AnyBytes-Encoded w (inr (inl (a, b, e, h, k, p))) =
    encoded _ w (e ∙ two_bytes a b _ h k p refl) (omega arith)
AnyBytes-Encoded w (inr (inr (inl (a, b, b', e, h, k, p, p', m)))) =
    encoded _ w (e ∙ three_bytes a b b' _ h k p p' refl m) (omega arith)
AnyBytes-Encoded w (inr (inr (inr (a, b, b', b'', e, h, p, p', p'', m, l)))) =
    encoded _ w (e ∙ four_bytes a b b' b'' _ h p p' p'' refl m) l

join : (w x y x' y' : Text) → w ≡ x ++ y → x ≡ x' → y ≡ y' → w ≡ x' ++ y'
join w x y x' y' e f g = e ∙ ap₂ (λ s t. s ++ t) f g

perl_any-AnyBytes : (w : Text) → PerlLang perl_any w → AnyBytes w
unfolding perl_any perl_front
perl_any-AnyBytes w (inl (a, e, _, h)) = inl (a, e, h)
perl_any-AnyBytes w (inr (x, y, e, inl (a, f, l, h), (z, g, p, q))) =
    inr (inl (a, z, join w x y _ _ e f g, l, h, (p, omega arith)))
perl_any-AnyBytes w (inr (x, y, e, inr (inl (u, v, d, f, (b, f', l, h))), (z, g, p, q))) = inr (
    inr (
      inl (
        0xE0,
        b,
        z,
        join w x y _ _ e (join x u v _ _ d f f') g,
        omega arith,
        omega arith,
        (omega arith, omega arith),
        (p, omega arith),
        omega arith,
      )))
perl_any-AnyBytes w (inr (x, y, e, inr (inr (inl (u, v, d, f, (b, f', l, h)))), (z, g, p, q))) =
    inr (
      inr (
        inl (
          0xED,
          b,
          z,
          join w x y _ _ e (join x u v _ _ d f f') g,
          omega arith,
          omega arith,
          (omega arith, omega arith),
          (p, omega arith),
          omega arith,
        )))
perl_any-AnyBytes w (inr (x, y, e, inr (inr (inr (u, v, d, s, (b, f', l, h)))), (z, g, p, q))) =
    longer s
  where
    three_of : (a : ℕ) → u ≡ a ∷ [] → 0xE1 ≤ a → a ≤ 0xEF → AnyBytes w
    three_of a f i j = inr (
        inr (
          inl (
            a,
            b,
            z,
            join w x y _ _ e (join x u v _ _ d f f') g,
            omega arith,
            omega arith,
            (omega arith, omega arith),
            (p, omega arith),
            omega arith,
          )))

    four_of :
        (a c : ℕ)
        → u ≡ a ∷ c ∷ []
        → 0xF0 ≤ a
        → IsContinuation c
        → 16 ≤ (a - 0xF0) * 64 + (c - 0x80)
        → (a - 0xF0) * 64 + (c - 0x80) < 272
        → AnyBytes w
    four_of a c f i j m n = inr (
        inr (
          inr (
            a,
            c,
            b,
            z,
            join w x y _ _ e (join x u v _ _ d f f') g,
            i,
            j,
            (omega arith, omega arith),
            (p, omega arith),
            omega arith,
            omega arith,
          )))

    longer : PerlLang perl_front u → AnyBytes w
    longer (inl (a, f, i, j)) = three_of a f i (omega arith)
    longer (inr (inl (a, f, i, j))) = three_of a f (omega arith) j
    longer (inr (inr (inl (r, t, k, f, (c, f'', i, j))))) =
        four_of 0xF0 c (join u r t _ _ k f f'') (omega arith) (omega arith, omega arith)
          (omega arith) (omega arith)
    longer (inr (inr (inr (inl (r, t, k, (a, f, i, j), (c, f'', i', j')))))) =
        four_of a c (join u r t _ _ k f f'') (omega arith) (omega arith, omega arith) (omega arith)
          (omega arith)
    longer (inr (inr (inr (inr (r, t, k, f, (c, f'', i, j)))))) =
        four_of 0xF4 c (join u r t _ _ k f f'') (omega arith) (omega arith, omega arith)
          (omega arith) (omega arith)

pub perl_any-Lang : (w : Text) → PerlLang perl_any w → Encoded (UnitLang qmark) w
perl_any-Lang w h = AnyBytes-Encoded w (perl_any-AnyBytes w h)
