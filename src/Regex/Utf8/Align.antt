-- ===== src/Regex/Utf8/Align.antt =====
-- Parts of an encoded text: what is before and behind the encoding of a text, and behind other bytes.
use netspeak4_application_ng.Prelude.{
  ℕ, ◌≡◌, refl, sym, ap, subst, ◌∙◌, [], ◌∷◌, ◌++◌, append_assoc, arith, All, Text, length,
}
use netspeak4_application_ng.Regex.Utf8.{char_bytes, to_bytes}
use netspeak4_application_ng.Regex.Utf8.Decode.{
  IsCode, IsContinuation, IsLead, char_bytes-Shape, same_char,
}

abbrev pub AreCodes : Text → Type 0
AreCodes = All IsCode

pub no_bytes : (c : ℕ) (r : Text) → char_bytes c ++ r ≡ [] → ⊥
no_bytes c r e =
    let (l, ks, f, _, _) = char_bytes-Shape c in
    omega (arith, ap length (sym (ap (λ t. t ++ r) f) ∙ e))

-- An encoding that begins with the encoding of a text.
pub to_bytes-prefix :
    (y x r : Text)
    → AreCodes y
    → AreCodes x
    → to_bytes x ≡ to_bytes y ++ r
    → (x' : Text) × (x ≡ y ++ x') × (r ≡ to_bytes x') × AreCodes x'
unfolding to_bytes
to_bytes-prefix [] x r h k e = (x, refl, sym e, k)
to_bytes-prefix (c ∷ y) [] r h k e =
    absurd (no_bytes c (to_bytes y ++ r) (sym (append_assoc (char_bytes c) (to_bytes y) r) ∙ sym e))
to_bytes-prefix (c ∷ y) (d ∷ x) r (h, hs) (k, ks) e =
    let (f, g) =
      same_char d c (to_bytes x) (to_bytes y ++ r) k h
        (e ∙ append_assoc (char_bytes c) (to_bytes y) r) in
    let (x', p, q, v) = to_bytes-prefix y x r hs ks g in
    (x', ap (λ t. d ∷ t) p ∙ ap (λ b. b ∷ (y ++ x')) f, q, v)

clash : (l : ℕ) → IsContinuation l → IsLead l → ⊥
clash l h k = ground arith

head-eq : (a b : ℕ) (r s : Text) → a ∷ r ≡ b ∷ s → (a ≡ b) × (r ≡ s)
head-eq a b r s e = (ap (first 0) e, ap rest e)
  where
    first : ℕ → Text → ℕ
    first d [] = d
    first d (x ∷ xs) = x

    rest : Text → Text
    rest [] = []
    rest (x ∷ xs) = xs

-- A lead byte is not among bytes that continue a character.
behind_continuation :
    (ks s pre r : Text) (l : ℕ)
    → All IsContinuation ks
    → IsLead l
    → ks ++ s ≡ pre ++ l ∷ r
    → (pre' : Text) × (s ≡ pre' ++ l ∷ r)
behind_continuation [] s pre r l h k e = (pre, e)
behind_continuation (b ∷ ks) s [] r l (h, hs) k e =
    absurd (clash l (subst IsContinuation ((head-eq b l (ks ++ s) r e).0) h) k)
behind_continuation (b ∷ ks) s (p ∷ pre) r l (h, hs) k e =
    behind_continuation ks s pre r l hs k ((head-eq b p (ks ++ s) (pre ++ l ∷ r) e).1)

-- In an encoding, a lead byte begins the encoding of the rest.
pub to_bytes-behind :
    (x pre r : Text) (l : ℕ)
    → AreCodes x
    → IsLead l
    → to_bytes x ≡ pre ++ l ∷ r
    → (x₁ : Text) × (x₂ : Text) × (x ≡ x₁ ++ x₂) × (to_bytes x₂ ≡ l ∷ r) × AreCodes x₂
unfolding to_bytes
to_bytes-behind [] [] r l h k e = cc
to_bytes-behind [] (p ∷ pre) r l h k e = cc
to_bytes-behind (c ∷ x) [] r l h k e = ([], c ∷ x, refl, e, h)
to_bytes-behind (c ∷ x) (p ∷ pre) r l (h, hs) k e =
    let (l', ks, f, _, conts) = char_bytes-Shape c in
    let e' : l' ∷ (ks ++ to_bytes x) ≡ p ∷ (pre ++ l ∷ r) = sym (ap (λ t. t ++ to_bytes x) f) ∙ e in
    let (pre', g) =
      behind_continuation ks (to_bytes x) pre r l conts k
        ((head-eq l' p (ks ++ to_bytes x) (pre ++ l ∷ r) e').1) in
    let (x₁, x₂, q, d, v) = to_bytes-behind x pre' r l hs k g in
    (c ∷ x₁, x₂, ap (λ t. c ∷ t) q, d, v)
