-- ===== src/Regex/Utf8.antt =====
-- The conversion to UTF-8 by `std::codecvt_utf8<char32_t>`, of code points below 2^21.
pub mod Decode
pub mod Align
use netspeak4_application_ng.Prelude.{
  ℕ, ◌+◌, ◌/◌, ◌%◌, ◌≡◌, refl, [], ◌∷◌, ◌++◌, append_assoc, ap, ◌∙◌, sym, Text, ltb, if◌then◌else◌,
}

unfoldable pub char_bytes : ℕ → Text
char_bytes c =
    if ltb c 0x80
    then c ∷ []
    else if ltb c 0x800
    then (0xC0 + c / 64) ∷ (0x80 + c % 64) ∷ []
    else if ltb c 0x10000
    then (0xE0 + c / 4096) ∷ (0x80 + c / 64 % 64) ∷ (0x80 + c % 64) ∷ []
    else (0xF0 + c / 262144) ∷ (0x80 + c / 4096 % 64) ∷ (0x80 + c / 64 % 64) ∷ (0x80 + c % 64) ∷ []

unfoldable pub to_bytes : Text → Text
unfolding char_bytes
to_bytes [] = []
to_bytes (c ∷ cs) = char_bytes c ++ to_bytes cs

pub to_bytes-append : (s t : Text) → to_bytes (s ++ t) ≡ to_bytes s ++ to_bytes t
unfolding to_bytes
to_bytes-append [] t = refl
to_bytes-append (c ∷ s) t =
    ap (λ v. char_bytes c ++ v) (to_bytes-append s t)
    ∙ sym (append_assoc (char_bytes c) (to_bytes s) (to_bytes t))
