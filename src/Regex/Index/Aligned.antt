-- ===== src/Regex/Index/Aligned.antt =====
-- From the bytes that the regular expression of a query matches to the word that they encode: where
-- in an encoding the parts for the units begin.
use netspeak4_application_ng.Prelude.{
  true, ◌≡◌, refl, sym, ap, subst, ◌∙◌, inl, inr, List, [], ◌∷◌, ◌++◌, append_assoc, append-nil,
  All, Text,
}
use netspeak4_application_ng.Regex.Query.{
  RegexUnit, qmark, star, word, char_set, optional_word, RegexQuery,
}
use netspeak4_application_ng.Regex.Lang.{◌⊙◌, UnitLang, UnitsLang}
use netspeak4_application_ng.Regex.Utf8.{char_bytes, to_bytes}
use netspeak4_application_ng.Regex.Utf8.Decode.{char_bytes-Shape}
use netspeak4_application_ng.Regex.Utf8.Align.{AreCodes, no_bytes, to_bytes-prefix, to_bytes-behind}
use netspeak4_application_ng.Regex.Index.Perl.{Perl, syntax, IsPerl, PerlLang}
use netspeak4_application_ng.Regex.Index.Matching.{Environment, create_regex_pattern}
use netspeak4_application_ng.Regex.Index.Lookup.{Accepts}
use netspeak4_application_ng.Regex.Index.Pattern.{
  perl_unit, perl_units, create_regex_pattern-syntax,
}
use netspeak4_application_ng.Regex.Index.Reading.{
  IsUnicode, perl_units-IsPart, Encoded, UnitBytes, UnitsBytes, perl_word-Lang, perl_set-Lang,
}
use netspeak4_application_ng.Regex.Index.Character.{perl_any-Lang}

empty_bytes : to_bytes [] ≡ []
unfolding to_bytes
empty_bytes = refl

perl_unit-Lang : (u : RegexUnit) (w : Text) → IsUnicode u → PerlLang (perl_unit u) w → UnitBytes u w
unfolding perl_unit
perl_unit-Lang qmark w h x = perl_any-Lang w x
perl_unit-Lang star w h x = tt
perl_unit-Lang (word t) w h x = (t, perl_word-Lang t w x, refl, h)
perl_unit-Lang (char_set cs) w (h, l) x = perl_set-Lang cs w h l x
perl_unit-Lang (optional_word t) w h (inl e) = ([], e ∙ sym empty_bytes, inl refl, tt)
perl_unit-Lang (optional_word t) w h (inr x) = (t, perl_word-Lang t w x, inr refl, h)

perl_units-Lang :
    (us : List RegexUnit) (w : Text)
    → All IsUnicode us
    → PerlLang (perl_units us) w
    → UnitsBytes us w
unfolding perl_units
perl_units-Lang [] w h x = x
perl_units-Lang (u ∷ us) w (h, hs) (a, b, e, x, y) =
    (a, b, e, perl_unit-Lang u a h x, perl_units-Lang us b hs y)

-- What the units accept in an encoding: all of it, or what is behind some bytes.
abbrev Whole : List RegexUnit → Type 0
Whole us = (x rest : Text) → AreCodes x → to_bytes x ≡ rest → UnitsBytes us rest → UnitsLang us x

abbrev Behind : List RegexUnit → Type 0
Behind us =
    (x pre rest : Text)
    → AreCodes x
    → to_bytes x ≡ pre ++ rest
    → UnitsBytes us rest
    → (x₁ : Text) × (x₂ : Text) × (x ≡ x₁ ++ x₂) × UnitsLang us x₂

encoded-Whole :
    (u : RegexUnit) (us : List RegexUnit)
    → Whole us
    → (x : Text) → AreCodes x
    → (Encoded (UnitLang u) ⊙ UnitsBytes us) (to_bytes x)
    → UnitsLang (u ∷ us) x
encoded-Whole u us whole x k (a, b, e, (y, f, l, c), z) =
    let (x', p, q, v) = to_bytes-prefix y x b c k (e ∙ ap (λ t. t ++ b) f) in
    (y, x', p, l, whole x' b v (sym q) z)

encoded-Behind :
    (u : RegexUnit) (us : List RegexUnit)
    → Whole us
    → Behind us
    → (x pre rest : Text) → AreCodes x
    → to_bytes x ≡ pre ++ rest
    → (Encoded (UnitLang u) ⊙ UnitsBytes us) rest
    → (x₁ : Text) × (x₂ : Text) × (x ≡ x₁ ++ x₂) × UnitsLang (u ∷ us) x₂
encoded-Behind u us whole behind x pre rest k e (a, b, d, ([], f, l, c), z) =
    let (x₁, x₂, q, h) =
      behind x pre b k (e ∙ ap (λ t. pre ++ t) (d ∙ ap (λ t. t ++ b) (f ∙ empty_bytes))) z in
    (x₁, x₂, q, ([], x₂, refl, l, h))
encoded-Behind u us whole behind x pre rest k e (a, b, d, (m ∷ y, f, l, c), z) =
    let (n, ks, g, lead, _) = char_bytes-Shape m in
    let start : rest ≡ n ∷ ((ks ++ to_bytes y) ++ b) =
      d ∙ ap (λ t. t ++ b) (f ∙ cons_bytes ∙ ap (λ t. t ++ to_bytes y) g) in
    let (x₁, x₂, q, h, v) =
      to_bytes-behind x pre ((ks ++ to_bytes y) ++ b) n k lead (e ∙ ap (λ t. pre ++ t) start) in
    (x₁, x₂, q, encoded-Whole u us whole x₂ v (a, b, h ∙ sym start ∙ d, (m ∷ y, f, l, c), z))
  where
    cons_bytes : to_bytes (m ∷ y) ≡ char_bytes m ++ to_bytes y
    cons_bytes = unfold to_bytes in refl

star-Behind :
    (us : List RegexUnit)
    → Behind us
    → (x pre rest : Text) → AreCodes x
    → to_bytes x ≡ pre ++ rest
    → UnitsBytes (star ∷ us) rest
    → (x₁ : Text) × (x₂ : Text) × (x ≡ x₁ ++ x₂) × UnitsLang (star ∷ us) x₂
star-Behind us behind x pre rest k e (a, b, d, _, z) =
    let (x₁, x₂, q, h) =
      behind x (pre ++ a) b k (e ∙ ap (λ t. pre ++ t) d ∙ sym (append_assoc pre a b)) z in
    (x₁, x₂, q, ([], x₂, refl, tt, h))

star-Whole :
    (us : List RegexUnit)
    → Behind us
    → (x rest : Text) → AreCodes x
    → to_bytes x ≡ rest
    → UnitsBytes (star ∷ us) rest
    → UnitsLang (star ∷ us) x
star-Whole us behind x rest k e (a, b, d, _, z) =
    let (x₁, x₂, q, h) = behind x a b k (e ∙ d) z in (x₁, x₂, q, tt, h)

nothing-Whole : Whole []
unfolding to_bytes
nothing-Whole [] rest k e z = refl
nothing-Whole (c ∷ x) rest k e z = absurd (no_bytes c (to_bytes x) (e ∙ z))

nothing-Behind : Behind []
nothing-Behind x pre rest k e z = (x, [], sym (append-nil x), refl)

next-Whole : (u : RegexUnit) (us : List RegexUnit) → Whole us → Behind us → Whole (u ∷ us)
next-Whole star us whole behind x rest k e z = star-Whole us behind x rest k e z
next-Whole qmark us whole behind x rest k e z =
    encoded-Whole qmark us whole x k (subst (UnitsBytes (qmark ∷ us)) (sym e) z)
next-Whole (word t) us whole behind x rest k e z =
    encoded-Whole (word t) us whole x k (subst (UnitsBytes (word t ∷ us)) (sym e) z)
next-Whole (char_set t) us whole behind x rest k e z =
    encoded-Whole (char_set t) us whole x k (subst (UnitsBytes (char_set t ∷ us)) (sym e) z)
next-Whole (optional_word t) us whole behind x rest k e z =
    encoded-Whole (optional_word t) us whole x k
      (subst (UnitsBytes (optional_word t ∷ us)) (sym e) z)

next-Behind : (u : RegexUnit) (us : List RegexUnit) → Whole us → Behind us → Behind (u ∷ us)
next-Behind star us whole behind = star-Behind us behind
next-Behind qmark us whole behind = encoded-Behind qmark us whole behind
next-Behind (word t) us whole behind = encoded-Behind (word t) us whole behind
next-Behind (char_set t) us whole behind = encoded-Behind (char_set t) us whole behind
next-Behind (optional_word t) us whole behind = encoded-Behind (optional_word t) us whole behind

units-aligned : (us : List RegexUnit) → Whole us × Behind us
units-aligned [] = (nothing-Whole, nothing-Behind)
units-aligned (u ∷ us) =
    let (whole, behind) = units-aligned us in
    (next-Whole u us whole behind, next-Behind u us whole behind)

pub perl_units-UnitsLang :
    (us : List RegexUnit) (x : Text)
    → All IsUnicode us
    → AreCodes x
    → PerlLang (perl_units us) (to_bytes x)
    → UnitsLang us x
perl_units-UnitsLang us x h k p =
    (units-aligned us).0 x (to_bytes x) k refl (perl_units-Lang us (to_bytes x) h p)

-- What boost::regex documents of `regex_match` at an expression: a text that it matches is one of
-- those the expression stands for, where the expression is well written.
abbrev pub FollowsSyntax : Environment → Perl → Type 0
FollowsSyntax env r = IsPerl r → (w : Text) → env.regex_match (syntax r) w ≡ true → PerlLang r w

pub regex_match-Accepts :
    (env : Environment) (q : RegexQuery) (x : Text)
    → FollowsSyntax env (perl_units q.units)
    → All IsUnicode q.units
    → AreCodes x
    → env.regex_match (create_regex_pattern q) (to_bytes x) ≡ true
    → Accepts q (to_bytes x)
regex_match-Accepts env q x follows h k m = (
  x,
  refl,
  perl_units-UnitsLang q.units x h k (
      follows ((perl_units-IsPart q.units).0) (to_bytes x)
        (subst (λ p. env.regex_match p (to_bytes x) ≡ true) (create_regex_pattern-syntax q) m)),
)
