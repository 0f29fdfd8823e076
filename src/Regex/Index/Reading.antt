-- ===== src/Regex/Index/Reading.antt =====
-- How the regular expression of a query is read: whether it is well written, and the encodings that
-- its parts stand for.
use netspeak4_application_ng.Prelude.{
  ℕ, ◌≤◌, ◌≡◌, refl, sym, ap₂, subst, ◌∙◌, inl, inr, true, false, Bool-cases, List, [], ◌∷◌, ◌++◌,
  append-nil, arith, All, Any, Text, length, ltb,
}
use netspeak4_application_ng.Regex.Query.{RegexUnit, qmark, star, word, char_set, optional_word}
use netspeak4_application_ng.Regex.Lang.{TextLang, ◌⊙◌, UnitLang, OneOf}
use netspeak4_application_ng.Regex.Utf8.{char_bytes, to_bytes}
use netspeak4_application_ng.Regex.Utf8.Decode.{IsCode, char_bytes-Forms}
use netspeak4_application_ng.Regex.Utf8.Align.{AreCodes}
use netspeak4_application_ng.Regex.Index.Matching.{is_known, special_characters}
use netspeak4_application_ng.Regex.Index.Perl.{
  Perl, IsPerl, IsOneChoice, PerlLang, MayBeEscaped, perl_special,
}
use netspeak4_application_ng.Regex.Index.Pattern.{
  bytes_of, perl_char, perl_word, perl_choice, perl_set, perl_front, perl_any, perl_unit,
  perl_units,
}

-- The units hold code points, and a set holds at least one.
abbrev pub IsUnicode : RegexUnit → Type 0
IsUnicode (word t) = AreCodes t
IsUnicode (optional_word t) = AreCodes t
IsUnicode (char_set cs) = AreCodes cs × (1 ≤ length cs)
IsUnicode _ = Unit

abbrev IsPlain : ℕ → Type 0
IsPlain b = ¬ (Any (λ d. b ≡ d) perl_special)

high-IsPlain : (b : ℕ) → 128 ≤ b → IsPlain b
high-IsPlain b h x = ground arith

unknown-IsPlain : (c : ℕ) → is_known special_characters c ≡ false → IsPlain c
unfolding is_known
unknown-IsPlain c h x = ground arith

escaped-known : (c : ℕ) → is_known special_characters c ≡ true → MayBeEscaped c
unfolding is_known
escaped-known c h = ground arith

char_bytes-IsPlain : (c : ℕ) → IsPlain c → All IsPlain (char_bytes c)
char_bytes-IsPlain c h = elim (char_bytes-Forms c) [
  | inl (a, e) ↦ subst (All IsPlain) (sym e) (h, tt)
  | inr (inl (a, b, e)) ↦
      subst (All IsPlain) (sym e) (high-IsPlain _ (omega arith), (high-IsPlain _ (omega arith), tt))
  | inr (inr (inl (a, b, e))) ↦ subst (All IsPlain) (sym e) (
    high-IsPlain _ (omega arith),
    (high-IsPlain _ (omega arith), (high-IsPlain _ (omega arith), tt)),
  )
  | inr (inr (inr (a, e))) ↦ subst (All IsPlain) (sym e) (
    high-IsPlain _ (omega arith),
    (
      high-IsPlain _ (omega arith),
      (high-IsPlain _ (omega arith), (high-IsPlain _ (omega arith), tt)),
    ),
  )
]

-- Well written, and no choice outside a group.
abbrev IsPart : Perl → Type 0
IsPart r = IsPerl r × IsOneChoice r

bytes_of-IsPart : (bs : Text) → All IsPlain bs → IsPart (bytes_of bs)
unfolding bytes_of
bytes_of-IsPart [] h = (tt, tt)
bytes_of-IsPart (b ∷ bs) (h, hs) = let (p, o) = bytes_of-IsPart bs hs in ((h, p, tt, o), (tt, o))

perl_char-IsPart : (c : ℕ) → IsPart (perl_char c)
unfolding perl_char
perl_char-IsPart c = elim (Bool-cases (is_known special_characters c)) [
  | inl e ↦ rw e (escaped-known c e, tt)
  | inr e ↦ rw e (bytes_of-IsPart (char_bytes c) (char_bytes-IsPlain c (unknown-IsPlain c e)))
]

perl_word-IsPart : (t : Text) → IsPart (perl_word t)
unfolding perl_word
perl_word-IsPart [] = (tt, tt)
perl_word-IsPart (c ∷ t) =
    let (p, o) = perl_char-IsPart c in
    let (p', o') = perl_word-IsPart t in ((p, p', o, o'), (o, o'))

perl_choice-IsPerl : (c : ℕ) (cs : Text) → IsPerl (perl_choice c cs)
unfolding perl_choice
perl_choice-IsPerl c [] = (perl_char-IsPart c).0
perl_choice-IsPerl c (d ∷ cs) = let (p, o) = perl_char-IsPart c in (p, perl_choice-IsPerl d cs, o)

perl_set-IsPerl : (cs : Text) → IsPerl (perl_set cs)
unfolding perl_set
perl_set-IsPerl [] = tt
perl_set-IsPerl (c ∷ cs) = perl_choice-IsPerl c cs

perl_any-IsPart : IsPart perl_any
unfolding perl_any perl_front
perl_any-IsPart = ground arith

perl_unit-IsPart : (u : RegexUnit) → IsPart (perl_unit u)
unfolding perl_unit
perl_unit-IsPart qmark = perl_any-IsPart
perl_unit-IsPart star = (tt, tt)
perl_unit-IsPart (char_set cs) = (perl_set-IsPerl cs, tt)
perl_unit-IsPart (optional_word t) = ((perl_word-IsPart t).0, tt)
perl_unit-IsPart (word t) = perl_word-IsPart t

pub perl_units-IsPart : (us : List RegexUnit) → IsPart (perl_units us)
unfolding perl_units
perl_units-IsPart [] = (tt, tt)
perl_units-IsPart (u ∷ us) =
    let (p, o) = perl_unit-IsPart u in
    let (p', o') = perl_units-IsPart us in ((p, p', o, o'), (o, o'))

-- Encodings of the words of a set.
abbrev pub Encoded : TextLang → TextLang
Encoded L b = (y : Text) × (b ≡ to_bytes y) × L y × AreCodes y

abbrev pub UnitBytes : RegexUnit → TextLang
UnitBytes star b = Unit
UnitBytes u b = Encoded (UnitLang u) b

abbrev pub UnitsBytes : List RegexUnit → TextLang
UnitsBytes [] b = b ≡ []
UnitsBytes (u ∷ us) b = (UnitBytes u ⊙ UnitsBytes us) b

bytes_of-Lang : (bs w : Text) → PerlLang (bytes_of bs) w → w ≡ bs
unfolding bytes_of
bytes_of-Lang [] w h = h
bytes_of-Lang (b ∷ bs) w (x, y, e, f, g) = e ∙ ap₂ (λ s t. s ++ t) f (bytes_of-Lang bs y g)

special-ascii : (c : ℕ) → is_known special_characters c ≡ true → c ∷ [] ≡ char_bytes c
unfolding is_known char_bytes
special-ascii c h = rw (small c h) refl
  where
    small : (d : ℕ) → is_known special_characters d ≡ true → ltb d 0x80 ≡ true
    small d k = unfold is_known in ground arith

perl_char-Lang : (c : ℕ) (w : Text) → PerlLang (perl_char c) w → w ≡ char_bytes c
unfolding perl_char
perl_char-Lang c w h = elim (Bool-cases (is_known special_characters c)) [
  | inl e ↦ (rw e at h) ∙ special-ascii c e
  | inr e ↦ bytes_of-Lang (char_bytes c) w (rw e at h)
]

pub perl_word-Lang : (t w : Text) → PerlLang (perl_word t) w → w ≡ to_bytes t
unfolding perl_word to_bytes
perl_word-Lang [] w h = h
perl_word-Lang (c ∷ t) w (x, y, e, f, g) =
    e ∙ ap₂ (λ u v. u ++ v) (perl_char-Lang c x f) (perl_word-Lang t y g)

perl_choice-Lang :
    (c : ℕ) (cs w : Text)
    → PerlLang (perl_choice c cs) w
    → (d : ℕ) × OneOf (c ∷ cs) d × (w ≡ char_bytes d)
unfolding perl_choice
perl_choice-Lang c [] w h = (c, inl refl, perl_char-Lang c w h)
perl_choice-Lang c (d ∷ cs) w (inl h) = (c, inl refl, perl_char-Lang c w h)
perl_choice-Lang c (d ∷ cs) w (inr h) = let (b, m, e) = perl_choice-Lang d cs w h in (b, inr m, e)

OneOf-IsCode : (cs : Text) (d : ℕ) → AreCodes cs → OneOf cs d → IsCode d
OneOf-IsCode [] d h m = absurd m
OneOf-IsCode (c ∷ cs) d (h, hs) (inl e) = subst IsCode (sym e) h
OneOf-IsCode (c ∷ cs) d (h, hs) (inr m) = OneOf-IsCode cs d hs m

pub one_char : (d : ℕ) → char_bytes d ≡ to_bytes (d ∷ [])
unfolding to_bytes
one_char d = sym (append-nil (char_bytes d))

pub perl_set-Lang :
    (cs w : Text)
    → AreCodes cs
    → 1 ≤ length cs
    → PerlLang (perl_set cs) w
    → Encoded (UnitLang (char_set cs)) w
unfolding perl_set
perl_set-Lang [] w h l x = absurd (omega arith)
perl_set-Lang (c ∷ cs) w h l x =
    let (d, m, e) = perl_choice-Lang c cs w x in
    (d ∷ [], e ∙ one_char d, (d, refl, m), (OneOf-IsCode (c ∷ cs) d h m, tt))
