-- ===== src/Regex/Index/Pattern.antt =====
-- The regular expression of the units of a query, and the pattern that create_regex_pattern writes.
use netspeak4_application_ng.Prelude.{
  ℕ, ◌<◌, ◌≡◌, refl, sym, ap, ap₂, ◌∙◌, inl, inr, true, Bool-cases, List, [], ◌∷◌, ◌++◌,
  append_assoc, append-nil, arith, Text, if◌then◌else◌,
}
use netspeak4_application_ng.Regex.Query.{
  RegexUnit, qmark, star, word, char_set, optional_word, RegexQuery,
}
use netspeak4_application_ng.Regex.Utf8.{char_bytes, to_bytes, to_bytes-append}
use netspeak4_application_ng.Regex.Index.Matching.{
  codes, is_known, special_characters, append_char, append_chars, append_choices, append_set,
  any_character, append_unit, append_units, create_regex_pattern,
}
use netspeak4_application_ng.Regex.Index.Perl.{Perl, syntax}

unfoldable pub bytes_of : Text → Perl
bytes_of [] = Perl.empty
bytes_of (b ∷ bs) = Perl.seq (Perl.literal b) (bytes_of bs)

-- A special character is escaped; another one stands for its bytes.
unfoldable pub perl_char : ℕ → Perl
perl_char c = if is_known special_characters c then Perl.escaped c else bytes_of (char_bytes c)

unfoldable pub perl_word : Text → Perl
perl_word [] = Perl.empty
perl_word (c ∷ cs) = Perl.seq (perl_char c) (perl_word cs)

unfoldable pub perl_choice : ℕ → Text → Perl
perl_choice c [] = perl_char c
perl_choice c (d ∷ cs) = Perl.choice (perl_char c) (perl_choice d cs)

unfoldable pub perl_set : Text → Perl
perl_set [] = Perl.empty
perl_set (c ∷ cs) = perl_choice c cs

-- The front of a character of three bytes, or of four.
unfoldable pub perl_front : Perl
perl_front = Perl.choice (Perl.range 0xE1 0xEC) (
    Perl.choice (Perl.range 0xEE 0xEF) (
      Perl.choice (Perl.seq (Perl.hex 0xF0) (Perl.range 0x90 0xBF)) (
        Perl.choice (Perl.seq (Perl.range 0xF1 0xF3) (Perl.range 0x80 0xBF))
          (Perl.seq (Perl.hex 0xF4) (Perl.range 0x80 0x8F)))))

-- One character in UTF-8: of one, two, three and four bytes.
unfoldable pub perl_any : Perl
unfolding perl_front
perl_any =
    let tail = Perl.range 0x80 0xBF in
    Perl.group (
      Perl.choice (Perl.range 0x00 0x7F) (
        Perl.seq
          (Perl.group (
            Perl.choice (Perl.range 0xC2 0xDF) (
              Perl.choice (Perl.seq (Perl.hex 0xE0) (Perl.range 0xA0 0xBF)) (
                Perl.choice (Perl.seq (Perl.hex 0xED) (Perl.range 0x80 0x9F))
                  (Perl.seq (Perl.group perl_front) tail)))))
          tail))

unfoldable pub perl_unit : RegexUnit → Perl
unfolding perl_any perl_set perl_word
perl_unit qmark = perl_any
perl_unit star = Perl.anything
perl_unit (char_set cs) = Perl.group (perl_set cs)
perl_unit (optional_word t) = Perl.optional (perl_word t)
perl_unit (word t) = perl_word t

unfoldable pub perl_units : List RegexUnit → Perl
unfolding perl_unit
perl_units [] = Perl.empty
perl_units (u ∷ us) = Perl.seq (perl_unit u) (perl_units us)

-- What the code appends for a character, in code points.
char_pattern : ℕ → Text
char_pattern c = if is_known special_characters c then b'\\' ∷ c ∷ [] else c ∷ []

append_char-eq : (pattern : Text) (c : ℕ) → append_char pattern c ≡ pattern ++ char_pattern c
unfolding append_char char_pattern
append_char-eq pattern c = elim (Bool-cases (is_known special_characters c)) [
  | inl e ↦ rw e refl
  | inr e ↦ rw e refl
]

syntax-bytes_of : (bs : Text) → syntax (bytes_of bs) ≡ bs
unfolding syntax bytes_of
syntax-bytes_of [] = refl
syntax-bytes_of (b ∷ bs) = ap (λ t. b ∷ t) (syntax-bytes_of bs)

special-lt : (c : ℕ) → is_known special_characters c ≡ true → c < 128
unfolding is_known
special-lt c h = ground arith

char_bytes-ascii : (c : ℕ) → c < 128 → char_bytes c ≡ c ∷ []
unfolding char_bytes
char_bytes-ascii c h = ground arith

syntax-perl_char : (c : ℕ) → to_bytes (char_pattern c) ≡ syntax (perl_char c)
unfolding char_pattern perl_char syntax to_bytes
syntax-perl_char c = elim (Bool-cases (is_known special_characters c)) [
  | inl e ↦ rw e (
      ap₂ (λ s t. s ++ (t ++ [])) (char_bytes-ascii 92 (omega arith))
        (char_bytes-ascii c (special-lt c e)))
  | inr e ↦ rw e (append-nil (char_bytes c) ∙ sym (syntax-bytes_of (char_bytes c)))
]

to_bytes-append_char :
    (pattern : Text) (c : ℕ)
    → to_bytes (append_char pattern c) ≡ to_bytes pattern ++ syntax (perl_char c)
to_bytes-append_char pattern c =
    ap to_bytes (append_char-eq pattern c)
    ∙ to_bytes-append pattern (char_pattern c)
    ∙ ap (λ t. to_bytes pattern ++ t) (syntax-perl_char c)

to_bytes-append_chars :
    (t pattern : Text)
    → to_bytes (append_chars pattern t) ≡ to_bytes pattern ++ syntax (perl_word t)
unfolding append_chars perl_word syntax
to_bytes-append_chars [] pattern = sym (append-nil (to_bytes pattern))
to_bytes-append_chars (c ∷ cs) pattern =
    to_bytes-append_chars cs (append_char pattern c)
    ∙ ap (λ t. t ++ syntax (perl_word cs)) (to_bytes-append_char pattern c)
    ∙ append_assoc (to_bytes pattern) (syntax (perl_char c)) (syntax (perl_word cs))

to_bytes-append_choices :
    (cs pattern : Text) (c : ℕ)
    → to_bytes (append_choices (append_char pattern c) cs)
      ≡ to_bytes pattern ++ syntax (perl_choice c cs)
unfolding append_choices perl_choice syntax
to_bytes-append_choices [] pattern c = to_bytes-append_char pattern c
to_bytes-append_choices (d ∷ cs) pattern c =
    to_bytes-append_choices cs (append_char pattern c ++ b'|' ∷ []) d
    ∙ ap (λ t. t ++ syntax (perl_choice d cs))
        (to_bytes-append (append_char pattern c) (b'|' ∷ [])
          ∙ ap₂ (λ s t. s ++ t) (to_bytes-append_char pattern c) bar
          ∙ append_assoc (to_bytes pattern) (syntax (perl_char c)) (b'|' ∷ []))
    ∙ append_assoc (to_bytes pattern) (syntax (perl_char c) ++ b'|' ∷ [])
        (syntax (perl_choice d cs))
    ∙ ap (λ t. to_bytes pattern ++ t)
        (append_assoc (syntax (perl_char c)) (b'|' ∷ []) (syntax (perl_choice d cs)))
  where
    bar : to_bytes (b'|' ∷ []) ≡ b'|' ∷ []
    bar = unfold to_bytes in unfold char_bytes in refl

to_bytes-append_set :
    (cs pattern : Text)
    → to_bytes (append_set pattern cs) ≡ to_bytes pattern ++ syntax (perl_set cs)
unfolding append_set perl_set syntax
to_bytes-append_set [] pattern = sym (append-nil (to_bytes pattern))
to_bytes-append_set (c ∷ cs) pattern = to_bytes-append_choices cs pattern c

-- A group around what is appended.
around :
    (pattern inner : Text) (open' close' : Text) (middle : Text)
    → to_bytes open' ≡ open'
    → to_bytes close' ≡ close'
    → to_bytes inner ≡ to_bytes (pattern ++ open') ++ middle
    → to_bytes (inner ++ close') ≡ to_bytes pattern ++ (open' ++ (middle ++ close'))
around pattern inner open' close' middle e f h =
    to_bytes-append inner close'
    ∙ ap₂ (λ s t. s ++ t) (h ∙ ap (λ t. t ++ middle) (to_bytes-append pattern open')) f
    ∙ ap (λ t. ((to_bytes pattern ++ t) ++ middle) ++ close') e
    ∙ append_assoc (to_bytes pattern ++ open') middle close'
    ∙ append_assoc (to_bytes pattern) open' (middle ++ close')

any-syntax : to_bytes any_character ≡ syntax perl_any
unfolding to_bytes char_bytes syntax perl_any perl_front
any-syntax = refl

star-syntax : to_bytes (codes ".*") ≡ codes ".*"
unfolding to_bytes char_bytes
star-syntax = refl

open-syntax : to_bytes (codes "(?:") ≡ codes "(?:"
unfolding to_bytes char_bytes
open-syntax = refl

close-syntax : to_bytes (codes ")") ≡ codes ")"
unfolding to_bytes char_bytes
close-syntax = refl

maybe-syntax : to_bytes (codes ")?") ≡ codes ")?"
unfolding to_bytes char_bytes
maybe-syntax = refl

to_bytes-append_unit :
    (pattern : Text) (u : RegexUnit)
    → to_bytes (append_unit pattern u) ≡ to_bytes pattern ++ syntax (perl_unit u)
unfolding append_unit perl_unit syntax
to_bytes-append_unit pattern qmark =
    to_bytes-append pattern any_character ∙ ap (λ t. to_bytes pattern ++ t) any-syntax
to_bytes-append_unit pattern star =
    to_bytes-append pattern (codes ".*") ∙ ap (λ t. to_bytes pattern ++ t) star-syntax
to_bytes-append_unit pattern (char_set cs) =
    around pattern (append_set (pattern ++ codes "(?:") cs) (codes "(?:") (codes ")")
      (syntax (perl_set cs)) open-syntax close-syntax
      (to_bytes-append_set cs (pattern ++ codes "(?:"))
to_bytes-append_unit pattern (optional_word t) =
    around pattern (append_chars (pattern ++ codes "(?:") t) (codes "(?:") (codes ")?")
      (syntax (perl_word t)) open-syntax maybe-syntax
      (to_bytes-append_chars t (pattern ++ codes "(?:"))
to_bytes-append_unit pattern (word t) = to_bytes-append_chars t pattern

to_bytes-append_units :
    (us : List RegexUnit) (pattern : Text)
    → to_bytes (append_units pattern us) ≡ to_bytes pattern ++ syntax (perl_units us)
unfolding append_units perl_units syntax
to_bytes-append_units [] pattern = sym (append-nil (to_bytes pattern))
to_bytes-append_units (u ∷ us) pattern =
    to_bytes-append_units us (append_unit pattern u)
    ∙ ap (λ t. t ++ syntax (perl_units us)) (to_bytes-append_unit pattern u)
    ∙ append_assoc (to_bytes pattern) (syntax (perl_unit u)) (syntax (perl_units us))

pub create_regex_pattern-syntax :
    (q : RegexQuery) → create_regex_pattern q ≡ syntax (perl_units q.units)
unfolding create_regex_pattern to_bytes
create_regex_pattern-syntax q = to_bytes-append_units q.units []
