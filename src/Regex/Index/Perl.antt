-- ===== src/Regex/Index/Perl.antt =====
-- The regular expressions of boost::regex that the search for words writes: their syntax and the
-- texts that they match, byte by byte, as the documentation of the Perl syntax describes them.
use netspeak4_application_ng.Prelude.{
  ℕ, ◌+◌, ◌-◌, ◌/◌, ◌%◌, ◌≤◌, ◌<◌, ◌≡◌, ◌⊎◌, List, [], ◌∷◌, ◌++◌, Text, ltb, if◌then◌else◌, Any,
}
use netspeak4_application_ng.Regex.Lang.{TextLang, ◌⊙◌}
use netspeak4_application_ng.Regex.Index.Matching.{codes}

pub data Perl : Type 0 where
  literal : ℕ → Perl
  escaped : ℕ → Perl
  hex : ℕ → Perl
  range : ℕ → ℕ → Perl
  anything : Perl
  empty : Perl
  seq : Perl → Perl → Perl
  choice : Perl → Perl → Perl
  group : Perl → Perl
  optional : Perl → Perl

hex_digit : ℕ → ℕ
hex_digit n = if ltb n 10 then b'0' + n else b'A' + (n - 10)

hex_byte : ℕ → Text
unfolding hex_digit
hex_byte n = b'\\' ∷ b'x' ∷ hex_digit (n / 16) ∷ hex_digit (n % 16) ∷ []

unfoldable pub syntax : Perl → Text
unfolding hex_byte
syntax (literal b) = b ∷ []
syntax (escaped b) = b'\\' ∷ b ∷ []
syntax (hex b) = hex_byte b
syntax (range lo hi) = b'[' ∷ (hex_byte lo ++ b'-' ∷ (hex_byte hi ++ b']' ∷ []))
syntax anything = codes ".*"
syntax empty = []
syntax (seq r s) = syntax r ++ syntax s
syntax (choice r s) = syntax r ++ b'|' ∷ syntax s
syntax (group r) = codes "(?:" ++ (syntax r ++ codes ")")
syntax (optional r) = codes "(?:" ++ (syntax r ++ codes ")?")

-- The characters that have a meaning of their own unless they are escaped.
abbrev pub perl_special : List ℕ
perl_special = codes ".[{}()\\*+?|^$"

-- The characters that may be escaped to stand for themselves: ASCII, and no letter or digit.
abbrev pub MayBeEscaped : ℕ → Type 0
MayBeEscaped b =
    (b < b'0') ⊎ ((b'9' < b) × (b < b'A')) ⊎ ((b'Z' < b) × (b < b'a')) ⊎ ((b'z' < b) × (b < 128))

-- A choice reaches to the end of its group.
abbrev pub IsOneChoice : Perl → Type 0
IsOneChoice (choice _ _) = ⊥
IsOneChoice (seq r s) = IsOneChoice r × IsOneChoice s
IsOneChoice _ = Unit

-- What the syntax is read as.
abbrev pub IsPerl : Perl → Type 0
IsPerl (literal b) = ¬ (Any (λ d. b ≡ d) perl_special)
IsPerl (escaped b) = MayBeEscaped b
IsPerl (hex b) = b < 256
IsPerl (range lo hi) = (lo ≤ hi) × (hi < 256)
IsPerl anything = Unit
IsPerl empty = Unit
IsPerl (seq r s) = IsPerl r × IsPerl s × IsOneChoice r × IsOneChoice s
IsPerl (choice r s) = IsPerl r × IsPerl s × IsOneChoice r
IsPerl (group r) = IsPerl r
IsPerl (optional r) = IsPerl r

abbrev pub PerlLang : Perl → TextLang
PerlLang (literal b) w = w ≡ b ∷ []
PerlLang (escaped b) w = w ≡ b ∷ []
PerlLang (hex b) w = w ≡ b ∷ []
PerlLang (range lo hi) w = (b : ℕ) × (w ≡ b ∷ []) × (lo ≤ b) × (b ≤ hi)
PerlLang anything w = Unit
PerlLang empty w = w ≡ []
PerlLang (seq r s) w = (PerlLang r ⊙ PerlLang s) w
PerlLang (choice r s) w = PerlLang r w ⊎ PerlLang s w
PerlLang (group r) w = PerlLang r w
PerlLang (optional r) w = (w ≡ []) ⊎ PerlLang r w
