-- ===== src/Regex/Parser/Grammar.antt =====
-- Netspeak regexes as a grammar, and the words that their parts stand for.
use netspeak4_application_ng.Prelude.{
  ℕ, suc, ◌≤◌, ◌≡◌, ◌≢◌, ◌⊎◌, List, [], ◌∷◌, ◌++◌, length, replicate, Text, All,
}
use netspeak4_application_ng.Regex.Lang.{TextLang, ε, ◌⊙◌, OneOf}

pub data Part : Type 0 where
  literal : ℕ → Part
  any_char : Part
  any_text : Part
  some_text : Part
  optional_char : ℕ → Part
  one_of : Text → Part
  some_order : Text → Part

abbrev pub PartLang : Part → TextLang
PartLang (literal c) w = w ≡ c ∷ []
PartLang any_char w = length w ≡ 1
PartLang any_text w = Unit
PartLang some_text w = 1 ≤ length w
PartLang (optional_char c) w = (w ≡ []) ⊎ (w ≡ c ∷ [])
PartLang (one_of cs) w = (c : ℕ) × (w ≡ c ∷ []) × OneOf cs c
PartLang (some_order cs) w = (length w ≡ length cs) × All (OneOf cs) w

abbrev pub PartsLang : List Part → TextLang
PartsLang [] = ε
PartsLang (p ∷ ps) = PartLang p ⊙ PartsLang ps

abbrev pub Lacks : ℕ → Text → Type 0
Lacks c = All (λ d. d ≢ c)

-- No special character.
abbrev pub IsPlain : ℕ → Type 0
IsPlain c = (c ≢ b'?') × (c ≢ b'*') × (c ≢ b'+') × (c ≢ b'.') × (c ≢ b'[') × (c ≢ b'{')

abbrev pub StartsWithout : ℕ → Text → Type 0
StartsWithout c [] = Unit
StartsWithout c (d ∷ s) = d ≢ c

-- A text is read as a sequence of parts.
pub data Reads : Text → List Part → Type 0 where
  nothing : Reads [] []
  question_mark : {s : Text} {ps : List Part} → Reads s ps → Reads (b'?' ∷ s) (any_char ∷ ps)
  asterisk : {s : Text} {ps : List Part} → Reads s ps → Reads (b'*' ∷ s) (any_text ∷ ps)
  plus : {s : Text} {ps : List Part} → Reads s ps → Reads (b'+' ∷ s) (some_text ∷ ps)
  dot :
      {s : Text} {ps : List Part}
      → StartsWithout b'.' s
      → Reads s ps
      → Reads (b'.' ∷ s) (literal b'.' ∷ ps)
  -- Two dots or more.
  dots :
      {r s : Text} {ps : List Part} (n : ℕ)
      → r ≡ replicate (suc (suc n)) b'.' ++ s
      → StartsWithout b'.' s
      → Reads s ps
      → Reads r (any_text ∷ ps)
  bracket_one :
      {s : Text} {ps : List Part} (c : ℕ)
      → c ≢ b']'
      → Reads s ps
      → Reads (b'[' ∷ c ∷ b']' ∷ s) (optional_char c ∷ ps)
  bracket_many :
      {r s : Text} {ps : List Part} (t : Text)
      → r ≡ b'[' ∷ t ++ b']' ∷ s
      → Lacks b']' t
      → length t ≢ 1
      → Reads s ps
      → Reads r (one_of t ∷ ps)
  bracket_open :
      {s : Text} {ps : List Part} → Lacks b']' s → Reads s ps → Reads (b'[' ∷ s) (literal b'[' ∷ ps)
  brace :
      {r s : Text} {ps : List Part} (t : Text)
      → r ≡ b'{' ∷ t ++ b'}' ∷ s
      → Lacks b'}' t
      → Reads s ps
      → Reads r (some_order t ∷ ps)
  brace_open :
      {s : Text} {ps : List Part} → Lacks b'}' s → Reads s ps → Reads (b'{' ∷ s) (literal b'{' ∷ ps)
  plain :
      {s : Text} {ps : List Part} (c : ℕ) → IsPlain c → Reads s ps → Reads (c ∷ s) (literal c ∷ ps)
