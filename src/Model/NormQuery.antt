-- ===== src/Model/NormQuery.antt =====
-- netspeak/model/NormQuery.hpp and NormQuery.cpp: sequences of words and question marks.
pub mod Counts
use netspeak4_application_ng.Prelude.{
  ℕ, suc, Bool, true, false, ◌&&◌, List, [], ◌∷◌, Text, text_eq, if◌then◌else◌, ◌≡◌, length, ◌==◌,
}
use netspeak4_application_ng.Language.{Lang, ε, ◌⊙◌, OneWord}

-- `NormQueryUnit__::Source`: the addresses of the query and of the unit that a unit stems from.
pub record Source : Type 0 where
  pub query : ℕ
  pub unit : ℕ

-- `Tag` with the fields that go with it. The text of a question mark is always "?".
pub data NormQueryUnit : Type 0 where
  word : Text → Source → NormQueryUnit
  qmark : Source → NormQueryUnit

abbrev pub NormQuery : Type 0
NormQuery = List NormQueryUnit

unfoldable pub unit_eq : NormQueryUnit → NormQueryUnit → Bool
unit_eq (word s _) (word t _) = text_eq s t
unit_eq (qmark _) (qmark _) = true
unit_eq _ _ = false

pub has_qmarks : NormQuery → Bool
has_qmarks [] = false
has_qmarks (qmark _ ∷ units) = true
has_qmarks (word _ _ ∷ units) = has_qmarks units

pub has_words : NormQuery → Bool
has_words [] = false
has_words (word _ _ ∷ units) = true
has_words (qmark _ ∷ units) = has_words units

pub count_qmarks : NormQuery → ℕ
count_qmarks [] = 0
count_qmarks (qmark _ ∷ units) = suc (count_qmarks units)
count_qmarks (word _ _ ∷ units) = count_qmarks units

pub count_words : NormQuery → ℕ
count_words [] = 0
count_words (word _ _ ∷ units) = suc (count_words units)
count_words (qmark _ ∷ units) = count_words units

-- The loop of `operator==`, behind its test of the sizes.
pub units_eq : NormQuery → NormQuery → Bool
unfolding unit_eq
units_eq [] _ = true
units_eq (u ∷ us) [] = true
units_eq (u ∷ us) (v ∷ vs) = unit_eq u v && units_eq us vs

unfoldable pub query_eq : NormQuery → NormQuery → Bool
unfolding units_eq unit_eq
query_eq lhs rhs = if length lhs == length rhs then units_eq lhs rhs else false

-- What a norm query matches: a word itself, a question mark any one word.
abbrev pub NormQueryUnitLang : NormQueryUnit → Lang
NormQueryUnitLang (word t _) = OneWord (λ w. w ≡ t)
NormQueryUnitLang (qmark _) = OneWord (λ _. Unit)

abbrev pub NormQueryLang : NormQuery → Lang
NormQueryLang [] = ε
NormQueryLang (u ∷ us) = NormQueryUnitLang u ⊙ NormQueryLang us
