-- ===== src/Model/SimpleQuery.antt =====
-- netspeak/model/SimpleQuery.hpp and SimpleQuery.cpp: the units of simple queries.
pub mod Length
pub mod Ranges
pub mod Empty
pub mod Edit
pub mod Equal
pub mod Zero
use netspeak4_application_ng.Prelude.{
  ℕ, zero, suc, ◌+◌, ◌%◌, Bool, true, false, not, ◌&&◌, ◌||◌, List, [], ◌∷◌, ◌++◌, Text, text_eq,
  if◌then◌else◌, ◌≡◌, Phrase, length, ◌==◌, ltb, u32_mod, uint32_max, Result, ok, throw,
  tracable_logic_error, leb, ◌>>=◌,
}
use netspeak4_application_ng.Model.LengthRange
use netspeak4_application_ng.Model.LengthRange.{
  LengthRange, no_length, at_least, between, is_empty, concat_assign, union_assign,
}
use netspeak4_application_ng.Model.NormQuery.{Source}
use netspeak4_application_ng.Language.{Lang, ε, ◌⊙◌, ◌⊕◌, OneWord, AnyPhrase}

-- One constructor for each `Tag`. Terminals have no children; the text of the other tags is fixed.
mutual
  pub data SimpleQueryUnit : Type 0 where
    word : Text → Source → SimpleQueryUnit
    qmark : Source → SimpleQueryUnit
    star : Source → SimpleQueryUnit
    regex : Text → Source → SimpleQueryUnit
    concat : Source → Children → SimpleQueryUnit
    alternation : Source → Children → SimpleQueryUnit

  pub data Children : Type 0 where
    nil : Children
    cons : SimpleQueryUnit → Children → Children

-- The children as a list, and back.
unfoldable pub to_list : Children → List SimpleQueryUnit
to_list nil = []
to_list (cons u us) = u ∷ to_list us

unfoldable pub from_list : List SimpleQueryUnit → Children
from_list [] = nil
from_list (u ∷ us) = cons u (from_list us)

pub data Tag : Type 0 where
  word_tag qmark_tag star_tag regex_tag concat_tag alternation_tag : Tag

unfoldable pub tag : SimpleQueryUnit → Tag
tag (word _ _) = word_tag
tag (qmark _) = qmark_tag
tag (star _) = star_tag
tag (regex _ _) = regex_tag
tag (concat _ _) = concat_tag
tag (alternation _ _) = alternation_tag

unfoldable pub source : SimpleQueryUnit → Source
source (word _ s) = s
source (qmark s) = s
source (star s) = s
source (regex _ s) = s
source (concat s _) = s
source (alternation s _) = s

unfoldable pub children : SimpleQueryUnit → List SimpleQueryUnit
unfolding to_list
children (concat _ us) = to_list us
children (alternation _ us) = to_list us
children _ = []

pub is_terminal : SimpleQueryUnit → Bool
is_terminal (concat _ _) = false
is_terminal (alternation _ _) = false
is_terminal _ = true

-- `Unit::length_range`. The loop over the children of a concatenation stops at an empty range.
unfoldable mutual
  pub length_range : SimpleQueryUnit → LengthRange
  length_range (star _) = at_least 0
  length_range (word _ _) = between 1 1
  length_range (qmark _) = between 1 1
  length_range (regex _ _) = between 1 1
  length_range (alternation _ us) = union_range no_length us
  length_range (concat _ us) = concat_range (between 0 0) us

  pub union_range : LengthRange → Children → LengthRange
  union_range r nil = r
  union_range r (cons u us) = union_range (union_assign r (length_range u)) us

  pub concat_range : LengthRange → Children → LengthRange
  concat_range r nil = r
  concat_range r (cons u us) =
      let r' = concat_assign r (length_range u) in
      let rest = concat_range r' us in if is_empty r' then r' else rest

-- `Unit::min_length`. Both loops return early: at 0, and at a child that accepts nothing.
unfoldable mutual
  pub min_length : SimpleQueryUnit → ℕ
  min_length (star _) = 0
  min_length (word _ _) = 1
  min_length (qmark _) = 1
  min_length (regex _ _) = 1
  min_length (alternation _ us) = min_of uint32_max us
  min_length (concat _ us) = sum_of 0 us

  pub min_of : ℕ → Children → ℕ
  min_of min nil = min
  min_of min (cons u us) =
      let c_min = min_length u in
      let lower = min_of c_min us in
      let rest = min_of min us in if ltb c_min min then (if c_min == 0 then 0 else lower) else rest

  pub sum_of : ℕ → Children → ℕ
  sum_of min nil = min
  sum_of min (cons u us) =
      let c_min = min_length u in
      let rest = sum_of ((min + c_min) % u32_mod) us in
      if c_min == uint32_max then uint32_max else rest

-- `Unit::add_child`, which refuses terminals.
unfoldable pub push_back : Children → SimpleQueryUnit → Children
push_back nil u = cons u nil
push_back (cons v us) u = cons v (push_back us u)

pub add_child : SimpleQueryUnit → SimpleQueryUnit → Result SimpleQueryUnit
unfolding push_back
add_child (concat s us) u = ok (concat s (push_back us u))
add_child (alternation s us) u = ok (alternation s (push_back us u))
add_child _ u = throw tracable_logic_error

-- The unit with these children instead. A terminal keeps having none.
pub with_children : SimpleQueryUnit → Children → SimpleQueryUnit
with_children (concat s _) us = concat s us
with_children (alternation s _) us = alternation s us
with_children (word t s) us = word t s
with_children (qmark s) us = qmark s
with_children (star s) us = star s
with_children (regex t s) us = regex t s

-- The children of a unit, whatever it is.
pub child_list : SimpleQueryUnit → Children
child_list (concat _ us) = us
child_list (alternation _ us) = us
child_list _ = nil

-- `Unit::remove_child`: what is left, and the child.
pub take_child : Children → ℕ → Result (Children × SimpleQueryUnit)
take_child nil i = throw tracable_logic_error
take_child (cons u us) zero = ok (us, u)
take_child (cons u us) (suc i) = do (rest, child) ← take_child us i; ok (cons u rest, child)

pub remove_child : SimpleQueryUnit → ℕ → Result (SimpleQueryUnit × SimpleQueryUnit)
unfolding take_child child_list with_children
remove_child unit i = do
  (rest, child) ← take_child (child_list unit) i
  ok (with_children unit rest, child)

-- `Unit::pop_back`: what is left, and the last child.
pub take_last : SimpleQueryUnit → Children → Children × SimpleQueryUnit
take_last u nil = (nil, u)
take_last u (cons v us) = let (rest, child) = take_last v us in (cons u rest, child)

pub pop_children : Children → Result (Children × SimpleQueryUnit)
unfolding take_last
pop_children nil = throw tracable_logic_error
pop_children (cons u us) = ok (take_last u us)

pub pop_back : SimpleQueryUnit → Result (SimpleQueryUnit × SimpleQueryUnit)
unfolding pop_children child_list with_children
pop_back unit = do
  (rest, child) ← pop_children (child_list unit)
  ok (with_children unit rest, child)

pub clear_children : SimpleQueryUnit → SimpleQueryUnit
unfolding with_children
clear_children unit = with_children unit nil

-- `Unit::drain_children`: the unit without its children, and the children.
unfoldable pub drain_children : SimpleQueryUnit → SimpleQueryUnit × List SimpleQueryUnit
unfolding clear_children children
drain_children unit = (clear_children unit, children unit)

-- `operator==`: the sources do not count.
unfoldable mutual
  unfolding text_eq

  pub unit_eq : SimpleQueryUnit → SimpleQueryUnit → Bool
  unit_eq (word t _) (word t' _) = text_eq t t'
  unit_eq (qmark _) (qmark _) = true
  unit_eq (star _) (star _) = true
  unit_eq (regex t _) (regex t' _) = text_eq t t'
  unit_eq (concat _ us) (concat _ us') = children_eq us us'
  unit_eq (alternation _ us) (alternation _ us') = children_eq us us'
  unit_eq _ _ = false

  pub children_eq : Children → Children → Bool
  children_eq nil nil = true
  children_eq (cons u us) (cons u' us') = unit_eq u u' && children_eq us us'
  children_eq _ _ = false

is_wildcard : Tag → Bool
is_wildcard qmark_tag = true
is_wildcard star_tag = true
is_wildcard _ = false

-- `unit_contains_wildcards`, with its test of `is_terminal` as it stands in the code: for a terminal
-- it goes through the children, of which there are none.
pub unit_contains_wildcards : SimpleQueryUnit → Bool
unfolding is_terminal tag is_wildcard
unit_contains_wildcards u = if is_terminal u then false else is_wildcard (tag u)

pub has_wildcards : SimpleQueryUnit → Bool
unfolding unit_contains_wildcards
has_wildcards root = unit_contains_wildcards root

-- What a simple query accepts. `matches` says which words a regular expression stands for.
module _ (matches : Text → Text → Type 0) where
  abbrev mutual
    pub SimpleLang : SimpleQueryUnit → Lang
    SimpleLang (word t _) = OneWord (λ w. w ≡ t)
    SimpleLang (qmark _) = OneWord (λ _. Unit)
    SimpleLang (star _) = AnyPhrase
    SimpleLang (regex t _) = OneWord (matches t)
    SimpleLang (concat _ us) = ConcatLang us
    SimpleLang (alternation _ us) = AlternationLang us

    pub ConcatLang : Children → Lang
    ConcatLang nil = ε
    ConcatLang (cons u us) = SimpleLang u ⊙ ConcatLang us

    pub AlternationLang : Children → Lang
    AlternationLang nil = λ _. ⊥
    AlternationLang (cons u us) = SimpleLang u ⊕ AlternationLang us

-- No regular expression is left: `normalize_regexes` has replaced them.
abbrev mutual
  pub HasNoRegex : SimpleQueryUnit → Type 0
  HasNoRegex (regex _ _) = ⊥
  HasNoRegex (concat _ us) = HaveNoRegex us
  HasNoRegex (alternation _ us) = HaveNoRegex us
  HasNoRegex _ = Unit

  pub HaveNoRegex : Children → Type 0
  HaveNoRegex nil = Unit
  HaveNoRegex (cons u us) = HasNoRegex u × HaveNoRegex us

-- The number of terminals in a simple query.
unfoldable mutual
  pub terminals : SimpleQueryUnit → ℕ
  terminals (concat _ us) = terminals_of us
  terminals (alternation _ us) = terminals_of us
  terminals _ = 1

  pub terminals_of : Children → ℕ
  terminals_of nil = 0
  terminals_of (cons u us) = terminals u + terminals_of us
