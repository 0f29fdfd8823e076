-- ===== src/Model/Query.antt =====
-- netspeak/model/Query.hpp and Query.cpp: parsed queries, as the user wrote them.
use netspeak4_application_ng.Prelude.{ℕ, Bool, true, false, Text, if◌then◌else◌}
use netspeak4_application_ng.Model.LengthRange.{
  LengthRange, no_length, at_least, between, is_empty, concat_assign, union_assign,
}

-- One constructor for each `Tag`, with the text where it is not fixed, and `self`: the address of
-- the unit, by which later units name their source.
mutual
  pub data QueryUnit : Type 0 where
    word : Text → ℕ → QueryUnit
    qmark : ℕ → QueryUnit
    star : ℕ → QueryUnit
    plus : ℕ → QueryUnit
    regex : Text → ℕ → QueryUnit
    dictset : Text → ℕ → QueryUnit
    orderset : ℕ → QueryChildren → QueryUnit
    optionset : ℕ → QueryChildren → QueryUnit
    alternation : ℕ → QueryChildren → QueryUnit
    concat : ℕ → QueryChildren → QueryUnit

  pub data QueryChildren : Type 0 where
    nil : QueryChildren
    cons : QueryUnit → QueryChildren → QueryChildren

unfoldable pub is_terminal : QueryUnit → Bool
is_terminal (orderset _ _) = false
is_terminal (optionset _ _) = false
is_terminal (alternation _ _) = false
is_terminal (concat _ _) = false
is_terminal _ = true

unfoldable pub self : QueryUnit → ℕ
self (word _ a) = a
self (qmark a) = a
self (star a) = a
self (plus a) = a
self (regex _ a) = a
self (dictset _ a) = a
self (orderset a _) = a
self (optionset a _) = a
self (alternation a _) = a
self (concat a _) = a

-- `Unit::length_range`. An order set follows the rules of a concatenation.
unfoldable mutual
  unfolding concat_assign union_assign is_empty

  pub length_range : QueryUnit → LengthRange
  length_range (word _ _) = between 1 1
  length_range (qmark _) = between 1 1
  length_range (regex _ _) = between 1 1
  length_range (star _) = at_least 0
  length_range (plus _) = at_least 1
  length_range (dictset _ _) = at_least 1
  length_range (optionset _ us) = union_range (between 0 0) us
  length_range (alternation _ us) = union_range no_length us
  length_range (orderset _ us) = concat_range (between 0 0) us
  length_range (concat _ us) = concat_range (between 0 0) us

  pub union_range : LengthRange → QueryChildren → LengthRange
  union_range r nil = r
  union_range r (cons u us) = union_range (union_assign r (length_range u)) us

  pub concat_range : LengthRange → QueryChildren → LengthRange
  concat_range r nil = r
  concat_range r (cons u us) =
      let r' = concat_assign r (length_range u) in
      let rest = concat_range r' us in if is_empty r' then r' else rest
