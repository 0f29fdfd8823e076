-- ===== src/Regex/Parser.antt =====
-- The parser of Netspeak regexes, netspeak/regex/parsers.cpp, over the code points of its input.
pub mod Grammar
mod Parts
mod Added
mod Steps
pub mod Meaning
use netspeak4_application_ng.Prelude.{
  ℕ, zero, suc, ◌+◌, Bool, true, false, Option, none, some, List, [], ◌∷◌, length, Text, ◌==◌,
  if◌then◌else◌,
}
use netspeak4_application_ng.Regex.Query.{
  RegexUnit, qmark, star, word, char_set, optional_word, RegexQuery,
}
use netspeak4_application_ng.Regex.Builder.{RegexQueryBuilder, empty_builder, add, to_query}

-- The characters before the first `end_char`, if there is one.
unfoldable read_until_char : Text → ℕ → Option Text
read_until_char [] end_char = none
read_until_char (c ∷ cs) end_char =
    let rest = read_until_char cs end_char in
    if c == end_char then some [] else elim rest [ none ↦ none | some t ↦ some (c ∷ t) ]

-- `*(it + 1) == '.'`; behind the last character stands the terminator 0.
unfoldable next_is_dot : Text → Bool
next_is_dot [] = false
next_is_dot (c ∷ cs) = c == b'.'

-- The rounds of the loop that passes over further dots.
unfoldable leading_dots : Text → ℕ
leading_dots [] = 0
leading_dots (c ∷ cs) = if c == b'.' then suc (leading_dots cs) else 0

unfoldable add_repeated : ℕ → RegexQueryBuilder → RegexUnit → RegexQueryBuilder
add_repeated zero b u = b
add_repeated (suc n) b u = add_repeated n (add b u) u

-- A round of the loop for the character and what follows it: the builder, and by how much the
-- iterator is moved besides.
unfoldable read_dot : RegexQueryBuilder → Text → RegexQueryBuilder × ℕ
unfolding next_is_dot leading_dots
read_dot b rest =
    if next_is_dot rest then (add b star, leading_dots rest) else (add b (word (b'.' ∷ [])), 0)

unfoldable read_bracket : RegexQueryBuilder → Text → RegexQueryBuilder × ℕ
unfolding read_until_char
read_bracket b rest = elim (read_until_char rest b']') [
  | some value ↦
      (add b (if length value == 1 then optional_word value else char_set value), length value + 1)
  | none ↦ (add b (word (b'[' ∷ [])), 0)
]

unfoldable read_brace : RegexQueryBuilder → Text → RegexQueryBuilder × ℕ
unfolding read_until_char add_repeated
read_brace b rest = elim (read_until_char rest b'}') [
  | some chars ↦ (add_repeated (length chars) b (char_set chars), length chars + 1)
  | none ↦ (add b (word (b'{' ∷ [])), 0)
]

unfoldable read_char : RegexQueryBuilder → ℕ → Text → RegexQueryBuilder × ℕ
unfolding read_dot read_bracket read_brace
read_char b c rest =
    if c == b'?'
    then (add b qmark, 0)
    else if c == b'*'
    then (add b star, 0)
    else if c == b'+'
    then (add (add b qmark) star, 0)
    else if c == b'.'
    then read_dot b rest
    else if c == b'['
    then read_bracket b rest
    else if c == b'{'
    then read_brace b rest
    else (add b (word (c ∷ [])), 0)

-- The loop: `skip` is by how much the iterator was moved in the round before.
unfoldable parse_from : RegexQueryBuilder → ℕ → Text → RegexQueryBuilder
unfolding read_char
parse_from b skip [] = b
parse_from b (suc skip) (c ∷ rest) = parse_from b skip rest
parse_from b zero (c ∷ rest) = let (b', skip) = read_char b c rest in parse_from b' skip rest

unfoldable pub parse_netspeak_regex_query : Text → RegexQuery
unfolding parse_from
parse_netspeak_regex_query query = to_query (parse_from empty_builder 0 query)
