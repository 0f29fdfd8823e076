-- ===== src/Samples/Regexes.antt =====
-- The theorems on regex queries, at samples, and tests of the builder and the parser.
use netspeak4_application_ng.Prelude.{
  ◌≡◌, ◌↔◌, ◌≤◌, refl, [], ◌∷◌, arith, true, false, inl, inr, length, List, Text, Any,
}
use netspeak4_application_ng.Regex.Query.{
  RegexQuery, qmark, star, word, char_set, optional_word, combinations_upper_bound,
  min_utf8_input_length, max_utf8_input_length, rejects_all, accepts_all, accepts_all_non_empty,
  number_of_utf8_bytes,
}
use netspeak4_application_ng.Regex.Query.Characters.{utf8_bytes}
use netspeak4_application_ng.Regex.Query.Bytes.{characters, utf8_input_length_bounds}
use netspeak4_application_ng.Regex.Query.Combinations.{combinations_upper_bound-covers}
use netspeak4_application_ng.Regex.Lang.{UnitLang, RegexLang, Equal, ◌⊙◌}
use netspeak4_application_ng.Regex.Builder.{RegexQueryBuilder, empty_builder, add, to_query}
use netspeak4_application_ng.Regex.Builder.Meaning.{add-RegexLang}
use netspeak4_application_ng.Regex.Builder.Normal.{IsNormal, add-IsNormal}
use netspeak4_application_ng.Regex.Builder.Rejects.{rejects_all_iff}
use netspeak4_application_ng.Regex.Parser.{parse_netspeak_regex_query}
use netspeak4_application_ng.Regex.Parser.Grammar.{Part, Reads, PartsLang}
use netspeak4_application_ng.Regex.Parser.Meaning.{parse_netspeak_regex_query-Equal}

-- The builder after the units `f(a)?`.
abbrev optional_qmark : RegexQueryBuilder
optional_qmark = record {
  units = qmark ∷ optional_word (b'a' ∷ []) ∷ word (b'f' ∷ []) ∷ [];
  reject_all = false;
}

-- `[ab]` and an optional word.
abbrev two_words : RegexQuery
two_words = record { units = char_set (b'a' ∷ b'b' ∷ []) ∷ optional_word (b'c' ∷ []) ∷ [] }

add-RegexLang_example :
    Equal
      (RegexLang (to_query (add optional_qmark star)))
      (RegexLang (to_query optional_qmark) ⊙ UnitLang star)
add-RegexLang_example = add-RegexLang optional_qmark star

add-IsNormal_example : IsNormal (add optional_qmark star).units
add-IsNormal_example =
    add-IsNormal optional_qmark star (tt, tt, (omega arith, tt, (omega arith, tt, tt)))

rejects_all_iff_example :
    (rejects_all (to_query optional_qmark) ≡ true)
    ↔ ((w : Text) → ¬ RegexLang (to_query optional_qmark) w)
unfolding to_query
rejects_all_iff_example =
    rejects_all_iff optional_qmark (tt, tt, (omega arith, tt, (omega arith, tt, tt)))
      (tt, (tt, (tt, tt)))

combinations_upper_bound-covers_example :
    (ws : List Text) × (length ws ≡ combinations_upper_bound two_words)
    × ((w : Text) → Any (λ v. w ≡ v) ws ↔ RegexLang two_words w)
unfolding combinations_upper_bound
combinations_upper_bound-covers_example =
    combinations_upper_bound-covers two_words (omega arith, (tt, tt)) (omega arith)

utf8_input_length_bounds_example :
    (min_utf8_input_length two_words ≤ utf8_bytes (b'b' ∷ b'c' ∷ []))
    × (utf8_bytes (b'b' ∷ b'c' ∷ []) ≤ max_utf8_input_length two_words)
unfolding characters utf8_bytes number_of_utf8_bytes
utf8_input_length_bounds_example =
    utf8_input_length_bounds two_words (b'b' ∷ b'c' ∷ [])
      (
        b'b' ∷ [],
        b'c' ∷ [],
        refl,
        (b'b', refl, inr (inl refl)),
        (b'c' ∷ [], [], refl, inr refl, refl),
      )
      (omega arith) (omega arith)

parse_netspeak_regex_query-Equal_example :
    (ps : List Part) × Reads (b'[' ∷ b'a' ∷ b']' ∷ b'.' ∷ b'.' ∷ []) ps
    × Equal
        (RegexLang (parse_netspeak_regex_query (b'[' ∷ b'a' ∷ b']' ∷ b'.' ∷ b'.' ∷ [])))
        (PartsLang ps)
parse_netspeak_regex_query-Equal_example =
    parse_netspeak_regex_query-Equal (b'[' ∷ b'a' ∷ b']' ∷ b'.' ∷ b'.' ∷ [])

-- `(a)*` is `*`, and `f(a)?` with a star is `f?*`.
add_star :
    to_query (add optional_qmark star) ≡ record { units = word (b'f' ∷ []) ∷ qmark ∷ star ∷ [] }
unfolding to_query add
add_star = refl

-- The parser of "[a]..": the optional word goes with the star behind it.
parse_optional :
    accepts_all (parse_netspeak_regex_query (b'[' ∷ b'a' ∷ b']' ∷ b'.' ∷ b'.' ∷ [])) ≡ true
unfolding accepts_all parse_netspeak_regex_query empty_builder add to_query
parse_optional = refl

-- "+" and "fo[o".
parse_plus : accepts_all_non_empty (parse_netspeak_regex_query (b'+' ∷ [])) ≡ true
unfolding accepts_all_non_empty parse_netspeak_regex_query empty_builder add to_query
parse_plus = refl

parse_unclosed :
    parse_netspeak_regex_query (b'f' ∷ b'o' ∷ b'[' ∷ b'o' ∷ [])
    ≡ record { units = word (b'f' ∷ b'o' ∷ b'[' ∷ b'o' ∷ []) ∷ [] }
unfolding parse_netspeak_regex_query empty_builder add to_query
parse_unclosed = refl

-- "{aab}": three characters of the set.
parse_brace : parse_netspeak_regex_query (b'{' ∷ b'b' ∷ b'a' ∷ b'a' ∷ b'}' ∷ []) ≡ record {
  units =
      char_set (b'a' ∷ b'b' ∷ []) ∷ char_set (b'a' ∷ b'b' ∷ []) ∷ char_set (b'a' ∷ b'b' ∷ []) ∷ [];
}
unfolding parse_netspeak_regex_query empty_builder add to_query
parse_brace = refl

combinations : combinations_upper_bound two_words ≡ 4
unfolding combinations_upper_bound
combinations = refl

bytes : (min_utf8_input_length two_words ≡ 1) × (max_utf8_input_length two_words ≡ 2)
unfolding min_utf8_input_length max_utf8_input_length
bytes = (refl, refl)
