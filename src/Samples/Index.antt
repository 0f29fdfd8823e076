-- ===== src/Samples/Index.antt =====
-- The theorems on the regex index, at samples, and tests of its search.
use netspeak4_application_ng.Prelude.{
  map, some, ◌≡◌, ◌↔◌, ◌≤◌, refl, sym, ap, subst, [], ◌∷◌, List, arith, false, length, Text, All,
  text_eq, text_eq_sound, ok, throw, undefined_behaviour, uint32_max,
}
use netspeak4_application_ng.Regex.Query.{
  RegexQuery, star, word, char_set, optional_word, combinations_upper_bound, rejects_all,
  accepts_all_non_empty, min_utf8_input_length, max_utf8_input_length,
}
use netspeak4_application_ng.Regex.Lang.{RegexLang}
use netspeak4_application_ng.Regex.Builder.{empty_builder, add_all, to_query, sort}
use netspeak4_application_ng.Regex.Utf8.{char_bytes, to_bytes}
use netspeak4_application_ng.Regex.Index.{
  substr, initialize_words, DefaultRegexIndex, default_regex_index, find_word,
}
use netspeak4_application_ng.Regex.Index.Lines.{split_lines, keep_nonempty, initialize_words-lines}
use netspeak4_application_ng.Regex.Index.Lookup.{Finds}
use netspeak4_application_ng.Regex.Index.Matching.{
  Environment, is_known, codes, create_regex_pattern, optimize_query, match_query,
}
use netspeak4_application_ng.Regex.Index.Optimized.{optimize_query-Lang}
use netspeak4_application_ng.Regex.Index.Perl.{PerlLang}
use netspeak4_application_ng.Regex.Index.Pattern.{
  bytes_of, perl_char, perl_word, perl_unit, perl_units,
}
use netspeak4_application_ng.Regex.Index.Aligned.{FollowsSyntax}
use netspeak4_application_ng.Regex.Index.Finite.{IsMatch}
use netspeak4_application_ng.Regex.Index.Sound.{match_query-IsMatch}
use netspeak4_application_ng.Regex.Index.Overrun.{find_word-overruns}
use netspeak4_application_ng.Regex.Index.Slots.{last_slot, find_word-returns}

-- The vocabulary "a\nb".
abbrev two_letters : DefaultRegexIndex
two_letters = default_regex_index (b'a' ∷ 10 ∷ b'b' ∷ []) (b'a' ∷ b'b' ∷ [])

-- A matcher that knows the word "a" only.
abbrev knows_a : Environment
knows_a = record { regex_match = λ _ w. text_eq w (b'a' ∷ []); time_over = λ _. false }

abbrev letter_a : RegexQuery
letter_a = record { units = word (b'a' ∷ []) ∷ [] }

-- The query "*a", which is left to the regular expression ".*a".
abbrev ends_in_a : RegexQuery
ends_in_a = record { units = star ∷ word (b'a' ∷ []) ∷ [] }

knows_a-FollowsSyntax : FollowsSyntax knows_a (perl_units ends_in_a.units)
unfolding perl_units perl_unit perl_word perl_char bytes_of char_bytes is_known
knows_a-FollowsSyntax h w m =
    subst (PerlLang (perl_units ends_in_a.units)) (sym (text_eq_sound w (b'a' ∷ []) m)) (
      [],
      b'a' ∷ [],
      refl,
      tt,
      (b'a' ∷ [], [], refl, (b'a' ∷ [], [], refl, (b'a' ∷ [], [], refl, refl, refl), refl), refl),
    )

ends_in_a_pattern : create_regex_pattern ends_in_a ≡ codes ".*a"
unfolding create_regex_pattern to_bytes
ends_in_a_pattern = refl

match_ends_in_a : match_query knows_a two_letters ends_in_a 5 ≡ ok ((b'a' ∷ []) ∷ [])
unfolding match_query find_word default_regex_index to_query empty_builder add_all to_bytes
    rejects_all accepts_all_non_empty combinations_upper_bound sort text_eq min_utf8_input_length
    max_utf8_input_length
match_ends_in_a = refl

last_empty : last_slot two_letters.word_hash_table ≡ some uint32_max
unfolding default_regex_index last_slot
last_empty = refl

find_word-returns_example : Finds two_letters
unfolding default_regex_index
find_word-returns_example =
    find_word-returns (b'a' ∷ 10 ∷ b'b' ∷ []) (b'a' ∷ b'b' ∷ []) last_empty (omega arith)

match_query-IsMatch_example :
    (ms : List Text) × (match_query knows_a two_letters ends_in_a 5 ≡ ok ms)
    × All (IsMatch two_letters ends_in_a) ms
    × (length ms ≤ 5)
unfolding default_regex_index to_bytes
match_query-IsMatch_example =
    match_query-IsMatch knows_a two_letters ends_in_a 5 knows_a-FollowsSyntax
      (tt, ((omega arith, tt), tt))
      (
        (b'a' ∷ [], refl, omega arith, (omega arith, tt)),
        ((b'b' ∷ [], refl, omega arith, (omega arith, tt)), tt),
      )
      (find_word-returns (b'a' ∷ 10 ∷ b'b' ∷ []) (b'a' ∷ b'b' ∷ []) last_empty (omega arith))

optimize_query-Lang_example :
    RegexLang (optimize_query two_letters letter_a) (b'a' ∷ []) ↔ RegexLang letter_a (b'a' ∷ [])
unfolding default_regex_index is_known
optimize_query-Lang_example = optimize_query-Lang two_letters letter_a (b'a' ∷ []) (refl, tt)

find_word-overruns_example :
    find_word (default_regex_index (b'a' ∷ []) []) (b'b' ∷ b'b' ∷ []) ≡ throw undefined_behaviour
find_word-overruns_example =
    find_word-overruns (b'a' ∷ []) (b'b' ∷ b'b' ∷ []) [] (omega arith, tt) (omega arith)
      (omega arith) (λ e. omega (arith, ap length e))

find_letters :
    (find_word two_letters (b'b' ∷ []) ≡ ok 1) × (find_word two_letters (b'c' ∷ []) ≡ ok uint32_max)
unfolding find_word default_regex_index text_eq
find_letters = (refl, refl)

match_set :
    match_query knows_a two_letters
      (record { units = char_set (b'c' ∷ b'b' ∷ b'a' ∷ []) ∷ optional_word (b'b' ∷ []) ∷ [] })
      5
    ≡ ok ((b'a' ∷ []) ∷ (b'b' ∷ []) ∷ [])
unfolding match_query find_word default_regex_index to_query empty_builder add_all to_bytes
    rejects_all accepts_all_non_empty combinations_upper_bound sort text_eq
match_set = refl

-- The vocabulary "a\n\nb\n", with an empty line and an empty end.
abbrev with_gaps : Text
with_gaps = b'a' ∷ 10 ∷ 10 ∷ b'b' ∷ 10 ∷ []

initialize_words-lines_example :
    map (substr with_gaps) (initialize_words with_gaps) ≡ keep_nonempty (split_lines with_gaps)
unfolding split_lines
initialize_words-lines_example =
    initialize_words-lines with_gaps (omega arith)
      (omega arith, (omega arith, (omega arith, (omega arith, tt))))

lines_test : keep_nonempty (split_lines with_gaps) ≡ (b'a' ∷ []) ∷ (b'b' ∷ []) ∷ []
unfolding split_lines
lines_test = refl
