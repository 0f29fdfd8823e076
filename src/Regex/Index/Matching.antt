-- ===== src/Regex/Index/Matching.antt =====
-- The search for the words that match a regex query, netspeak/regex/DefaultRegexIndex.cpp.
use Prim.Native.Char.{code}
use Prim.Native.String.{String}
use netspeak4_application_ng.Prelude.{
  ℕ, zero, suc, ◌%◌, Bool, false, not, ◌&&◌, ◌||◌, List, [], ◌∷◌, ◌++◌, map, length, Text, ltb, leb,
  ◌==◌, if◌then◌else◌, uint32_max, u32_mod, min, Result, ok, ◌>>=◌,
}
use netspeak4_application_ng.Regex.Query.{
  RegexUnit, qmark, star, word, char_set, optional_word, RegexQuery, accepts_all_non_empty,
  rejects_all, combinations_upper_bound, min_utf8_input_length, max_utf8_input_length,
}
use netspeak4_application_ng.Regex.Builder.{sort, empty_builder, add_all, to_query}
use netspeak4_application_ng.Regex.Utf8.{to_bytes}
use netspeak4_application_ng.Regex.Index.{
  WordEntry, DefaultRegexIndex, substr, word_at_index, find_word,
}

-- The characters of an ASCII literal.
abbrev pub codes : String → List ℕ
codes String.[] = []
codes (String.◌∷◌ c s) = code c ∷ codes s

-- A look-up in the set of all characters.
unfoldable pub is_known : List ℕ → ℕ → Bool
is_known [] c = false
is_known (d ∷ known) c = c == d || is_known known c

unfoldable pub contains_unknown_characters : Text → List ℕ → Bool
unfolding is_known
contains_unknown_characters [] known = false
contains_unknown_characters (c ∷ cs) known =
    not (is_known known c) || contains_unknown_characters cs known

unfoldable pub known_only : List ℕ → Text → Text
unfolding is_known
known_only known [] = []
known_only known (c ∷ cs) =
    if is_known known c then c ∷ known_only known cs else known_only known cs

-- The units that are added for a unit. The set of known characters is built as a hash set, whose
-- order and repetitions the builder removes.
unfoldable pub known_unit : List ℕ → RegexUnit → List RegexUnit
unfolding contains_unknown_characters known_only
known_unit known (word t) =
    if contains_unknown_characters t known then char_set [] ∷ [] else word t ∷ []
known_unit known (optional_word t) =
    if contains_unknown_characters t known then [] else optional_word t ∷ []
known_unit known (char_set cs) =
    if contains_unknown_characters cs known
    then char_set (known_only known cs) ∷ []
    else char_set cs ∷ []
known_unit known qmark = qmark ∷ []
known_unit known star = star ∷ []

unfoldable pub known_units : List ℕ → List RegexUnit → List RegexUnit
unfolding known_unit
known_units known [] = []
known_units known (u ∷ us) = known_unit known u ++ known_units known us

unfoldable pub optimize_query : DefaultRegexIndex → RegexQuery → RegexQuery
unfolding known_units
optimize_query t q = to_query (add_all empty_builder (known_units t.all_chars q.units))

-- The alternatives of a unit. A wildcard has the value that its constructor gives it.
unfoldable pub alternatives : RegexUnit → List Text
alternatives (char_set cs) = map (λ c. to_bytes (c ∷ [])) cs
alternatives (optional_word t) = to_bytes t ∷ [] ∷ []
alternatives (word t) = to_bytes t ∷ []
alternatives qmark = to_bytes (b'?' ∷ []) ∷ []
alternatives star = to_bytes (b'*' ∷ []) ∷ []

unfoldable pub finite_query_to_utf8 : List RegexUnit → List (List Text)
unfolding alternatives
finite_query_to_utf8 [] = []
finite_query_to_utf8 (u ∷ us) = alternatives u ∷ finite_query_to_utf8 us

-- The loop over the alternatives.
unfoldable pub for_each : List Text → (Text → Result (List ℕ)) → Result (List ℕ)
for_each [] body = ok []
for_each (a ∷ as') body = do found ← body a; rest ← for_each as' body; ok (found ++ rest)

unfoldable pub match_query_hash_lookup_impl :
    (Text → Result ℕ) → List (List Text) → Text → Result (List ℕ)
unfolding for_each
match_query_hash_lookup_impl find [] temp = do
  index ← find temp
  ok (if index == uint32_max then [] else index ∷ [])
match_query_hash_lookup_impl find (current ∷ stack) temp =
    for_each current (λ a. match_query_hash_lookup_impl find stack (temp ++ a))

-- The loop that adds words without duplicates.
unfoldable pub add_words : DefaultRegexIndex → ℕ → ℕ → ℕ → List ℕ → Result (List Text)
unfolding word_at_index
add_words t max_matches last_index added [] = ok []
add_words t max_matches last_index added (index ∷ indexes) =
    let same = add_words t max_matches last_index added indexes in
    let other = (do
      w ← word_at_index t index
      rest ← add_words t max_matches index (suc added) indexes
      ok (w ∷ rest)) in
    if ltb added max_matches then if index == last_index then same else other else ok []

unfoldable pub add_distinct : DefaultRegexIndex → ℕ → List ℕ → Result (List Text)
unfolding add_words word_at_index
add_distinct t max_matches [] = ok []
add_distinct t max_matches (index ∷ indexes) = do
  w ← word_at_index t index
  rest ← add_words t max_matches index 1 indexes
  ok (w ∷ rest)

unfoldable pub match_query_hash_lookup : DefaultRegexIndex → RegexQuery → ℕ → Result (List Text)
unfolding finite_query_to_utf8 match_query_hash_lookup_impl add_distinct find_word
match_query_hash_lookup t q max_matches = do
  indexes ← match_query_hash_lookup_impl (find_word t) (finite_query_to_utf8 q.units) []
  add_distinct t max_matches (sort indexes)

-- The characters that a pattern escapes: + * ? | \ / ( ) [ ] { } . - ^ $.
abbrev pub special_characters : List ℕ
special_characters = codes "+*?|\\/()[]{}.-^$"

unfoldable pub append_char : Text → ℕ → Text
unfolding is_known
append_char pattern c =
    if is_known special_characters c then pattern ++ b'\\' ∷ c ∷ [] else pattern ++ c ∷ []

unfoldable pub append_chars : Text → Text → Text
unfolding append_char
append_chars pattern [] = pattern
append_chars pattern (c ∷ cs) = append_chars (append_char pattern c) cs

-- The characters of a set behind the first.
unfoldable pub append_choices : Text → Text → Text
unfolding append_char
append_choices pattern [] = pattern
append_choices pattern (c ∷ cs) = append_choices (append_char (pattern ++ b'|' ∷ []) c) cs

unfoldable pub append_set : Text → Text → Text
unfolding append_choices
append_set pattern [] = pattern
append_set pattern (c ∷ cs) = append_choices (append_char pattern c) cs

-- One character in UTF-8.
abbrev pub any_character : Text
any_character =
    codes "(?:[\\x00-\\x7F]|(?:[\\xC2-\\xDF]|\\xE0[\\xA0-\\xBF]|\\xED["
    ++ codes "\\x80-"
    ++ codes "\\x9F]|(?:[\\xE1-\\xEC]|[\\xEE-\\xEF]|\\xF0[\\x90-\\xBF]|["
    ++ codes "\\xF1-"
    ++ codes "\\xF3][\\x80-\\xBF]|\\xF4[\\x80-\\x8F])[\\x80-\\xBF])[\\x80-"
    ++ codes "\\xBF])"

unfoldable pub append_unit : Text → RegexUnit → Text
unfolding append_chars append_set
append_unit pattern qmark = pattern ++ any_character
append_unit pattern star = pattern ++ codes ".*"
append_unit pattern (char_set cs) = append_set (pattern ++ codes "(?:") cs ++ codes ")"
append_unit pattern (optional_word t) = append_chars (pattern ++ codes "(?:") t ++ codes ")?"
append_unit pattern (word t) = append_chars pattern t

unfoldable pub append_units : Text → List RegexUnit → Text
unfolding append_unit
append_units pattern [] = pattern
append_units pattern (u ∷ us) = append_units (append_unit pattern u) us

unfoldable pub create_regex_pattern : RegexQuery → Text
unfolding append_units
create_regex_pattern q = to_bytes (append_units [] q.units)

-- `boost::regex_match`, of a pattern and a word, and whether the time is over when the clock is
-- read after the word at an index.
pub record Environment : Type 0 where
  pub regex_match : Text → Text → Bool
  pub time_over : ℕ → Bool

-- The loop over the words: `i` is the index of the first.
unfoldable pub match_words :
    Environment → DefaultRegexIndex → RegexQuery → ℕ → ℕ → ℕ → List WordEntry → List Text
unfolding substr
match_words env t q max_matches i added [] = []
match_words env t q max_matches i added (entry ∷ entries) =
    let min_length = min_utf8_input_length q % 65536 in
    let max_length = max_utf8_input_length q % 65536 in
    let w = substr t.vocabulary entry in
    let stopped = i % 256 == 0 && env.time_over i in
    let next = match_words env t q max_matches (suc i) added entries in
    let next_added = match_words env t q max_matches (suc i) (suc added) entries in
    if ltb entry.length min_length || ltb max_length entry.length
    then next
    else if env.regex_match (create_regex_pattern q) w
    then w ∷ (if leb max_matches (suc added) then [] else if stopped then [] else next_added)
    else if stopped
    then []
    else next

unfoldable pub match_query_regex : Environment → DefaultRegexIndex → RegexQuery → ℕ → List Text
unfolding match_words
match_query_regex env t q max_matches = match_words env t q max_matches 0 0 t.words

-- The first words.
unfoldable pub first_words : DefaultRegexIndex → ℕ → List WordEntry → List Text
unfolding substr
first_words t zero entries = []
first_words t (suc n) [] = []
first_words t (suc n) (entry ∷ entries) = substr t.vocabulary entry ∷ first_words t n entries

unfoldable pub match_query : Environment → DefaultRegexIndex → RegexQuery → ℕ → Result (List Text)
unfolding optimize_query first_words match_query_hash_lookup match_query_regex
match_query env t q max_matches =
    if max_matches == 0
    then ok []
    else if accepts_all_non_empty q
    then ok (first_words t (min max_matches (length t.words % u32_mod)) t.words)
    else if rejects_all q
    then ok []
    else if ltb (combinations_upper_bound (optimize_query t q)) 1000
    then match_query_hash_lookup t q max_matches
    else ok (match_query_regex env t q max_matches)
