-- ===== src/Util/PropertiesFormat.antt =====
-- netspeak/util/PropertiesFormat.hpp and .cpp: property files. A stream is the list of the bytes that
-- are left in it, and EOF is its end.
pub mod Blocks
pub mod Texts
pub mod RoundTrip
pub mod Escapes
pub mod Progress
use netspeak4_application_ng.Prelude.{
  ℕ, zero, suc, ◌+◌, ◌-◌, ◌*◌, ◌/◌, ◌%◌, Bool, true, false, ◌&&◌, ◌||◌, List, [], ◌∷◌, ◌++◌,
  if◌then◌else◌, length, ltb, leb, ◌==◌, Text, Result, ok, throw, ◌>>=◌, tracable_logic_error,
  format_properties_error, undefined_behaviour,
}

abbrev pub backslash : ℕ
backslash = 92

abbrev pub line_feed : ℕ
line_feed = 10

abbrev pub equals_sign : ℕ
equals_sign = 61

abbrev pub is_space : ℕ → Bool
is_space c = c == 32 || c == 9

abbrev pub is_line_break : ℕ → Bool
is_line_break c = c == 13 || c == line_feed

abbrev pub is_delimiter : ℕ → Bool
is_delimiter c = c == equals_sign || c == 58

pub consume_spaces : List ℕ → List ℕ
consume_spaces [] = []
consume_spaces (c ∷ rest) =
    let later = consume_spaces rest in if is_space c then later else c ∷ rest

-- `consume_before_key`; with `true`, the loop of `consume_comment`, which ends behind a line break.
pub consume_before_key : Bool → List ℕ → List ℕ
consume_before_key comment [] = []
consume_before_key true (c ∷ rest) =
    let on = consume_before_key true rest in
    let end = consume_before_key false rest in if is_line_break c then end else on
consume_before_key false (c ∷ rest) =
    let later = consume_before_key false rest in
    let comment = consume_before_key true rest in
    if is_space c || is_line_break c
    then later
    else if c == 35 || c == 33
    then comment
    else c ∷ rest

-- The second part of `consume_delimiter`, behind a space: the delimiter is optional.
pub optional_delimiter : List ℕ → List ℕ
optional_delimiter [] = []
optional_delimiter (c ∷ rest) = if is_delimiter c then consume_spaces rest else c ∷ rest

pub consume_delimiter : List ℕ → Result (List ℕ)
unfolding consume_spaces optional_delimiter
consume_delimiter [] = throw format_properties_error
consume_delimiter (c ∷ rest) =
    if is_delimiter c
    then ok (consume_spaces rest)
    else if is_space c
    then ok (optional_delimiter (consume_spaces rest))
    else throw format_properties_error

-- One digit of a Unicode escape.
pub hex_digit : ℕ → Result ℕ
hex_digit c =
    if leb 48 c && leb c 57
    then ok (c - 48)
    else if leb 65 c && leb c 70
    then ok (10 + c - 65)
    else if leb 97 c && leb c 102
    then ok (10 + c - 97)
    else throw format_properties_error

-- The loop over the digits, over `uint16_t`.
pub hex_digits : ℕ → ℕ → List ℕ → Result (ℕ × List ℕ)
unfolding hex_digit
hex_digits zero escaped rest = ok (escaped, rest)
hex_digits (suc n) escaped [] = throw format_properties_error
hex_digits (suc n) escaped (c ∷ rest) =
    hex_digit c >>= λ digit. hex_digits n ((escaped * 16 + digit) % 65536) rest

skip_line_feed : List ℕ → List ℕ
skip_line_feed [] = []
skip_line_feed (c ∷ rest) = if c == line_feed then rest else c ∷ rest

-- Only ASCII characters may be escaped so.
ascii_only : Text → ℕ × List ℕ → Result (List ℕ × Text)
ascii_only consumer (escaped, rest) =
    if leb 128 escaped then throw format_properties_error else ok (rest, consumer ++ escaped ∷ [])

read_unicode : List ℕ → Text → Result (List ℕ × Text)
unfolding hex_digits ascii_only
read_unicode rest consumer = hex_digits 4 0 rest >>= ascii_only consumer

-- `read_escaped`, behind the backslash.
pub read_escaped : List ℕ → Text → Result (List ℕ × Text)
unfolding read_unicode consume_spaces skip_line_feed
read_escaped [] consumer = throw format_properties_error
read_escaped (c ∷ rest) consumer =
    if c == 117
    then read_unicode rest consumer
    else if c == line_feed
    then ok (consume_spaces rest, consumer)
    else if c == 13
    then ok (consume_spaces (skip_line_feed rest), consumer)
    else ok (rest, consumer ++ c ∷ [])

-- The loop of `read_key`. Each round takes a byte from the stream, so its length is fuel enough.
pub read_key_from : ℕ → List ℕ → Text → Result (List ℕ × Text)
unfolding read_escaped
read_key_from zero rest key = throw undefined_behaviour
read_key_from (suc f) [] key = throw format_properties_error
read_key_from (suc f) (c ∷ rest) key =
    let escaped = read_escaped rest key >>= λ (rest', key'). read_key_from f rest' key' in
    let plain = read_key_from f rest (key ++ c ∷ []) in
    if c == backslash
    then escaped
    else if is_line_break c
    then throw format_properties_error
    else if is_delimiter c || is_space c
    then ok (c ∷ rest, key)
    else plain

pub read_key : List ℕ → Result (List ℕ × Text)
read_key rest = read_key_from (suc (length rest)) rest []

-- The loop of `read_value`, on the same fuel.
pub read_value_from : ℕ → List ℕ → Text → Result (List ℕ × Text)
unfolding read_escaped
read_value_from zero rest value = throw undefined_behaviour
read_value_from (suc f) [] value = ok ([], value)
read_value_from (suc f) (c ∷ rest) value =
    let escaped = read_escaped rest value >>= λ (rest', value'). read_value_from f rest' value' in
    let plain = read_value_from f rest (value ++ c ∷ []) in
    if is_line_break c then ok (c ∷ rest, value) else if c == backslash then escaped else plain

pub read_value : List ℕ → Result (List ℕ × Text)
read_value rest = read_value_from (suc (length rest)) rest []

-- The body of the loop of `read_properties`.
pub read_entry : List ℕ → Result (List ℕ × (Text × Text))
read_entry rest = do
  (rest', key) ← read_key rest
  rest'' ← consume_delimiter rest'
  (rest''', value) ← read_value rest''
  ok (rest''', (key, value))

-- The loop of `read_properties` behind the test of `has_next_key` that something is left.
pub read_next : (List ℕ → Result (List (Text × Text))) → List ℕ → Result (List (Text × Text))
read_next further [] = ok []
read_next further (c ∷ rest) = do
  (rest', entry) ← read_entry (c ∷ rest)
  entries ← further rest'
  ok (entry ∷ entries)

-- Each round takes the delimiter at least, so the length of the stream is fuel enough.
pub read_entries : ℕ → List ℕ → Result (List (Text × Text))
read_entries zero rest = throw undefined_behaviour
read_entries (suc f) rest = read_next (read_entries f) (consume_before_key false rest)

-- The entries in their order. Those that the code hands to its inserter before it throws are not part of
-- the result when it throws.
pub read_properties : List ℕ → Result (List (Text × Text))
read_properties rest = read_entries (suc (length rest)) rest

-- `write_hex_digit` and `write_unicode_char`: a `char` below 0 is a byte from 128 on.
pub write_hex_digit : ℕ → ℕ
write_hex_digit c = if ltb c 10 then 48 + c else 55 + c

pub write_unicode_char : ℕ → Result (List ℕ)
unfolding write_hex_digit
write_unicode_char c =
    if leb 128 c
    then throw tracable_logic_error
    else ok (backslash ∷ 117 ∷ 48 ∷ 48 ∷ write_hex_digit (c / 16) ∷ write_hex_digit (c % 16) ∷ [])

-- What is written for a byte that needs no backslash of its own.
pub write_plain : ℕ → Result (List ℕ)
unfolding write_unicode_char
write_plain c = if ltb c 32 || leb 128 c then write_unicode_char c else ok (c ∷ [])

pub needs_escape : ℕ → Bool
needs_escape c =
    c == backslash || (c == equals_sign || (c == 58 || (c == 35 || (c == 33 || c == 32))))

pub write_key_char : ℕ → Result (List ℕ)
unfolding needs_escape write_plain
write_key_char c = if needs_escape c then ok (backslash ∷ c ∷ []) else write_plain c

pub write_value_char : ℕ → Result (List ℕ)
unfolding write_plain
write_value_char c = if c == backslash then ok (backslash ∷ c ∷ []) else write_plain c

pub write_all : (ℕ → Result (List ℕ)) → Text → Result (List ℕ)
write_all write [] = ok []
write_all write (c ∷ text) = do block ← write c; rest ← write_all write text; ok (block ++ rest)

pub write_key : Text → Result (List ℕ)
unfolding write_all write_key_char
write_key key = write_all write_key_char key

-- The first space is escaped.
pub write_value : Text → Result (List ℕ)
unfolding write_all write_value_char
write_value [] = ok []
write_value (c ∷ value) = do
  block ← (if c == 32 then ok (backslash ∷ c ∷ []) else write_value_char c)
  rest ← write_all write_value_char value
  ok (block ++ rest)

pub write_properties : List (Text × Text) → Result (List ℕ)
write_properties [] = ok []
write_properties ((key, value) ∷ entries) = do
  key_out ← write_key key
  value_out ← write_value value
  rest ← write_properties entries
  ok (key_out ++ equals_sign ∷ (value_out ++ line_feed ∷ rest))
