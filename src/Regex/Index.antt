-- ===== src/Regex/Index.antt =====
-- The words and the hash table of DefaultRegexIndex, netspeak/regex/DefaultRegexIndex.hpp and .cpp.
pub mod Matching
pub mod Optimized
pub mod Lookup
pub mod Finite
pub mod Perl
pub mod Pattern
pub mod Reading
pub mod Character
pub mod Aligned
mod Scan
pub mod Sound
pub mod Overrun
pub mod Slots
pub mod Lines
use Prim.Native.Nat.{bit_or}
use netspeak4_application_ng.Prelude.{
  ℕ, zero, suc, ◌+◌, ◌-◌, ◌*◌, ◌/◌, ◌%◌, ◌^◌, Bool, true, false, ◌&&◌, Option, none, some, List, [],
  ◌∷◌, ◌++◌, length, get_elem?, drop, replicate, Text, text_eq, ltb, ◌==◌, if◌then◌else◌, u32_mod,
  uint32_max, Result, ok, throw, ◌>>=◌, undefined_behaviour,
}

abbrev pub newline : ℕ
newline = 10

pub record WordEntry : Type 0 where
  pub offset : ℕ
  pub length : ℕ

pub record DefaultRegexIndex : Type 0 where
  pub vocabulary : Text
  pub words : List WordEntry
  pub all_chars : List ℕ
  pub word_hash_table : List ℕ

unfoldable next_pow_of_2 : ℕ → ℕ
next_pow_of_2 n =
    let n₀ = (n + u32_mod - 1) % u32_mod in
    let n₁ = bit_or n₀ (n₀ / 2 ^ 1) in
    let n₂ = bit_or n₁ (n₁ / 2 ^ 2) in
    let n₃ = bit_or n₂ (n₂ / 2 ^ 4) in
    let n₄ = bit_or n₃ (n₃ / 2 ^ 8) in let n₅ = bit_or n₄ (n₄ / 2 ^ 16) in (n₅ + 1) % u32_mod

-- A `char` is signed: a byte above 127 counts as its value less 256.
unfoldable hash_from : ℕ → Text → ℕ
hash_from h [] = h
hash_from h (c ∷ cs) =
    hash_from ((h * 31 + (if ltb c 128 then c else c + u32_mod - 256)) % u32_mod) cs

-- `hash_word`, of the part of the string that it is given.
unfoldable hash_word : Text → ℕ
unfolding hash_from
hash_word s = hash_from 0x12345678 s

-- `std::string::substr`, and `s[offset, offset + length)`.
unfoldable pub take : ℕ → Text → Text
take zero s = []
take (suc n) [] = []
take (suc n) (c ∷ s) = c ∷ take n s

unfoldable pub substr : Text → WordEntry → Text
unfolding take
substr s entry = take entry.length (drop entry.offset s)

-- The loop of initialize_words: a word of `count` bytes that starts at `prev` is being read.
unfoldable add_entry : ℕ → ℕ → List WordEntry → List WordEntry
add_entry prev count rest =
    if ltb 0 count then record { offset = prev % u32_mod; length = count % 65536 } ∷ rest else rest

unfoldable words_from : ℕ → ℕ → Text → List WordEntry
unfolding add_entry
words_from prev count [] = add_entry prev count []
words_from prev count (c ∷ s) =
    let ended = add_entry prev count (words_from (prev + count + 1) 0 s) in
    let longer = words_from prev (count + 1) s in if c == newline then ended else longer

unfoldable pub initialize_words : Text → List WordEntry
unfolding words_from
initialize_words vocabulary = words_from 0 0 vocabulary

-- The slots of the hash table, which hold indexes of words.
unfoldable set : List ℕ → ℕ → ℕ → List ℕ
set [] i v = []
set (x ∷ xs) zero v = v ∷ xs
set (x ∷ xs) (suc i) v = x ∷ set xs i v

-- `hash & mask`, for a mask of ones only: the size of a table is a power of two.
abbrev masked : ℕ → ℕ → ℕ
masked hash mask = hash % (mask + 1)

-- Linear probing for an empty slot; as many rounds as there are slots see all of them.
unfoldable insert_index : ℕ → ℕ → ℕ → ℕ → List ℕ → List ℕ
unfolding set
insert_index zero mask index hash table = table
insert_index (suc fuel) mask index hash table =
    let next = insert_index fuel mask index (masked (hash + 1) mask) table in
    elim (get_elem? table hash) [
      | none ↦ next
      | some slot ↦ if slot == uint32_max then set table hash index else next
    ]

unfoldable insert_all : Text → ℕ → ℕ → List WordEntry → List ℕ → List ℕ
unfolding insert_index hash_word substr
insert_all vocabulary mask index [] table = table
insert_all vocabulary mask index (entry ∷ entries) table =
    insert_all vocabulary mask (index + 1) entries (
      insert_index (length table) mask index (masked (hash_word (substr vocabulary entry)) mask)
        table)

unfoldable table_size : ℕ → ℕ
unfolding next_pow_of_2
table_size count = let n = next_pow_of_2 count in if ltb n (count + count / 2) then n * 2 else n

-- The mask is a `uint32_t`, also for a table of no slots.
unfoldable mask_of : ℕ → ℕ
mask_of size = (size + u32_mod - 1) % u32_mod

unfoldable initialize_word_hash_table : Text → List WordEntry → List ℕ
unfolding insert_all table_size mask_of
initialize_word_hash_table vocabulary words =
    let n = table_size (length words) in
    insert_all vocabulary (mask_of n) 0 words (replicate n uint32_max)

-- The constructor, with the set of characters that it collects.
unfoldable pub default_regex_index : Text → List ℕ → DefaultRegexIndex
unfolding initialize_words initialize_word_hash_table
default_regex_index vocabulary all_chars = record {
  vocabulary = vocabulary;
  words = initialize_words vocabulary;
  all_chars = all_chars;
  word_hash_table = initialize_word_hash_table vocabulary (initialize_words vocabulary);
}

-- Reading past the end of a vector is undefined behaviour.
unfoldable word_at_index : DefaultRegexIndex → ℕ → Result Text
unfolding substr
word_at_index t index = elim (get_elem? t.words index) [
  | some entry ↦ ok (substr t.vocabulary entry)
  | none ↦ throw undefined_behaviour
]

-- The comparison of the word of an entry with a word.
unfoldable is_word_of : DefaultRegexIndex → Text → WordEntry → Bool
unfolding substr
is_word_of t word entry = entry.length == length word && text_eq (substr t.vocabulary entry) word

-- The loop of find_word over the slots from `hash` on. The code does not come back to the front
-- behind the last slot: `hash` is masked by 2^32 - 1.
unfoldable find_from : DefaultRegexIndex → Text → List ℕ → Result ℕ
unfolding is_word_of
find_from t word [] = throw undefined_behaviour
find_from t word (index ∷ slots) =
    let rest = find_from t word slots in
    if index == uint32_max then ok uint32_max else elim (get_elem? t.words index) [
      | none ↦ throw undefined_behaviour
      | some entry ↦ if is_word_of t word entry then ok index else rest
    ]

unfoldable pub find_word : DefaultRegexIndex → Text → Result ℕ
unfolding find_from hash_word mask_of
find_word t word =
    find_from t word
      (drop (masked (hash_word word) (mask_of (length t.word_hash_table))) t.word_hash_table)
