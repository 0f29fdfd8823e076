-- ===== src/Regex/Index/Overrun.antt =====
-- When DefaultRegexIndex::find_word returns: it does not come back to the front of the table.
use netspeak4_application_ng.Prelude.{
  ℕ, zero, suc, ◌+◌, ◌-◌, ◌%◌, ◌<◌, ◌≡◌, ◌≢◌, refl, sym, ap, subst, ◌∙◌, ◌⊎◌, inl, inr, false, some,
  List, [], ◌∷◌, arith, length, get_elem?, drop, All, Text, text_eq_sound, Bool-cases, ==_of_eq,
  ◌==◌, &&_of_true, uint32_max, ok, throw, undefined_behaviour,
}
use native.Mathlib.Nat.{mod-lt}
use netspeak4_application_ng.Regex.Index.{
  newline, WordEntry, DefaultRegexIndex, take, substr, add_entry, words_from, initialize_words, set,
  insert_index, insert_all, table_size, next_pow_of_2, mask_of, masked, hash_word,
  initialize_word_hash_table, default_regex_index, is_word_of, find_from, find_word,
}
use netspeak4_application_ng.Regex.Index.Lookup.{Finds}

-- The probing from the first of these slots meets an empty one, and words before it.
abbrev Stops : DefaultRegexIndex → List ℕ → Type 0
Stops t [] = ⊥
Stops t (i ∷ slots) =
    (i ≡ uint32_max) ⊎ (((e : WordEntry) × (get_elem? t.words i ≡ some e)) × Stops t slots)

find_from-Stops :
    (t : DefaultRegexIndex) (w : Text) (slots : List ℕ)
    → Stops t slots
    → (i : ℕ) × (find_from t w slots ≡ ok i)
unfolding find_from
find_from-Stops t w [] h = absurd h
find_from-Stops t w (j ∷ slots) (inl e) = (uint32_max, rw (==_of_eq j uint32_max e) refl)
find_from-Stops t w (j ∷ slots) (inr ((e, q), h)) =
    let (i, r) = find_from-Stops t w slots h in
    elim (Bool-cases (j == uint32_max)) [
      | inl a ↦ (uint32_max, rw a refl)
      | inr a ↦ elim (Bool-cases (is_word_of t w e)) [
        | inl b ↦ (j, rw (a, q, b) refl)
        | inr b ↦ (i, rw (a, q, b) r)
      ]
    ]

-- Every slot holds the index of a word or is empty; the last one is empty.
abbrev pub LastIsEmpty : DefaultRegexIndex → List ℕ → Type 0
LastIsEmpty t [] = ⊥
LastIsEmpty t (i ∷ []) = i ≡ uint32_max
LastIsEmpty t (i ∷ j ∷ slots) =
    ((i ≡ uint32_max) ⊎ ((e : WordEntry) × (get_elem? t.words i ≡ some e)))
    × LastIsEmpty t (j ∷ slots)

LastIsEmpty-Stops :
    (t : DefaultRegexIndex) (k : ℕ) (slots : List ℕ)
    → LastIsEmpty t slots
    → k < length slots
    → Stops t (drop k slots)
LastIsEmpty-Stops t k [] h l = absurd h
LastIsEmpty-Stops t zero (i ∷ []) h l = inl h
LastIsEmpty-Stops t (suc k) (i ∷ []) h l = absurd (omega arith)
LastIsEmpty-Stops t zero (i ∷ j ∷ slots) (inl e, h) l = inl e
LastIsEmpty-Stops t zero (i ∷ j ∷ slots) (inr e, h) l =
    inr (e, LastIsEmpty-Stops t zero (j ∷ slots) h (omega arith))
LastIsEmpty-Stops t (suc k) (i ∷ j ∷ slots) (_, h) l =
    LastIsEmpty-Stops t k (j ∷ slots) h (omega arith)

LastIsEmpty-length :
    (t : DefaultRegexIndex) (slots : List ℕ) → LastIsEmpty t slots → 0 < length slots
LastIsEmpty-length t [] h = absurd h
LastIsEmpty-length t (i ∷ slots) h = omega arith

masked-lt : (hash n : ℕ) → 0 < n → n < 4294967296 → masked hash (mask_of n) < n
unfolding mask_of
masked-lt hash n h k = subst (λ m. hash % m < n) (size n h k) (mod-lt hash h)
  where
    size : (i : ℕ) → 0 < i → i < 4294967296 → i ≡ (i + 4294967296 - 1) % 4294967296 + 1
    size i p q = omega arith

pub find_word-LastIsEmpty :
    (t : DefaultRegexIndex)
    → LastIsEmpty t t.word_hash_table
    → length t.word_hash_table < 4294967296
    → Finds t
unfolding find_word mask_of
find_word-LastIsEmpty t h l w =
    find_from-Stops t w
      (drop (masked (hash_word w) (mask_of (length t.word_hash_table))) t.word_hash_table)
      (LastIsEmpty-Stops t (masked (hash_word w) (mask_of (length t.word_hash_table)))
        t.word_hash_table h
        (masked-lt (hash_word w) (length t.word_hash_table)
          (LastIsEmpty-length t t.word_hash_table h) l))

take_all : (s : Text) → take (length s) s ≡ s
unfolding take
take_all [] = refl
take_all (c ∷ s) = ap (◌∷◌ c) (take_all s)

-- One word.
words_from-one :
    (n : ℕ) (s : Text) → All (λ c. c ≢ newline) s → words_from 0 n s ≡ add_entry 0 (n + length s) []
unfolding words_from
words_from-one n [] h = ap (λ k. add_entry 0 k []) (omega arith)
words_from-one n (c ∷ s) (d, h) =
    rw (other c d) (words_from-one (n + 1) s h ∙ ap (λ k. add_entry 0 k []) (omega arith))
  where
    other : (b : ℕ) → b ≢ newline → (b == newline) ≡ false
    other b e = ground arith

abbrev whole : Text → WordEntry
whole u = record { offset = 0; length = length u }

initialize_words-one :
    (u : Text)
    → All (λ c. c ≢ newline) u
    → 0 < length u
    → length u < 65536
    → initialize_words u ≡ whole u ∷ []
unfolding initialize_words add_entry
initialize_words-one u h p l =
    words_from-one 0 u h ∙ ap (λ k. add_entry 0 k []) (zero_add (length u)) ∙ ground arith
  where
    zero_add : (n : ℕ) → 0 + n ≡ n
    zero_add n = omega arith

mod_one : (n : ℕ) → n % 1 ≡ 0
mod_one n = omega arith

table-one : (v : Text) (e : WordEntry) → initialize_word_hash_table v (e ∷ []) ≡ 0 ∷ []
unfolding initialize_word_hash_table insert_all insert_index set table_size next_pow_of_2 mask_of
table-one v e = rw (mod_one (hash_word (substr v e))) refl

abbrev single : Text → List ℕ → DefaultRegexIndex
single u all_chars = record {
  vocabulary = u;
  words = whole u ∷ [];
  all_chars = all_chars;
  word_hash_table = 0 ∷ [];
}

default_regex_index-one :
    (u : Text) (all_chars : List ℕ)
    → initialize_words u ≡ whole u ∷ []
    → default_regex_index u all_chars ≡ single u all_chars
unfolding default_regex_index
default_regex_index-one u all_chars e = rw (e, table-one u (whole u)) refl

other_word :
    (u w : Text) (all_chars : List ℕ) → w ≢ u → is_word_of (single u all_chars) w (whole u) ≡ false
unfolding is_word_of substr
other_word u w all_chars n = elim (Bool-cases (is_word_of (single u all_chars) w (whole u))) [
  | inl b ↦ absurd (
      n (
        sym (
          sym (take_all u)
          ∙ text_eq_sound (take (length u) u) w (&&_of_true (length u == length w) _ b).1)))
  | inr b ↦ b
]

find_word-single :
    (u w : Text) (all_chars : List ℕ)
    → w ≢ u
    → find_word (single u all_chars) w ≡ throw undefined_behaviour
unfolding find_word find_from mask_of
find_word-single u w all_chars n = rw (mod_one (hash_word w)) (rw (other_word u w all_chars n) refl)

-- Where the vocabulary is a single word, the table has a single slot, and looking up any other word
-- reads behind its end.
pub find_word-overruns :
    (u w : Text) (all_chars : List ℕ)
    → All (λ c. c ≢ newline) u
    → 0 < length u
    → length u < 65536
    → w ≢ u
    → find_word (default_regex_index u all_chars) w ≡ throw undefined_behaviour
find_word-overruns u w all_chars h p l n =
    rw (default_regex_index-one u all_chars (initialize_words-one u h p l))
      (find_word-single u w all_chars n)
