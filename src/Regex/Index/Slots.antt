-- ===== src/Regex/Index/Slots.antt =====
-- The hash table that the constructor of DefaultRegexIndex builds, and when its look-ups return.
use netspeak4_application_ng.Prelude.{
  ℕ, zero, suc, ◌+◌, ◌<◌, ◌≡◌, refl, ◌⊎◌, inl, inr, Bool-cases, Option, none, some, List, [], ◌∷◌,
  arith, length, get_elem?, All, Text, replicate, ◌==◌, if◌then◌else◌, uint32_max,
}
use netspeak4_application_ng.Regex.Index.{
  WordEntry, DefaultRegexIndex, initialize_words, set, insert_index, insert_all, masked, hash_word,
  substr, initialize_word_hash_table, default_regex_index, mask_of, table_size,
}
use netspeak4_application_ng.Regex.Index.Lookup.{Finds}
use netspeak4_application_ng.Regex.Index.Overrun.{LastIsEmpty, find_word-LastIsEmpty}

-- An empty slot, or the index of one of `n` words.
abbrev IsSlot : ℕ → ℕ → Type 0
IsSlot n i = (i ≡ uint32_max) ⊎ (i < n)

set-IsSlot :
    (n : ℕ) (table : List ℕ) (i v : ℕ)
    → IsSlot n v
    → All (IsSlot n) table
    → All (IsSlot n) (set table i v)
unfolding set
set-IsSlot n [] i v h k = k
set-IsSlot n (x ∷ table) zero v h (k, ks) = (h, ks)
set-IsSlot n (x ∷ table) (suc i) v h (k, ks) = (k, set-IsSlot n table i v h ks)

insert_index-IsSlot :
    (n fuel mask index hash : ℕ) (table : List ℕ)
    → index < n
    → All (IsSlot n) table
    → All (IsSlot n) (insert_index fuel mask index hash table)
unfolding insert_index
insert_index-IsSlot n zero mask index hash table l h = h
insert_index-IsSlot n (suc fuel) mask index hash table l h =
    go (get_elem? table hash)
      (insert_index-IsSlot n fuel mask index (masked (hash + 1) mask) table l h)
  where
    next : List ℕ
    next = insert_index fuel mask index (masked (hash + 1) mask) table

    go :
        (o : Option ℕ)
        → All (IsSlot n) next
        → All (IsSlot n) (elim o [
          | none ↦ next
          | some slot ↦ if slot == uint32_max then set table hash index else next
        ])
    go none k = k
    go (some slot) k = elim (Bool-cases (slot == uint32_max)) [
      | inl e ↦ rw e (set-IsSlot n table hash index (inr l) h)
      | inr e ↦ rw e k
    ]

insert_all-IsSlot :
    (v : Text) (n mask index : ℕ) (entries : List WordEntry) (table : List ℕ)
    → index + length entries ≡ n
    → All (IsSlot n) table
    → All (IsSlot n) (insert_all v mask index entries table)
unfolding insert_all
insert_all-IsSlot v n mask index [] table e h = h
insert_all-IsSlot v n mask index (entry ∷ entries) table e h =
    insert_all-IsSlot v n mask (index + 1) entries _ (omega arith) (
      insert_index-IsSlot n (length table) mask index (masked (hash_word (substr v entry)) mask)
        table (omega arith) h)

replicate-IsSlot : (n k : ℕ) → All (IsSlot n) (replicate k uint32_max)
replicate-IsSlot n zero = tt
replicate-IsSlot n (suc k) = (inl refl, replicate-IsSlot n k)

table-IsSlot :
    (v : Text) (entries : List WordEntry)
    → All (IsSlot (length entries)) (initialize_word_hash_table v entries)
unfolding initialize_word_hash_table
table-IsSlot v entries =
    insert_all-IsSlot v (length entries) (mask_of (table_size (length entries))) 0 entries _
      (omega arith) (replicate-IsSlot (length entries) (table_size (length entries)))

unfoldable pub last_slot : List ℕ → Option ℕ
last_slot [] = none
last_slot (i ∷ []) = some i
last_slot (i ∷ j ∷ slots) = last_slot (j ∷ slots)

get_elem?-some :
    (es : List WordEntry) (i : ℕ) → i < length es → (e : WordEntry) × (get_elem? es i ≡ some e)
get_elem?-some [] i h = absurd (omega arith)
get_elem?-some (e ∷ es) zero h = (e, refl)
get_elem?-some (e ∷ es) (suc i) h = get_elem?-some es i (omega arith)

slots-LastIsEmpty :
    (t : DefaultRegexIndex) (slots : List ℕ)
    → All (IsSlot (length t.words)) slots
    → last_slot slots ≡ some uint32_max
    → LastIsEmpty t slots
unfolding last_slot
slots-LastIsEmpty t [] h e = cc
slots-LastIsEmpty t (i ∷ []) h e = some_inj e
  where
    some_inj : some i ≡ some uint32_max → i ≡ uint32_max
    some_inj r = cc
slots-LastIsEmpty t (i ∷ j ∷ slots) (inl a, h) e = (inl a, slots-LastIsEmpty t (j ∷ slots) h e)
slots-LastIsEmpty t (i ∷ j ∷ slots) (inr a, h) e =
    (inr (get_elem?-some t.words i a), slots-LastIsEmpty t (j ∷ slots) h e)

-- In the index that the constructor builds, where the last slot of the hash table is empty, every
-- look-up returns: no run of words reaches the end of the table. The table has fewer than 2^32
-- slots.
pub find_word-returns :
    (vocabulary : Text) (all_chars : List ℕ)
    → last_slot (default_regex_index vocabulary all_chars).word_hash_table ≡ some uint32_max
    → length (default_regex_index vocabulary all_chars).word_hash_table < 4294967296
    → Finds (default_regex_index vocabulary all_chars)
unfolding default_regex_index
find_word-returns vocabulary all_chars e l =
    let t = default_regex_index vocabulary all_chars in
    find_word-LastIsEmpty t
      (slots-LastIsEmpty t t.word_hash_table (table-IsSlot vocabulary (initialize_words vocabulary))
        e)
      l
