-- ===== src/Regex/Index/Lines.antt =====
-- The words of an index, against the lines of its vocabulary.
use netspeak4_application_ng.Prelude.{
  ℕ, suc, ◌+◌, ◌%◌, ◌≡◌, ◌<◌, refl, sym, ap, ap₂, subst, ◌∙◌, inl, inr, true, Bool-cases, List, [],
  ◌∷◌, ◌++◌, map, drop, length, length-append, append_assoc, append-nil, All, Text, arith, ◌==◌,
  ltb, if◌then◌else◌, u32_mod,
}
use netspeak4_application_ng.Regex.Index.{
  WordEntry, take, substr, newline, add_entry, words_from, initialize_words,
}

-- A character in front of the first line.
abbrev pub longer_line : ℕ → List Text → List Text
longer_line c [] = (c ∷ []) ∷ []
longer_line c (l ∷ ls) = (c ∷ l) ∷ ls

-- The lines of a text; the last one may be empty.
unfoldable pub split_lines : Text → List Text
split_lines [] = [] ∷ []
split_lines (c ∷ s) =
    let rest = split_lines s in if c == newline then [] ∷ rest else longer_line c rest

abbrev pub keep_nonempty : List Text → List Text
keep_nonempty [] = []
keep_nonempty ([] ∷ ls) = keep_nonempty ls
keep_nonempty ((c ∷ l) ∷ ls) = (c ∷ l) ∷ keep_nonempty ls

-- The word that is being read, in front of the first line.
abbrev prepend : Text → List Text → List Text
prepend word [] = word ∷ []
prepend word (l ∷ ls) = (word ++ l) ∷ ls

take-drop :
    (before word rest : Text)
    → take (length word) (drop (length before) (before ++ (word ++ rest))) ≡ word
unfolding take
take-drop [] [] rest = refl
take-drop [] (c ∷ word) rest = ap (λ w. c ∷ w) (take-drop [] word rest)
take-drop (b ∷ before) word rest = take-drop before word rest

prepend-nil : (s : Text) → prepend [] (split_lines s) ≡ split_lines s
unfolding split_lines
prepend-nil [] = refl
prepend-nil (c ∷ s) = elim (Bool-cases (c == newline)) [
  | inl e ↦ rw e refl
  | inr e ↦ rw e (same (split_lines s))
]
  where
    same : (ls : List Text) → prepend [] (longer_line c ls) ≡ longer_line c ls
    same [] = refl
    same (l ∷ ls) = refl

prepend-longer_line :
    (word : Text) (c : ℕ) (ls : List Text)
    → prepend (word ++ c ∷ []) ls ≡ prepend word (longer_line c ls)
prepend-longer_line word c [] = refl
prepend-longer_line word c (l ∷ ls) = ap (λ w. w ∷ ls) (append_assoc word (c ∷ []) l)

add_entry-some :
    (prev count : ℕ) (entries : List WordEntry)
    → 0 < count
    → prev < u32_mod
    → count < 65536
    → add_entry prev count entries ≡ record { offset = prev; length = count } ∷ entries
unfolding add_entry
add_entry-some prev count entries h k l = rw (some_bytes count h) (
    ap₂ (λ p n. record { offset = p; length = n } ∷ entries) (offset_fits prev k)
      (length_fits count l))
  where
    some_bytes : (n : ℕ) → 0 < n → ltb 0 n ≡ true
    some_bytes n x = ground arith

    offset_fits : (n : ℕ) → n < u32_mod → n % u32_mod ≡ n
    offset_fits n x = omega arith

    length_fits : (n : ℕ) → n < 65536 → n % 65536 ≡ n
    length_fits n x = omega arith

regroup :
    (before word : Text) (c : ℕ) (s : Text)
    → before ++ (word ++ c ∷ s) ≡ (before ++ (word ++ c ∷ [])) ++ ([] ++ s)
regroup before word c s =
    ap (λ t. before ++ t) (sym (append_assoc word (c ∷ []) s))
    ∙ sym (append_assoc before (word ++ c ∷ []) s)

measured :
    (before word : Text) (c : ℕ)
    → length before + length word + 1 ≡ length (before ++ (word ++ c ∷ []))
measured before word c =
    omega (arith, length-append before (word ++ c ∷ []), length-append word (c ∷ []))

grown : (word : Text) (c : ℕ) → length word + 1 ≡ length (word ++ c ∷ [])
grown word c = omega (arith, length-append word (c ∷ []))

module _ (v : Text) (small : length v < u32_mod) where
  -- The entry of a word.
  entry-word :
      (before word rest : Text) (entries : List WordEntry) (ls : List Text)
      → v ≡ before ++ (word ++ rest)
      → length word < 65536
      → map (substr v) entries ≡ keep_nonempty ls
      → map (substr v) (add_entry (length before) (length word) entries) ≡ keep_nonempty (word ∷ ls)
  unfolding add_entry substr
  entry-word before [] rest entries ls e h f = f
  entry-word before (c ∷ word) rest entries ls e h f =
      ap (map (substr v)) (
        add_entry-some (length before) (suc (length word)) entries (omega arith)
          (omega (arith, ap length e, length-append before (c ∷ (word ++ rest)), small)) h)
      ∙ ap₂ (λ w ws. w ∷ ws)
          (ap (λ t. take (suc (length word)) (drop (length before) t)) e
            ∙ take-drop before (c ∷ word) rest)
          f

  words_from-lines :
      (before word s : Text)
      → v ≡ before ++ (word ++ s)
      → All (λ l. length l < 65536) (prepend word (split_lines s))
      → map (substr v) (words_from (length before) (length word) s)
        ≡ keep_nonempty (prepend word (split_lines s))
  unfolding words_from split_lines
  words_from-lines before word [] e (h, _) =
      entry-word before word [] [] [] e (omega (arith, length-append word [])) refl
      ∙ ap (λ w. keep_nonempty (w ∷ [])) (sym (append-nil word))
  words_from-lines before word (c ∷ s) e h = elim (Bool-cases (c == newline)) [
    | inl b ↦
        let after = before ++ (word ++ c ∷ []) in
        let (short, shorts) : All (λ l. length l < 65536) ((word ++ []) ∷ split_lines s) =
          subst
            (λ x.
              All (λ l. length l < 65536)
                (prepend word (if x then [] ∷ split_lines s else longer_line c (split_lines s))))
            b h in
        let ih =
          words_from-lines after [] s (e ∙ regroup before word c s)
            (subst (All (λ l. length l < 65536)) (sym (prepend-nil s)) shorts) in
        let ih' : map (substr v) (words_from (length before + length word + 1) 0 s)
            ≡ keep_nonempty (split_lines s) =
          ap (λ n. map (substr v) (words_from n 0 s)) (measured before word c)
          ∙ ih
          ∙ ap keep_nonempty (prepend-nil s) in
        rw b (
          entry-word before word (c ∷ s) (words_from (length before + length word + 1) 0 s)
            (split_lines s) e (omega (arith, length-append word [])) ih'
          ∙ ap (λ w. keep_nonempty (w ∷ split_lines s)) (sym (append-nil word)))
    | inr b ↦
        let longer = prepend-longer_line word c (split_lines s) in
        let h' : All (λ l. length l < 65536) (prepend word (longer_line c (split_lines s))) =
          subst
            (λ x.
              All (λ l. length l < 65536)
                (prepend word (if x then [] ∷ split_lines s else longer_line c (split_lines s))))
            b h in
        rw b (
          ap (λ n. map (substr v) (words_from (length before) n s)) (grown word c)
          ∙ words_from-lines before (word ++ c ∷ []) s
              (e ∙ ap (λ t. before ++ t) (sym (append_assoc word (c ∷ []) s)))
              (subst (All (λ l. length l < 65536)) (sym longer) h')
          ∙ ap keep_nonempty longer)
  ]

-- In a vocabulary of fewer than 2^32 bytes with lines of fewer than 2^16 bytes, the words of the index
-- are the lines of the vocabulary that are not empty, in their order.
pub initialize_words-lines :
    (vocabulary : Text)
    → length vocabulary < u32_mod
    → All (λ l. length l < 65536) (split_lines vocabulary)
    → map (substr vocabulary) (initialize_words vocabulary) ≡ keep_nonempty (split_lines vocabulary)
unfolding initialize_words
initialize_words-lines vocabulary small short =
    words_from-lines vocabulary small [] [] vocabulary refl
      (subst (All (λ l. length l < 65536)) (sym (prepend-nil vocabulary)) short)
    ∙ ap keep_nonempty (prepend-nil vocabulary)
