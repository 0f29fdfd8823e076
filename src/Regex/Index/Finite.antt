-- ===== src/Regex/Index/Finite.antt =====
-- The search by look-ups, for queries that accept finitely many words.
use netspeak4_application_ng.Prelude.{
  ℕ, suc, ◌-◌, ◌≤◌, ◌≡◌, refl, sym, ap, ◌∙◌, inl, inr, List, [], ◌∷◌, ◌++◌, map, arith, length, All,
  Any, Text, Bool-cases, ◌==◌, ltb, leb,
}
use netspeak4_application_ng.Regex.Query.{
  RegexUnit, qmark, star, word, char_set, optional_word, RegexQuery,
}
use netspeak4_application_ng.Regex.Lang.{UnitLang, UnitsLang}
use netspeak4_application_ng.Regex.Builder.{sort, insert_sorted}
use netspeak4_application_ng.Regex.Utf8.{to_bytes, to_bytes-append}
use netspeak4_application_ng.Regex.Index.{DefaultRegexIndex, word_at_index, find_word}
use netspeak4_application_ng.Regex.Index.Matching.{
  alternatives, finite_query_to_utf8, match_query_hash_lookup_impl, add_words, add_distinct,
  match_query_hash_lookup,
}
use netspeak4_application_ng.Regex.Index.Lookup.{
  Accepts, All-weaken, Finds, Gives, Gives-bind, Hit, IsWord, StackLang, lookup-Hit,
  word_at_index-IsWord,
}

to_bytes-empty : [] ≡ to_bytes []
unfolding to_bytes
to_bytes-empty = refl

-- The texts of the alternatives of a query are encodings of accepted words.
alternatives-Accepts :
    (u : RegexUnit) (a : Text)
    → Any (λ x. a ≡ x) (alternatives u)
    → (x : Text) × (a ≡ to_bytes x) × UnitLang u x
unfolding alternatives
alternatives-Accepts qmark a (inr z) = absurd z
alternatives-Accepts star a (inr z) = absurd z
alternatives-Accepts (word t) a (inr z) = absurd z
alternatives-Accepts (optional_word t) a (inr (inr z)) = absurd z
alternatives-Accepts qmark a (inl e) = (b'?' ∷ [], e, (b'?', refl))
alternatives-Accepts star a (inl e) = (b'*' ∷ [], e, tt)
alternatives-Accepts (word t) a (inl e) = (t, e, refl)
alternatives-Accepts (optional_word t) a (inl e) = (t, e, inr refl)
alternatives-Accepts (optional_word t) a (inr (inl e)) = ([], e ∙ to_bytes-empty, inl refl)
alternatives-Accepts (char_set cs) a h = set_char cs h
  where
    set_char :
        (ds : Text)
        → Any (λ x. a ≡ x) (map (λ c. to_bytes (c ∷ [])) ds)
        → (x : Text) × (a ≡ to_bytes x) × UnitLang (char_set ds) x
    set_char [] z = absurd z
    set_char (d ∷ ds) (inl e) = (d ∷ [], e, (d, refl, inl refl))
    set_char (d ∷ ds) (inr h') = let (x, e, (c, q, o)) = set_char ds h' in (x, e, (c, q, inr o))

StackLang-Accepts :
    (us : List RegexUnit) (m : Text)
    → StackLang (finite_query_to_utf8 us) m
    → (x : Text) × (m ≡ to_bytes x) × UnitsLang us x
unfolding finite_query_to_utf8
StackLang-Accepts [] m e = ([], e ∙ to_bytes-empty, refl)
StackLang-Accepts (u ∷ us) m (a, b, q, h, s) =
    let (x, e, y) = alternatives-Accepts u a h in
    let (x', e', y') = StackLang-Accepts us b s in
    (
      x ++ x',
      q ∙ ap (λ v. v ++ b) e ∙ ap (λ v. to_bytes x ++ v) e' ∙ sym (to_bytes-append x x'),
      (x, x', refl, y, y'),
    )

All-insert_sorted :
    (P : ℕ → Type 0) (c : ℕ) (cs : Text) → P c → All P cs → All P (insert_sorted c cs)
unfolding insert_sorted
All-insert_sorted P c [] p h = (p, tt)
All-insert_sorted P c (d ∷ ds) p (q, h) = elim (Bool-cases (leb c d)) [
  | inl e ↦ rw e (p, (q, h))
  | inr e ↦ rw e (q, All-insert_sorted P c ds p h)
]

All-sort : (P : ℕ → Type 0) (cs : Text) → All P cs → All P (sort cs)
unfolding sort
All-sort P [] h = tt
All-sort P (c ∷ cs) (p, h) = All-insert_sorted P c (sort cs) p (All-sort P cs h)

-- At most `n` texts, all with the property.
abbrev pub Within : (Text → Type 0) → ℕ → List Text → Type 0
Within P n ms = All P ms × (length ms ≤ n)

module _ (t : DefaultRegexIndex) (P : Text → Type 0) (max_matches : ℕ) where
  abbrev Good : ℕ → Type 0
  Good i = Gives P (word_at_index t i)

  add_words-Within :
      (last_index added : ℕ) (is : List ℕ)
      → All Good is
      → added ≤ max_matches
      → Gives (Within P (max_matches - added)) (add_words t max_matches last_index added is)
  unfolding add_words
  add_words-Within last_index added [] h k = ([], refl, (tt, omega arith))
  add_words-Within last_index added (i ∷ is) (g, h) k = elim (Bool-cases (ltb added max_matches)) [
    | inl e ↦ rw e (elim (Bool-cases (i == last_index)) [
      | inl f ↦ rw f (add_words-Within last_index added is h k)
      | inr f ↦ rw f (
          Gives-bind P (Within P (max_matches - added)) (word_at_index t i) _ g λ w p.
            Gives-bind (Within P (max_matches - suc added)) (Within P (max_matches - added))
              (add_words t max_matches i (suc added) is) _
              (add_words-Within i (suc added) is h (ground arith))
              λ ms (a, l). (w ∷ ms, refl, ((p, a), ground arith)))
    ])
    | inr e ↦ rw e ([], refl, (tt, omega arith))
  ]

  add_distinct-Within :
      (is : List ℕ)
      → All Good is
      → 1 ≤ max_matches
      → Gives (Within P max_matches) (add_distinct t max_matches is)
  unfolding add_distinct
  add_distinct-Within [] h k = ([], refl, (tt, omega arith))
  add_distinct-Within (i ∷ is) (g, h) k =
      Gives-bind P (Within P max_matches) (word_at_index t i) _ g λ w p.
        Gives-bind (Within P (max_matches - 1)) (Within P max_matches)
          (add_words t max_matches i 1 is) _ (add_words-Within i 1 is h k)
          λ ms (a, l). (w ∷ ms, refl, ((p, a), omega arith))

abbrev pub IsMatch : DefaultRegexIndex → RegexQuery → Text → Type 0
IsMatch t q m = IsWord t m × Accepts q m

pub match_query_hash_lookup-Within :
    (t : DefaultRegexIndex) (q : RegexQuery) (max_matches : ℕ)
    → Finds t
    → 1 ≤ max_matches
    → Gives (Within (IsMatch t q) max_matches) (match_query_hash_lookup t q max_matches)
unfolding match_query_hash_lookup
match_query_hash_lookup-Within t q max_matches finds k =
    Gives-bind (All (Hit t (finite_query_to_utf8 q.units) [])) (Within (IsMatch t q) max_matches)
      (match_query_hash_lookup_impl (find_word t) (finite_query_to_utf8 q.units) []) _
      (lookup-Hit t finds (finite_query_to_utf8 q.units) [])
      λ is h.
        add_distinct-Within t (IsMatch t q) max_matches (sort is)
          (All-sort _ is (All-weaken _ _ is good h)) k
  where
    good :
        (i : ℕ)
        → Hit t (finite_query_to_utf8 q.units) [] i
        → Gives (IsMatch t q) (word_at_index t i)
    good i (b, e, s) = (b, e, (word_at_index-IsWord t i b e, StackLang-Accepts q.units b s))
