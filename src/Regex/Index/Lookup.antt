-- ===== src/Regex/Index/Lookup.antt =====
-- The look-ups of words in the hash table, and of the texts that a stack of alternatives gives.
use netspeak4_application_ng.Prelude.{
  ℕ, zero, suc, ◌≡◌, ◌≢◌, refl, sym, ap, subst, ◌∙◌, inl, inr, true, Option, none, some, List, [],
  ◌∷◌, ◌++◌, append-nil, append_assoc, arith, length, get_elem?, drop, All, All-append, Any, Text,
  text_eq_sound, Bool-cases, ◌==◌, if◌then◌else◌, &&_of_true, uint32_max, Result, ok, throw, ◌>>=◌,
  undefined_behaviour,
}
use netspeak4_application_ng.Regex.Query.{RegexQuery}
use netspeak4_application_ng.Regex.Lang.{RegexLang}
use netspeak4_application_ng.Regex.Utf8.{to_bytes}
use netspeak4_application_ng.Regex.Index.{
  WordEntry, DefaultRegexIndex, substr, word_at_index, is_word_of, find_from, find_word, masked,
  mask_of, hash_word,
}
use netspeak4_application_ng.Regex.Index.Matching.{for_each, match_query_hash_lookup_impl}

-- The text is a word of the vocabulary.
abbrev pub IsWord : DefaultRegexIndex → Text → Type 0
IsWord t m = Any (λ e. m ≡ substr t.vocabulary e) t.words

-- The text is the encoding of a word that the query accepts.
abbrev pub Accepts : RegexQuery → Text → Type 0
Accepts q m = (x : Text) × (m ≡ to_bytes x) × RegexLang q x

Any-get_elem? :
    (P : WordEntry → Type 0) (es : List WordEntry) (i : ℕ) (e : WordEntry)
    → get_elem? es i ≡ some e
    → P e
    → Any P es
Any-get_elem? P [] i e h p = absurd (none_some h)
  where
    none_some : none ≡ some e → ⊥
    none_some r = cc
Any-get_elem? P (d ∷ es) zero e h p = inl (subst P (sym (some_inj h)) p)
  where
    some_inj : some d ≡ some e → d ≡ e
    some_inj r = cc
Any-get_elem? P (d ∷ es) (suc i) e h p = inr (Any-get_elem? P es i e h p)

pub word_at_index-IsWord :
    (t : DefaultRegexIndex) (i : ℕ) (m : Text) → word_at_index t i ≡ ok m → IsWord t m
unfolding word_at_index
word_at_index-IsWord t i m h = go (get_elem? t.words i) refl h
  where
    go :
        (o : Option WordEntry)
        → get_elem? t.words i ≡ o
        → (elim o [ some e ↦ ok (substr t.vocabulary e) | none ↦ throw undefined_behaviour ]) ≡ ok m
        → IsWord t m
    go none q r = cc
    go (some e) q r = Any-get_elem? (λ d. m ≡ substr t.vocabulary d) t.words i e q (cc)

-- find_word gives the index of the word, or the greatest number.
find_from_sound :
    (t : DefaultRegexIndex) (w : Text) (slots : List ℕ) (i : ℕ)
    → find_from t w slots ≡ ok i
    → i ≢ uint32_max
    → word_at_index t i ≡ ok w
unfolding find_from word_at_index is_word_of
find_from_sound t w [] i h n = cc
find_from_sound t w (index ∷ slots) i h n = elim (Bool-cases (index == uint32_max)) [
  | inl e ↦ absurd (n (ground arith))
  | inr e ↦ go (get_elem? t.words index) refl (rw e at h) (λ r. find_from_sound t w slots i r n)
]
  where
    same_word : (e : WordEntry) → is_word_of t w e ≡ true → substr t.vocabulary e ≡ w
    same_word e r =
        text_eq_sound (substr t.vocabulary e) w (&&_of_true (e.length == length w) _ r).1

    go :
        (o : Option WordEntry)
        → get_elem? t.words index ≡ o
        → (elim o [
          | none ↦ throw undefined_behaviour
          | some e ↦ if is_word_of t w e then ok index else find_from t w slots
        ])
          ≡ ok i
        → (find_from t w slots ≡ ok i → word_at_index t i ≡ ok w)
        → word_at_index t i ≡ ok w
    go none q r f = cc
    go (some e) q r f = elim (Bool-cases (is_word_of t w e)) [
      | inl b ↦ found e q b (index_is e b r)
      | inr b ↦ f (rw b at r)
    ]
      where
        index_is :
            (d : WordEntry)
            → is_word_of t w d ≡ true
            → (if is_word_of t w d then ok index else find_from t w slots) ≡ ok i
            → index ≡ i
        index_is d b' r' = ok_inj (rw b' at r')
          where
            ok_inj : ok index ≡ ok i → index ≡ i
            ok_inj x = cc

        found :
            (d : WordEntry)
            → get_elem? t.words index ≡ some d
            → is_word_of t w d ≡ true
            → index ≡ i
            → word_at_index t i ≡ ok w
        found d q' b' r' =
            subst (λ k. word_at_index t k ≡ ok w) r'
              (rw (q', word_at_index) (ap ok (same_word d b')))

slots_of : DefaultRegexIndex → Text → List ℕ
unfolding hash_word mask_of
slots_of t w = drop (masked (hash_word w) (mask_of (length t.word_hash_table))) t.word_hash_table

find_word_sound :
    (t : DefaultRegexIndex) (w : Text) (i : ℕ)
    → find_word t w ≡ ok i
    → i ≢ uint32_max
    → word_at_index t i ≡ ok w
unfolding find_word slots_of
find_word_sound t w i h n = find_from_sound t w (slots_of t w) i h n

-- The texts that a stack of alternatives gives.
abbrev pub StackLang : List (List Text) → Text → Type 0
StackLang [] m = m ≡ []
StackLang (alts ∷ stack) m =
    (a : Text) × (b : Text) × (m ≡ a ++ b) × Any (λ x. a ≡ x) alts × StackLang stack b

-- The result of a call that returns, with a property.
abbrev pub Gives {ℓ} : {A : Type ℓ} → (A → Type 0) → Result A → Type ℓ
Gives {A = A} P m = (a : A) × (m ≡ ok a) × P a

pub Gives-bind {ℓ κ} :
    {A : Type ℓ} {B : Type κ} (P : A → Type 0) (Q : B → Type 0) (m : Result A) (f : A → Result B)
    → Gives P m
    → ((a : A) → P a → Gives Q (f a))
    → Gives Q (m >>= f)
Gives-bind P Q m f (a, e, p) h = rw e (h a p)

-- Every look-up returns.
abbrev pub Finds : DefaultRegexIndex → Type 0
Finds t = (w : Text) → (i : ℕ) × (find_word t w ≡ ok i)

-- An index that the search found for a text of the stack behind what was put together.
abbrev pub Hit : DefaultRegexIndex → List (List Text) → Text → ℕ → Type 0
Hit t stack temp i = (b : Text) × (word_at_index t i ≡ ok (temp ++ b)) × StackLang stack b

pub All-weaken {ℓ} :
    {A : Type ℓ} (P Q : A → Type 0) (xs : List A) → ((a : A) → P a → Q a) → All P xs → All Q xs
All-weaken P Q [] h k = tt
All-weaken P Q (x ∷ xs) h (k, ks) = (h x k, All-weaken P Q xs h ks)

module _ (t : DefaultRegexIndex) (finds : Finds t) where
  find_word-Hit :
      (temp : Text)
      → Gives (All (Hit t [] temp)) (match_query_hash_lookup_impl (find_word t) [] temp)
  unfolding match_query_hash_lookup_impl
  find_word-Hit temp =
      let (i, e) = finds temp in
      rw e (elim (Bool-cases (i == uint32_max)) [
        | inl b ↦ rw b ([], refl, tt)
        | inr b ↦ rw b (i ∷ [], refl, (([], hit i e (ground arith), refl), tt))
      ])
    where
      hit : (i : ℕ) → find_word t temp ≡ ok i → i ≢ uint32_max → word_at_index t i ≡ ok (temp ++ [])
      hit i e n = find_word_sound t temp i e n ∙ ap ok (sym (append-nil temp))

  for_each-Hit :
      (P : ℕ → Type 0) (alts : List Text) (body : Text → Result (List ℕ))
      → All (λ a. Gives (All P) (body a)) alts
      → Gives (All P) (for_each alts body)
  unfolding for_each
  for_each-Hit P [] body h = ([], refl, tt)
  for_each-Hit P (a ∷ alts) body (h, hs) = Gives-bind (All P) (All P) (body a) _ h λ found p.
      Gives-bind (All P) (All P) (for_each alts body) _ (for_each-Hit P alts body hs)
        λ rest r. (found ++ rest, refl, All-append P found rest p r)

All_of_each :
    (P : Text → Type 0) (xs : List Text) → ((a : Text) → Any (λ x. a ≡ x) xs → P a) → All P xs
All_of_each P [] h = tt
All_of_each P (x ∷ xs) h = (h x (inl refl), All_of_each P xs (λ a m. h a (inr m)))

pub lookup-Hit :
    (t : DefaultRegexIndex) (finds : Finds t) (stack : List (List Text)) (temp : Text)
    → Gives (All (Hit t stack temp)) (match_query_hash_lookup_impl (find_word t) stack temp)
unfolding match_query_hash_lookup_impl
lookup-Hit t finds [] temp = find_word-Hit t finds temp
lookup-Hit t finds (alts ∷ stack) temp =
    for_each-Hit t finds (Hit t (alts ∷ stack) temp) alts
      (λ a. match_query_hash_lookup_impl (find_word t) stack (temp ++ a))
      (All_of_each _ alts λ a m. extend a m (lookup-Hit t finds stack (temp ++ a)))
  where
    extend :
        (a : Text)
        → Any (λ x. a ≡ x) alts
        → Gives
            (All (Hit t stack (temp ++ a)))
            (match_query_hash_lookup_impl (find_word t) stack (temp ++ a))
        → Gives
            (All (Hit t (alts ∷ stack) temp))
            (match_query_hash_lookup_impl (find_word t) stack (temp ++ a))
    extend a m (is, e, h) = (
      is,
      e,
      All-weaken _ _ is
          (λ i (b, q, s). (a ++ b, q ∙ ap ok (append_assoc temp a b), (a, b, refl, m, s))) h,
    )
