-- ===== src/Regex/Index/Scan.antt =====
-- The searches that walk over the words of the vocabulary.
use netspeak4_application_ng.Prelude.{
  ℕ, zero, suc, ◌-◌, ◌%◌, ◌≤◌, ◌<◌, ◌≡◌, refl, sym, ap, subst, inl, inr, Bool, true, false, List,
  [], ◌∷◌, append-nil, arith, length, All, Any, Text, Bool-cases, ◌==◌, ltb, leb, ◌&&◌, ◌||◌,
  if◌then◌else◌,
}
use netspeak4_application_ng.Regex.Query.{
  RegexUnit, qmark, star, word, char_set, optional_word, RegexQuery, accepts_all_non_empty,
  is_star_only, is_star_and_qmark, accepts_all, min_utf8_input_length, max_utf8_input_length,
}
use netspeak4_application_ng.Regex.Lang.{UnitsLang, RegexLang}
use netspeak4_application_ng.Regex.Utf8.{to_bytes}
use netspeak4_application_ng.Regex.Utf8.Align.{AreCodes}
use netspeak4_application_ng.Regex.Index.{WordEntry, DefaultRegexIndex, substr}
use netspeak4_application_ng.Regex.Index.Matching.{
  Environment, match_words, create_regex_pattern, first_words,
}
use netspeak4_application_ng.Regex.Index.Lookup.{Accepts, All-weaken, IsWord}
use netspeak4_application_ng.Regex.Index.Pattern.{perl_units}
use netspeak4_application_ng.Regex.Index.Reading.{IsUnicode}
use netspeak4_application_ng.Regex.Index.Aligned.{FollowsSyntax, regex_match-Accepts}
use netspeak4_application_ng.Regex.Index.Finite.{IsMatch, Within}

-- The words of the vocabulary, as a list of their entries gives them.
abbrev InVocabulary : DefaultRegexIndex → List WordEntry → Type 0
InVocabulary t = All (λ e. IsWord t (substr t.vocabulary e))

All_entries :
    (v : Text) (es ds : List WordEntry)
    → ((e : WordEntry)
        → Any (λ d. substr v e ≡ substr v d) es
        → Any (λ d. substr v e ≡ substr v d) ds)
    → All (λ e. Any (λ d. substr v e ≡ substr v d) ds) es
All_entries v [] ds h = tt
All_entries v (e ∷ es) ds h = (h e (inl refl), All_entries v es ds (λ d m. h d (inr m)))

pub words-InVocabulary : (t : DefaultRegexIndex) → InVocabulary t t.words
words-InVocabulary t = All_entries t.vocabulary t.words t.words (λ e m. m)

-- The words of the entries that the pattern of the query matches are accepted.
abbrev MatchesAccepted : Environment → DefaultRegexIndex → RegexQuery → List WordEntry → Type 0
MatchesAccepted env t q = All (λ e.
    env.regex_match (create_regex_pattern q) (substr t.vocabulary e) ≡ true
    → Accepts q (substr t.vocabulary e))

cons-Within :
    (P : Text → Type 0) (w : Text) (ms : List Text) (n k : ℕ)
    → P w
    → k < n
    → Within P (n - suc k) ms
    → Within P (n - k) (w ∷ ms)
cons-Within P w ms n k p l (a, h) = ((p, a), omega arith)

if-Within :
    (P : Text → Type 0) (n : ℕ) (b : Bool) (ms : List Text)
    → (b ≡ false → Within P n ms)
    → Within P n (if b then [] else ms)
if-Within P n true ms h = (tt, omega arith)
if-Within P n false ms h = h refl

module _ (env : Environment) (t : DefaultRegexIndex) (q : RegexQuery) (max_matches : ℕ) where
  pub match_words-Within :
      (i added : ℕ) (es : List WordEntry)
      → MatchesAccepted env t q es
      → InVocabulary t es
      → added < max_matches
      → Within (IsMatch t q) (max_matches - added) (match_words env t q max_matches i added es)
  unfolding match_words
  match_words-Within i added [] m h k = (tt, omega arith)
  match_words-Within i added (e ∷ es) (accepted, m) (v, h) k =
      let w = substr t.vocabulary e in
      elim (Bool-cases (
        ltb e.length (min_utf8_input_length q % 65536)
        || ltb (max_utf8_input_length q % 65536) e.length)) [
          | inl a ↦ rw a (match_words-Within (suc i) added es m h k)
          | inr a ↦ rw a (elim (Bool-cases (env.regex_match (create_regex_pattern q) w)) [
            | inl b ↦ rw b (
                cons-Within (IsMatch t q) w _ max_matches added (v, accepted b) k
                  (if-Within (IsMatch t q) (max_matches - suc added) (leb max_matches (suc added)) _
                    λ f.
                      if-Within (IsMatch t q) (max_matches - suc added)
                        (i % 256 == 0 && env.time_over i) _
                        λ _. match_words-Within (suc i) (suc added) es m h (ground arith)))
            | inr b ↦ rw b (
                if-Within (IsMatch t q) (max_matches - added) (i % 256 == 0 && env.time_over i) _
                  λ _. match_words-Within (suc i) added es m h k)
          ])
        ]

-- The words of the vocabulary are encodings of words of code points that are not empty.
abbrev pub IsEncoded : DefaultRegexIndex → Type 0
IsEncoded t =
    All (λ e. (x : Text) × (substr t.vocabulary e ≡ to_bytes x) × (1 ≤ length x) × AreCodes x)
      t.words

pub words-MatchesAccepted :
    (env : Environment) (t : DefaultRegexIndex) (q : RegexQuery)
    → FollowsSyntax env (perl_units q.units)
    → All IsUnicode q.units
    → IsEncoded t
    → MatchesAccepted env t q t.words
words-MatchesAccepted env t q follows unicode = All-weaken _ _ t.words λ e (x, r, _, k) m.
    subst (Accepts q) (sym r) (
      regex_match-Accepts env q x follows unicode k
        (subst (λ w. env.regex_match (create_regex_pattern q) w ≡ true) r m))

star_only-accepted : (us : List RegexUnit) (x : Text) → is_star_only us ≡ true → UnitsLang us x
unfolding is_star_only
star_only-accepted (star ∷ []) x h = (x, [], sym (append-nil x), tt, refl)
star_only-accepted [] x h = cc
star_only-accepted (star ∷ u ∷ us) x h = cc
star_only-accepted (qmark ∷ us) x h = cc
star_only-accepted (word t ∷ us) x h = cc
star_only-accepted (char_set t ∷ us) x h = cc
star_only-accepted (optional_word t ∷ us) x h = cc

qmark_star-accepted : (x : Text) → 1 ≤ length x → UnitsLang (qmark ∷ star ∷ []) x
qmark_star-accepted [] h = absurd (omega arith)
qmark_star-accepted (c ∷ x) h = (c ∷ [], x, refl, (c, refl), (x, [], sym (append-nil x), tt, refl))

star_qmark-accepted : (x : Text) → 1 ≤ length x → UnitsLang (star ∷ qmark ∷ []) x
star_qmark-accepted [] h = absurd (omega arith)
star_qmark-accepted (c ∷ []) h = ([], c ∷ [], refl, tt, (c ∷ [], [], refl, (c, refl), refl))
star_qmark-accepted (c ∷ d ∷ x) h =
    let (a, b, q, _, y) = star_qmark-accepted (d ∷ x) (omega arith) in
    (c ∷ a, b, ap (◌∷◌ c) q, tt, y)

non_empty-accepted :
    (us : List RegexUnit) (x : Text) → is_star_and_qmark us ≡ true → 1 ≤ length x → UnitsLang us x
unfolding is_star_and_qmark
non_empty-accepted (qmark ∷ star ∷ []) x h l = qmark_star-accepted x l
non_empty-accepted (star ∷ qmark ∷ []) x h l = star_qmark-accepted x l
non_empty-accepted us x h l = cc

accepts_all_non_empty-accepted :
    (q : RegexQuery) (x : Text) → accepts_all_non_empty q ≡ true → 1 ≤ length x → RegexLang q x
unfolding accepts_all_non_empty accepts_all
accepts_all_non_empty-accepted q x h l = elim (Bool-cases (is_star_only q.units)) [
  | inl e ↦ star_only-accepted q.units x e
  | inr e ↦ non_empty-accepted q.units x (rw e at h) l
]

pub first_words-Within :
    (t : DefaultRegexIndex) (q : RegexQuery) (n : ℕ) (es : List WordEntry)
    → InVocabulary t es
    → All (λ e. Accepts q (substr t.vocabulary e)) es
    → Within (IsMatch t q) n (first_words t n es)
unfolding first_words
first_words-Within t q zero es h k = (tt, omega arith)
first_words-Within t q (suc n) [] h k = (tt, omega arith)
first_words-Within t q (suc n) (e ∷ es) (v, h) (a, k) =
    let (p, l) = first_words-Within t q n es h k in (((v, a), p), omega arith)

pub all_words-accepted :
    (t : DefaultRegexIndex) (q : RegexQuery)
    → accepts_all_non_empty q ≡ true
    → IsEncoded t
    → All (λ e. Accepts q (substr t.vocabulary e)) t.words
all_words-accepted t q h =
    All-weaken _ _ t.words (λ e (x, r, l, _). (x, r, accepts_all_non_empty-accepted q x h l))
