-- ===== src/Regex/Index/Sound.antt =====
-- DefaultRegexIndex::match_query gives words of the vocabulary that the query accepts.
use netspeak4_application_ng.Prelude.{
  ℕ, ◌-◌, ◌%◌, ◌≤◌, ◌≡◌, refl, inl, inr, List, [], arith, length, All, Text, Bool-cases, ◌==◌, ltb,
  u32_mod, min, ok,
}
use netspeak4_application_ng.Regex.Query.{
  RegexQuery, accepts_all_non_empty, rejects_all, combinations_upper_bound,
}
use netspeak4_application_ng.Regex.Index.{DefaultRegexIndex}
use netspeak4_application_ng.Regex.Index.Matching.{
  optimize_query, Environment, match_words, match_query_regex, first_words, match_query,
}
use netspeak4_application_ng.Regex.Index.Lookup.{Finds, Gives}
use netspeak4_application_ng.Regex.Index.Finite.{IsMatch, Within, match_query_hash_lookup-Within}
use netspeak4_application_ng.Regex.Index.Pattern.{perl_units}
use netspeak4_application_ng.Regex.Index.Reading.{IsUnicode}
use netspeak4_application_ng.Regex.Index.Aligned.{FollowsSyntax}
use netspeak4_application_ng.Regex.Index.Scan.{
  IsEncoded, words-MatchesAccepted, all_words-accepted, first_words-Within, match_words-Within,
  words-InVocabulary,
}

Within-mono : (P : Text → Type 0) (n k : ℕ) (ms : List Text) → n ≤ k → Within P n ms → Within P k ms
Within-mono P n k ms h (a, l) = (a, omega arith)

match_query-Within :
    (env : Environment) (t : DefaultRegexIndex) (q : RegexQuery) (max_matches : ℕ)
    → FollowsSyntax env (perl_units q.units)
    → All IsUnicode q.units
    → IsEncoded t
    → Finds t
    → Gives (Within (IsMatch t q) max_matches) (match_query env t q max_matches)
unfolding match_query match_query_regex
match_query-Within env t q n follows unicode encoded finds = elim (Bool-cases (n == 0)) [
  | inl a ↦ rw a ([], refl, (tt, omega arith))
  | inr a ↦ rw a (elim (Bool-cases (accepts_all_non_empty q)) [
    | inl b ↦ rw b (
      first_words t (min n (length t.words % u32_mod)) t.words,
      refl,
      Within-mono (IsMatch t q) (min n (length t.words % u32_mod)) n _ (omega arith) (
          first_words-Within t q (min n (length t.words % u32_mod)) t.words (words-InVocabulary t)
            (all_words-accepted t q b encoded)),
    )
    | inr b ↦ rw b (elim (Bool-cases (rejects_all q)) [
      | inl c ↦ rw c ([], refl, (tt, omega arith))
      | inr c ↦ rw c (elim (Bool-cases (ltb (combinations_upper_bound (optimize_query t q)) 1000)) [
        | inl d ↦ rw d (match_query_hash_lookup-Within t q n finds (ground arith))
        | inr d ↦ rw d (
          match_words env t q n 0 0 t.words,
          refl,
          Within-mono (IsMatch t q) (n - 0) n _ (omega arith) (
              match_words-Within env t q n 0 0 t.words
                (words-MatchesAccepted env t q follows unicode encoded) (words-InVocabulary t)
                (ground arith)),
        )
      ])
    ])
  ])
]

-- Where `regex_match` follows its documentation at the query's expression, and for a query of code
-- points without empty sets and an index whose words are encodings of code points, not empty, and
-- whose look-ups return: the search returns at most `max_matches` texts, and they are words of the
-- vocabulary and encodings of words that the query accepts. Of `regex_match` it is assumed that a
-- text that it matches, given a well-written expression as text, is one of those the expression
-- stands for.
pub match_query-IsMatch :
    (env : Environment) (t : DefaultRegexIndex) (q : RegexQuery) (max_matches : ℕ)
    → FollowsSyntax env (perl_units q.units)
    → All IsUnicode q.units
    → IsEncoded t
    → Finds t
    → (ms : List Text) × (match_query env t q max_matches ≡ ok ms)
      × All (IsMatch t q) ms
      × (length ms ≤ max_matches)
match_query-IsMatch env t q max_matches follows unicode encoded finds =
    let (ms, e, (h, l)) = match_query-Within env t q max_matches follows unicode encoded finds in
    (ms, e, h, l)
