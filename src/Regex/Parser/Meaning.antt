-- ===== src/Regex/Parser/Meaning.antt =====
-- Every text is read as a sequence of parts, and its query accepts what the parts stand for.
use netspeak4_application_ng.Prelude.{
  ℕ, zero, suc, ◌≤◌, ◌≡◌, ◌≢◌, refl, sym, ap, subst, inl, inr, List, [], ◌∷◌, ◌++◌, arith, length,
  length-append, replicate, Text, ◌==◌, Bool-cases, ==_iff,
}
use netspeak4_application_ng.Regex.Lang.{Equal, RegexLang, Equal-trans}
use netspeak4_application_ng.Regex.Builder.{empty_builder, to_query, add_all}
use netspeak4_application_ng.Regex.Builder.Meaning.{add_all-Equal}
use netspeak4_application_ng.Regex.Parser.{leading_dots, parse_from, parse_netspeak_regex_query}
use netspeak4_application_ng.Regex.Parser.Grammar.{Part, PartsLang, Reads, nothing}
use netspeak4_application_ng.Regex.Parser.Parts.{all_units, all_units-Equal}
use netspeak4_application_ng.Regex.Parser.Added.{
  IsRead, question_mark-IsRead, asterisk-IsRead, plus-IsRead, plain-IsRead, after_dots,
}
use netspeak4_application_ng.Regex.Parser.Steps.{
  read_until_char_cases, bracket-IsRead, brace-IsRead, bracket_open-IsRead, brace_open-IsRead,
  dot-IsRead, dots-IsRead,
}

-- Any character before a text, when every text that is not longer is read.
module _ (s : Text) (ih : (u : Text) → length u ≤ length s → IsRead u) where
  shorter : (t : Text) (e : ℕ) (u : Text) → s ≡ t ++ e ∷ u → IsRead u
  shorter t e u q = ih u (omega (arith, ap length q, length-append t (e ∷ u)))

  any_bracket-IsRead : IsRead (b'[' ∷ s)
  any_bracket-IsRead = elim (read_until_char_cases s b']') [
    | inl (t, u, q, l, f) ↦ bracket-IsRead s t u q l f (shorter t b']' u q)
    | inr (l, f) ↦ bracket_open-IsRead s l f (ih s (omega arith))
  ]

  any_brace-IsRead : IsRead (b'{' ∷ s)
  any_brace-IsRead = elim (read_until_char_cases s b'}') [
    | inl (t, u, q, l, f) ↦ brace-IsRead s t u q l f (shorter t b'}' u q)
    | inr (l, f) ↦ brace_open-IsRead s l f (ih s (omega arith))
  ]

any_dot-IsRead : (s : Text) → ((u : Text) → length u ≤ length s → IsRead u) → IsRead (b'.' ∷ s)
any_dot-IsRead [] ih = dot-IsRead [] tt (ih [] (omega arith))
any_dot-IsRead (c ∷ s) ih = elim (Bool-cases (c == b'.')) [
  | inl e ↦
      let (t, q, w) = after_dots s in
      subst (λ d. IsRead (b'.' ∷ d ∷ s)) (sym ((==_iff c b'.').0 e))
        (dots-IsRead s t q w
          (ih t (omega (arith, ap length q, length-append (replicate (leading_dots s) b'.') t))))
  | inr e ↦ dot-IsRead (c ∷ s) (ground arith) (ih (c ∷ s) (omega arith))
]

cons-IsRead : (c : ℕ) (s : Text) → ((u : Text) → length u ≤ length s → IsRead u) → IsRead (c ∷ s)
cons-IsRead c s ih = either b'?' (question_mark-IsRead s now) λ n₁.
    either b'*' (asterisk-IsRead s now) λ n₂. either b'+' (plus-IsRead s now) λ n₃.
      either b'.' (any_dot-IsRead s ih) λ n₄. either b'[' (any_bracket-IsRead s ih) λ n₅.
        either b'{' (any_brace-IsRead s ih) λ n₆. plain-IsRead s c (n₁, n₂, n₃, n₄, n₅, n₆) now
  where
    now : IsRead s
    now = ih s (omega arith)

    either : (d : ℕ) → IsRead (d ∷ s) → (c ≢ d → IsRead (c ∷ s)) → IsRead (c ∷ s)
    either d special other = elim (Bool-cases (c == d)) [
      | inl e ↦ subst (λ k. IsRead (k ∷ s)) (sym ((==_iff c d).0 e)) special
      | inr e ↦ other (ground arith)
    ]

short-IsRead : (n : ℕ) (s : Text) → length s ≤ n → IsRead s
short-IsRead n [] h =
    ([], nothing, λ b. (unfold parse_from in unfold all_units in unfold add_all in refl))
short-IsRead zero (c ∷ s) h = absurd (omega arith)
short-IsRead (suc n) (c ∷ s) h = cons-IsRead c s (λ u k. short-IsRead n u (omega arith))

-- Every text is read as a sequence of parts such that the query that the parser makes of the text
-- accepts exactly the words that the parts stand for.
pub parse_netspeak_regex_query-Equal :
    (s : Text)
    → (ps : List Part) × Reads s ps
      × Equal (RegexLang (parse_netspeak_regex_query s)) (PartsLang ps)
unfolding parse_netspeak_regex_query
parse_netspeak_regex_query-Equal s =
    let (ps, r, h) = short-IsRead (length s) s (omega arith) in
    (
      ps,
      r,
      subst (λ b. Equal (RegexLang (to_query b)) (PartsLang ps)) (sym (h empty_builder))
          (Equal-trans (add_all-Equal (all_units ps)) (all_units-Equal ps)),
    )
