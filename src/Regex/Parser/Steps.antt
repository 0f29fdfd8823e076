-- ===== src/Regex/Parser/Steps.antt =====
-- A round of the parser of Netspeak regexes for parts in brackets and braces, and for dots.
use netspeak4_application_ng.Prelude.{
  ℕ, suc, ◌+◌, ◌≡◌, refl, sym, ap, subst, ◌∙◌, ◌⊎◌, inl, inr, none, some, [], ◌∷◌, ◌++◌, arith,
  length, replicate, Text, ◌==◌, if◌then◌else◌, Bool-cases, ==_iff,
}
use netspeak4_application_ng.Regex.Query.{RegexUnit, star, word, char_set, optional_word}
use netspeak4_application_ng.Regex.Builder.{RegexQueryBuilder, add, add_all}
use netspeak4_application_ng.Regex.Parser.{
  read_until_char, next_is_dot, leading_dots, read_dot, read_bracket, read_brace, read_char,
  parse_from,
}
use netspeak4_application_ng.Regex.Parser.Grammar.{
  literal, any_text, optional_char, one_of, some_order, Lacks, StartsWithout, Reads, dot, dots,
  bracket_one, bracket_many, bracket_open, brace, brace_open,
}
use netspeak4_application_ng.Regex.Parser.Parts.{all_units, units_of}
use netspeak4_application_ng.Regex.Parser.Added.{
  IsRead, add_all-append, add_repeated-eq, skip_close, skip_dots,
}

-- Where the closing character is found, and where it is not.
pub read_until_char_cases :
    (s : Text) (e : ℕ)
    → ((t : Text) × (u : Text) × (s ≡ t ++ e ∷ u) × Lacks e t × (read_until_char s e ≡ some t))
      ⊎ (Lacks e s × (read_until_char s e ≡ none))
unfolding read_until_char
read_until_char_cases [] e = inr (tt, refl)
read_until_char_cases (c ∷ s) e = elim (Bool-cases (c == e)) [
  | inl q ↦ inl ([], s, ap (λ d. d ∷ s) ((==_iff c e).0 q), tt, rw q refl)
  | inr q ↦ rw q (elim (read_until_char_cases s e) [
    | inl (t, u, r, h, f) ↦ inl (c ∷ t, u, ap (◌∷◌ c) r, (ground arith, h), rw f refl)
    | inr (h, f) ↦ inr ((ground arith, h), rw f refl)
  ])
]

abbrev bracket_unit : Text → RegexUnit
bracket_unit t = if length t == 1 then optional_word t else char_set t

module _ (s t u : Text) where
  bracket_step :
      (b : RegexQueryBuilder)
      → s ≡ t ++ b']' ∷ u
      → read_until_char s b']' ≡ some t
      → parse_from b 0 (b'[' ∷ s) ≡ parse_from (add b (bracket_unit t)) 0 u
  unfolding parse_from read_char read_bracket
  bracket_step b q f =
      rw (f, read_bracket)
        (ap (parse_from (add b (bracket_unit t)) (length t + 1)) q
          ∙ skip_close (add b (bracket_unit t)) t b']' u)

  brace_step :
      (b : RegexQueryBuilder)
      → s ≡ t ++ b'}' ∷ u
      → read_until_char s b'}' ≡ some t
      → parse_from b 0 (b'{' ∷ s) ≡ parse_from (add_all b (replicate (length t) (char_set t))) 0 u
  unfolding parse_from read_char read_brace
  brace_step b q f =
      rw (f, read_brace, add_repeated-eq (length t) b (char_set t))
        (ap (parse_from (add_all b (replicate (length t) (char_set t))) (length t + 1)) q
          ∙ skip_close (add_all b (replicate (length t) (char_set t))) t b'}' u)

pub bracket-IsRead :
    (s t u : Text)
    → s ≡ t ++ b']' ∷ u
    → Lacks b']' t
    → read_until_char s b']' ≡ some t
    → IsRead u
    → IsRead (b'[' ∷ s)
unfolding all_units units_of add_all
bracket-IsRead s [] u q l f (ps, r, h) = (
  one_of [] ∷ ps,
  bracket_many [] (ap (◌∷◌ b'[') q) l (omega arith) r,
  λ b. bracket_step s [] u b q f ∙ h (add b (char_set [])),
)
bracket-IsRead s (c ∷ []) u q l f (ps, r, h) = (
  optional_char c ∷ ps,
  subst (λ v. Reads (b'[' ∷ v) (optional_char c ∷ ps)) (sym q) (bracket_one c l.0 r),
  λ b. bracket_step s (c ∷ []) u b q f ∙ h (add b (optional_word (c ∷ []))),
)
bracket-IsRead s (c ∷ d ∷ t) u q l f (ps, r, h) = (
  one_of (c ∷ d ∷ t) ∷ ps,
  bracket_many (c ∷ d ∷ t) (ap (◌∷◌ b'[') q) l (omega arith) r,
  λ b.
      bracket_step s (c ∷ d ∷ t) u b q f
      ∙ ap (λ x. parse_from (add b x) 0 u) many
      ∙ h (add b (char_set (c ∷ d ∷ t))),
)
  where
    many : bracket_unit (c ∷ d ∷ t) ≡ char_set (c ∷ d ∷ t)
    many = ground arith

pub brace-IsRead :
    (s t u : Text)
    → s ≡ t ++ b'}' ∷ u
    → Lacks b'}' t
    → read_until_char s b'}' ≡ some t
    → IsRead u
    → IsRead (b'{' ∷ s)
unfolding all_units units_of
brace-IsRead s t u q l f (ps, r, h) = (
  some_order t ∷ ps,
  brace t (ap (◌∷◌ b'{') q) l r,
  λ b.
      brace_step s t u b q f
      ∙ h (add_all b (replicate (length t) (char_set t)))
      ∙ sym (add_all-append b (replicate (length t) (char_set t)) (all_units ps)),
)

-- A bracket or a brace that is not closed stands for itself.
open_step :
    (s : Text) (c : ℕ) (p : (b : RegexQueryBuilder) → read_char b c s ≡ (add b (word (c ∷ [])), 0))
    (b : RegexQueryBuilder)
    → parse_from b 0 (c ∷ s) ≡ parse_from (add b (word (c ∷ []))) 0 s
unfolding parse_from
open_step s c p b = rw (p b) refl

pub bracket_open-IsRead :
    (s : Text) → Lacks b']' s → read_until_char s b']' ≡ none → IsRead s → IsRead (b'[' ∷ s)
unfolding all_units units_of add_all
bracket_open-IsRead s l f (ps, r, h) = (
  literal b'[' ∷ ps,
  bracket_open l r,
  λ b. open_step s b'[' as_word b ∙ h (add b (word (b'[' ∷ []))),
)
  where
    as_word : (b : RegexQueryBuilder) → read_char b b'[' s ≡ (add b (word (b'[' ∷ [])), 0)
    as_word b = unfold read_char in unfold read_bracket in (rw (f, read_bracket) refl)

pub brace_open-IsRead :
    (s : Text) → Lacks b'}' s → read_until_char s b'}' ≡ none → IsRead s → IsRead (b'{' ∷ s)
unfolding all_units units_of add_all
brace_open-IsRead s l f (ps, r, h) = (
  literal b'{' ∷ ps,
  brace_open l r,
  λ b. open_step s b'{' as_word b ∙ h (add b (word (b'{' ∷ []))),
)
  where
    as_word : (b : RegexQueryBuilder) → read_char b b'{' s ≡ (add b (word (b'{' ∷ [])), 0)
    as_word b = unfold read_char in unfold read_brace in (rw (f, read_brace) refl)

pub dot-IsRead : (s : Text) → StartsWithout b'.' s → IsRead s → IsRead (b'.' ∷ s)
unfolding all_units units_of add_all
dot-IsRead s w (ps, r, h) = (
  literal b'.' ∷ ps,
  dot w r,
  λ b. open_step s b'.' (as_word s w) b ∙ h (add b (word (b'.' ∷ []))),
)
  where
    as_word :
        (v : Text)
        → StartsWithout b'.' v
        → (b : RegexQueryBuilder) → read_char b b'.' v ≡ (add b (word (b'.' ∷ [])), 0)
    as_word [] g b = unfold read_char in unfold read_dot in unfold next_is_dot in refl
    as_word (c ∷ v) g b =
        unfold read_char in unfold read_dot in unfold next_is_dot in (ground arith)

dots_step :
    (s : Text) (b : RegexQueryBuilder)
    → parse_from b 0 (b'.' ∷ b'.' ∷ s) ≡ parse_from (add b star) (suc (leading_dots s)) (b'.' ∷ s)
unfolding parse_from read_char read_dot next_is_dot leading_dots
dots_step s b = refl

pub dots-IsRead :
    (s t : Text)
    → s ≡ replicate (leading_dots s) b'.' ++ t
    → StartsWithout b'.' t
    → IsRead t
    → IsRead (b'.' ∷ b'.' ∷ s)
unfolding all_units units_of add_all
dots-IsRead s t q w (ps, r, h) = (
  any_text ∷ ps,
  dots (leading_dots s) (ap (λ v. b'.' ∷ b'.' ∷ v) q) w r,
  λ b. dots_step s b ∙ skip b ∙ h (add b star),
)
  where
    skip :
        (b : RegexQueryBuilder)
        → parse_from (add b star) (suc (leading_dots s)) (b'.' ∷ s) ≡ parse_from (add b star) 0 t
    skip b =
        ap (λ v. parse_from (add b star) (suc (leading_dots s)) (b'.' ∷ v)) q
        ∙ skip_dots (add b star) (suc (leading_dots s)) t
