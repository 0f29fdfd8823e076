-- ===== src/Regex/Parser/Added.antt =====
-- What the parser reads ahead, and the rounds of parts without brackets.
use netspeak4_application_ng.Prelude.{
  ℕ, zero, suc, ◌+◌, ◌≡◌, refl, ap, subst, ◌∙◌, inl, inr, List, [], ◌∷◌, ◌++◌, arith, length,
  replicate, Text, ◌==◌, Bool-cases, ==_iff,
}
use netspeak4_application_ng.Regex.Query.{RegexUnit, qmark, star, word}
use netspeak4_application_ng.Regex.Builder.{RegexQueryBuilder, add, add_all}
use netspeak4_application_ng.Regex.Parser.{leading_dots, add_repeated, read_char, parse_from}
use netspeak4_application_ng.Regex.Parser.Grammar.{
  Part, literal, any_char, any_text, some_text, IsPlain, StartsWithout, Reads, question_mark,
  asterisk, plus, plain,
}
use netspeak4_application_ng.Regex.Parser.Parts.{all_units, units_of}

-- The text is read as parts, and the loop adds their units.
abbrev pub IsRead : Text → Type 0
IsRead s =
    (ps : List Part) × Reads s ps
    × ((b : RegexQueryBuilder) → parse_from b 0 s ≡ add_all b (all_units ps))

pub add_all-append :
    (b : RegexQueryBuilder) (us vs : List RegexUnit)
    → add_all b (us ++ vs) ≡ add_all (add_all b us) vs
unfolding add_all
add_all-append b [] vs = refl
add_all-append b (u ∷ us) vs = add_all-append (add b u) us vs

pub add_repeated-eq :
    (n : ℕ) (b : RegexQueryBuilder) (u : RegexUnit) → add_repeated n b u ≡ add_all b (replicate n u)
unfolding add_all add_repeated
add_repeated-eq zero b u = refl
add_repeated-eq (suc n) b u = add_repeated-eq n (add b u) u

-- The iterator passes over what was read ahead.
skip_rest :
    (b : RegexQueryBuilder) (t : Text) (d : ℕ) (s : Text)
    → parse_from b (suc (length t)) (t ++ d ∷ s) ≡ parse_from b 0 s
unfolding parse_from
skip_rest b [] d s = refl
skip_rest b (c ∷ t) d s = skip_rest b t d s

pub skip_close :
    (b : RegexQueryBuilder) (t : Text) (d : ℕ) (s : Text)
    → parse_from b (length t + 1) (t ++ d ∷ s) ≡ parse_from b 0 s
skip_close b t d s =
    subst (λ n. parse_from b n (t ++ d ∷ s) ≡ parse_from b 0 s) (omega arith) (skip_rest b t d s)

pub skip_dots :
    (b : RegexQueryBuilder) (n : ℕ) (s : Text)
    → parse_from b n (replicate n b'.' ++ s) ≡ parse_from b 0 s
unfolding parse_from
skip_dots b zero s = refl
skip_dots b (suc n) s = skip_dots b n s

module _ (s : Text) where
  pub question_mark-IsRead : IsRead s → IsRead (b'?' ∷ s)
  unfolding parse_from read_char all_units units_of add_all
  question_mark-IsRead (ps, r, h) = (any_char ∷ ps, question_mark r, λ b. h (add b qmark))

  pub asterisk-IsRead : IsRead s → IsRead (b'*' ∷ s)
  unfolding parse_from read_char all_units units_of add_all
  asterisk-IsRead (ps, r, h) = (any_text ∷ ps, asterisk r, λ b. h (add b star))

  pub plus-IsRead : IsRead s → IsRead (b'+' ∷ s)
  unfolding parse_from read_char all_units units_of add_all
  plus-IsRead (ps, r, h) = (some_text ∷ ps, plus r, λ b. h (add (add b qmark) star))

  pub plain-IsRead : (c : ℕ) → IsPlain c → IsRead s → IsRead (c ∷ s)
  unfolding parse_from all_units units_of add_all
  plain-IsRead c p (ps, r, h) =
      (literal c ∷ ps, plain c p r, λ b. step b ∙ h (add b (word (c ∷ []))))
    where
      as_word : (b : RegexQueryBuilder) → read_char b c s ≡ (add b (word (c ∷ [])), 0)
      as_word b = unfold read_char in (ground arith)

      step :
          (b : RegexQueryBuilder) → parse_from b 0 (c ∷ s) ≡ parse_from (add b (word (c ∷ []))) 0 s
      step b = rw (as_word b) refl

-- What follows dots.
pub after_dots :
    (s : Text) → (t : Text) × (s ≡ replicate (leading_dots s) b'.' ++ t) × StartsWithout b'.' t
unfolding leading_dots
after_dots [] = ([], refl, tt)
after_dots (c ∷ s) = elim (Bool-cases (c == b'.')) [
  | inl e ↦
      let (t, q, h) = after_dots s in
      rw e (
        t,
        ap (◌∷◌ c) q ∙ ap (λ d. d ∷ replicate (leading_dots s) b'.' ++ t) ((==_iff c b'.').0 e),
        h,
      )
  | inr e ↦ rw e (c ∷ s, refl, ground arith)
]
