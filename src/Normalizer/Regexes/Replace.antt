-- ===== src/Normalizer/Regexes/Replace.antt =====
-- What `normalize_regexes` makes of a simple query.
use netspeak4_application_ng.Prelude.{
  ◌%◌, u32_mod, ℕ, ◌≡◌, refl, inl, inr, List, [], ◌∷◌, ◌++◌, map, arith, All, Text, Phrase, true,
  Bool-cases, some, Result, ok, throw, invalid_query_error, ◌==◌,
}
use netspeak4_application_ng.Language.{OneWord}
use netspeak4_application_ng.Model.NormQuery.{Source}
use netspeak4_application_ng.Model.SimpleQuery.{
  SimpleQueryUnit, Children, word, qmark, star, regex, concat, alternation, nil, cons, from_list,
  SimpleLang, ConcatLang, AlternationLang, HasNoRegex, HaveNoRegex,
}
use netspeak4_application_ng.Normalizer.StarQuery.{Options}
use netspeak4_application_ng.Normalizer.Regexes.{
  find_regexes, find_regexes_of, replace_regexes, replace_regexes_of, RegexIndex, best_max_matches,
  is_none, normalize_regexes,
}

HaveNoRegex-words : (s : Source) (ws : List Text) → HaveNoRegex (from_list (map (λ w. word w s) ws))
unfolding from_list
HaveNoRegex-words s [] = tt
HaveNoRegex-words s (w ∷ ws) = (tt, HaveNoRegex-words s ws)

mutual
  unfolding replace_regexes

  replace_regexes-HasNoRegex :
      (words : Text → List Text) (u : SimpleQueryUnit) → HasNoRegex (replace_regexes words u)
  replace_regexes-HasNoRegex words (regex t s) = HaveNoRegex-words s (words t)
  replace_regexes-HasNoRegex words (alternation s us) = replace_regexes_of-HaveNoRegex words us
  replace_regexes-HasNoRegex words (concat s us) = replace_regexes_of-HaveNoRegex words us
  replace_regexes-HasNoRegex words (word t s) = tt
  replace_regexes-HasNoRegex words (qmark s) = tt
  replace_regexes-HasNoRegex words (star s) = tt

  replace_regexes_of-HaveNoRegex :
      (words : Text → List Text) (us : Children) → HaveNoRegex (replace_regexes_of words us)
  replace_regexes_of-HaveNoRegex words nil = tt
  replace_regexes_of-HaveNoRegex words (cons u us) =
      (replace_regexes-HasNoRegex words u, replace_regexes_of-HaveNoRegex words us)

append-nil_parts : (xs ys : List Text) → xs ++ ys ≡ [] → (xs ≡ []) × (ys ≡ [])
append-nil_parts [] ys e = (refl, e)
append-nil_parts (x ∷ xs) ys e = ground arith

mutual
  unfolding find_regexes

  find_regexes-HasNoRegex : (u : SimpleQueryUnit) → find_regexes u ≡ [] → HasNoRegex u
  find_regexes-HasNoRegex (regex t s) e = ground arith
  find_regexes-HasNoRegex (alternation s us) e = find_regexes_of-HaveNoRegex us e
  find_regexes-HasNoRegex (concat s us) e = find_regexes_of-HaveNoRegex us e
  find_regexes-HasNoRegex (word t s) e = tt
  find_regexes-HasNoRegex (qmark s) e = tt
  find_regexes-HasNoRegex (star s) e = tt

  find_regexes_of-HaveNoRegex : (us : Children) → find_regexes_of us ≡ [] → HaveNoRegex us
  find_regexes_of-HaveNoRegex nil e = tt
  find_regexes_of-HaveNoRegex (cons u us) e =
      let (head, tail) = append-nil_parts (find_regexes u) (find_regexes_of us) e in
      (find_regexes-HasNoRegex u head, find_regexes_of-HaveNoRegex us tail)

is_none_sound : (ts : List Text) → is_none ts ≡ true → ts ≡ []
unfolding is_none
is_none_sound [] e = refl
is_none_sound (t ∷ ts) e = ground arith

module _ (matches : Text → Text → Type 0) where
  words-sound :
      (t : Text) (s : Source) (ws : List Text) (p : Phrase)
      → All (matches t) ws
      → AlternationLang matches (from_list (map (λ w. word w s) ws)) p
      → OneWord (matches t) p
  unfolding from_list
  words-sound t s [] p h x = absurd x
  words-sound t s (w ∷ ws) p (h, hs) (inl (v, e, same)) = (v, e, rw same h)
  words-sound t s (w ∷ ws) p (h, hs) (inr x) = words-sound t s ws p hs x

  module _ (words : Text → List Text) (found : (t : Text) → All (matches t) (words t)) where
    mutual
      unfolding replace_regexes

      replace_regexes-sound :
          (u : SimpleQueryUnit) (p : Phrase)
          → SimpleLang matches (replace_regexes words u) p
          → SimpleLang matches u p
      replace_regexes-sound (regex t s) p x = words-sound t s (words t) p (found t) x
      replace_regexes-sound (alternation s us) p x = replace_alternation-sound us p x
      replace_regexes-sound (concat s us) p x = replace_concat-sound us p x
      replace_regexes-sound (word t s) p x = x
      replace_regexes-sound (qmark s) p x = x
      replace_regexes-sound (star s) p x = x

      replace_concat-sound :
          (us : Children) (p : Phrase)
          → ConcatLang matches (replace_regexes_of words us) p
          → ConcatLang matches us p
      replace_concat-sound nil p x = x
      replace_concat-sound (cons u us) p (a, b, e, x, y) =
          (a, b, e, replace_regexes-sound u a x, replace_concat-sound us b y)

      replace_alternation-sound :
          (us : Children) (p : Phrase)
          → AlternationLang matches (replace_regexes_of words us) p
          → AlternationLang matches us p
      replace_alternation-sound nil p x = x
      replace_alternation-sound (cons u us) p (inl x) = inl (replace_regexes-sound u p x)
      replace_alternation-sound (cons u us) p (inr y) = inr (replace_alternation-sound us p y)

  -- No regular expression is left, and nothing is accepted that was not; or the query is refused.
  abbrev pub Replaced : SimpleQueryUnit → Result SimpleQueryUnit → Type 0
  Replaced root (ok r) =
      HasNoRegex r × ((p : Phrase) → SimpleLang matches r p → SimpleLang matches root p)
  Replaced root (throw e) = e ≡ invalid_query_error

  -- With an index that finds matching words only, `normalize_regexes` gives a query without regular
  -- expressions that accepts only phrases that the query accepts, or throws `invalid_query_error`.
  pub normalize_regexes-Replaced :
      (o : Options) (index : RegexIndex) (root : SimpleQueryUnit)
      → ((t : Text) (n time : ℕ) → All (matches t) (index.match_query t n time))
      → Replaced root (normalize_regexes o (some index) root)
  unfolding normalize_regexes
  normalize_regexes-Replaced o index root found =
      let best = best_max_matches o root in
      elim (Bool-cases (is_none (find_regexes root))) [
        | inl e ↦
            rw e (find_regexes-HasNoRegex root (is_none_sound (find_regexes root) e), λ p x. x)
        | inr e ↦ rw e (elim (Bool-cases (best == 0)) [
          | inl z ↦ rw z refl
          | inr z ↦
              let words : Text → List Text =
                λ t. index.match_query t (best % u32_mod) o.max_regex_time in
              rw z (
                replace_regexes-HasNoRegex words root,
                replace_regexes-sound words (λ t. found t (best % u32_mod) o.max_regex_time) root,
              )
        ])
      ]
