-- ===== src/Regex/Parser/Parts.antt =====
-- The units that the parser makes of the parts of a Netspeak regex.
use netspeak4_application_ng.Prelude.{
  ℕ, zero, suc, ◌≤◌, ◌≡◌, refl, sym, ap, subst, ◌∙◌, List, [], ◌∷◌, ◌++◌, arith, length,
  length-append, replicate, Text, All, append-nil,
}
use netspeak4_application_ng.Regex.Query.{RegexUnit, qmark, star, word, char_set, optional_word}
use netspeak4_application_ng.Regex.Lang.{
  TextLang, ε, Equal, OneOf, UnitsLang, Equal-refl, Equal-trans, ⊙_cong, UnitsLang-single,
  UnitsLang-append,
}
use netspeak4_application_ng.Regex.Parser.Grammar.{
  Part, literal, any_char, any_text, some_text, optional_char, one_of, some_order, PartLang,
  PartsLang,
}

-- The units that the parser adds for a part.
unfoldable pub units_of : Part → List RegexUnit
units_of (literal c) = word (c ∷ []) ∷ []
units_of any_char = qmark ∷ []
units_of any_text = star ∷ []
units_of some_text = qmark ∷ star ∷ []
units_of (optional_char c) = optional_word (c ∷ []) ∷ []
units_of (one_of cs) = char_set cs ∷ []
units_of (some_order cs) = replicate (length cs) (char_set cs)

unfoldable pub all_units : List Part → List RegexUnit
all_units [] = []
all_units (p ∷ ps) = units_of p ++ all_units ps

one_char : (w : Text) → length w ≡ 1 → (c : ℕ) × (w ≡ c ∷ [])
one_char [] h = absurd (omega arith)
one_char (c ∷ []) h = (c, refl)
one_char (c ∷ d ∷ w) h = absurd (omega arith)

abbrev Ordered : ℕ → Text → TextLang
Ordered n cs w = (length w ≡ n) × All (OneOf cs) w

repeated-forth : (n : ℕ) (cs w : Text) → UnitsLang (replicate n (char_set cs)) w → Ordered n cs w
repeated-forth zero cs w e = subst (Ordered 0 cs) (sym e) (refl, tt)
repeated-forth (suc n) cs w (a, b, q, (c, e, o), y) =
    let (l, h) = repeated-forth n cs b y in
    subst (Ordered (suc n) cs) (sym (q ∙ ap (λ v. v ++ b) e)) (ap suc l, (o, h))

repeated-back : (n : ℕ) (cs w : Text) → Ordered n cs w → UnitsLang (replicate n (char_set cs)) w
repeated-back zero cs [] h = refl
repeated-back zero cs (c ∷ w) h = absurd (omega arith)
repeated-back (suc n) cs [] h = absurd (omega arith)
repeated-back (suc n) cs (c ∷ w) (l, (o, h)) =
    (c ∷ [], w, refl, (c, refl, o), repeated-back n cs w (omega arith, h))

some_text-Equal : Equal (UnitsLang (qmark ∷ star ∷ [])) (PartLang some_text)
some_text-Equal w =
    (λ (a, b, q, (c, e), y). omega (arith, ap length q, length-append a b, ap length e), back w)
  where
    back : (v : Text) → 1 ≤ length v → UnitsLang (qmark ∷ star ∷ []) v
    back [] h = absurd (omega arith)
    back (c ∷ v) h = (c ∷ [], v, refl, (c, refl), (v, [], sym (append-nil v), tt, refl))

units_of-Equal : (p : Part) → Equal (UnitsLang (units_of p)) (PartLang p)
unfolding units_of
units_of-Equal (literal c) = UnitsLang-single (word (c ∷ []))
units_of-Equal any_char =
    Equal-trans (UnitsLang-single qmark) λ w. (λ (c, e). ap length e, λ h. one_char w h)
units_of-Equal any_text = UnitsLang-single star
units_of-Equal some_text = some_text-Equal
units_of-Equal (optional_char c) = UnitsLang-single (optional_word (c ∷ []))
units_of-Equal (one_of cs) = UnitsLang-single (char_set cs)
units_of-Equal (some_order cs) =
    λ w. (repeated-forth (length cs) cs w, repeated-back (length cs) cs w)

pub all_units-Equal : (ps : List Part) → Equal (UnitsLang (all_units ps)) (PartsLang ps)
unfolding all_units
all_units-Equal [] = Equal-refl ε
all_units-Equal (p ∷ ps) =
    Equal-trans (UnitsLang-append (units_of p) (all_units ps))
      (⊙_cong (units_of-Equal p) (all_units-Equal ps))
