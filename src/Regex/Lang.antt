-- ===== src/Regex/Lang.antt =====
-- Sets of words as texts, their algebra, and the words that a regex query accepts.
use netspeak4_application_ng.Prelude.{
  ℕ, ◌≤◌, ◌≡◌, refl, sym, ap, subst, ◌∙◌, ◌↔◌, ◌⊎◌, List, [], ◌∷◌, ◌++◌, append-nil, append_assoc,
  length, Any, Text, reverse,
}
use mathlib.Core.List.{reverse-append}
use netspeak4_application_ng.Regex.Query.{
  RegexUnit, qmark, star, word, char_set, optional_word, RegexQuery,
}

abbrev pub TextLang : Type 1
TextLang = Text → Type 0

-- Only the empty word; the words of at least `n` characters; concatenation.
abbrev pub ε : TextLang
ε w = w ≡ []

abbrev pub LongerThan : ℕ → TextLang
LongerThan n w = n ≤ length w

infixr 60 ◌⊙◌
abbrev pub ◌⊙◌ : TextLang → TextLang → TextLang
(L ⊙ K) w = (a : Text) × (b : Text) × (w ≡ a ++ b) × L a × K b

abbrev pub Equal : TextLang → TextLang → Type 0
Equal L K = (w : Text) → L w ↔ K w

-- The words that a unit, a sequence of units and a query accept.
abbrev pub OneOf : Text → ℕ → Type 0
OneOf cs c = Any (λ d. c ≡ d) cs

abbrev pub UnitLang : RegexUnit → TextLang
UnitLang qmark w = (c : ℕ) × (w ≡ c ∷ [])
UnitLang star w = Unit
UnitLang (word t) w = w ≡ t
UnitLang (char_set cs) w = (c : ℕ) × (w ≡ c ∷ []) × OneOf cs c
UnitLang (optional_word t) w = (w ≡ []) ⊎ (w ≡ t)

abbrev pub UnitsLang : List RegexUnit → TextLang
UnitsLang [] = ε
UnitsLang (u ∷ us) = UnitLang u ⊙ UnitsLang us

abbrev pub RegexLang : RegexQuery → TextLang
RegexLang q = UnitsLang q.units

pub Equal-refl : (L : TextLang) → Equal L L
Equal-refl L w = (λ x. x, λ x. x)

pub Equal-sym : {L K : TextLang} → Equal L K → Equal K L
Equal-sym e w = ((e w).1, (e w).0)

pub Equal-trans : {L K M : TextLang} → Equal L K → Equal K M → Equal L M
Equal-trans e f w = (λ x. (f w).0 ((e w).0 x), λ x. (e w).1 ((f w).1 x))

pub ⊙_cong : {L L' K K' : TextLang} → Equal L L' → Equal K K' → Equal (L ⊙ K) (L' ⊙ K')
⊙_cong e f w = (
  λ (a, b, q, x, y). (a, b, q, (e a).0 x, (f b).0 y),
  λ (a, b, q, x, y). (a, b, q, (e a).1 x, (f b).1 y),
)

pub ⊙_assoc : (L K M : TextLang) → Equal ((L ⊙ K) ⊙ M) (L ⊙ K ⊙ M)
⊙_assoc L K M w = (
  λ (ab, c, q, (a, b, r, x, y), z).
      (a, b ++ c, q ∙ ap (λ t. t ++ c) r ∙ append_assoc a b c, x, (b, c, refl, y, z)),
  λ (a, bc, q, x, (b, c, r, y, z)).
      (a ++ b, c, q ∙ ap (λ t. a ++ t) r ∙ sym (append_assoc a b c), (a, b, refl, x, y), z),
)

pub ε_⊙ : (L : TextLang) → Equal (ε ⊙ L) L
ε_⊙ L w = (λ (a, b, q, e, x). subst L (sym (q ∙ ap (λ t. t ++ b) e)) x, λ x. ([], w, refl, refl, x))

pub ⊙_ε : (L : TextLang) → Equal (L ⊙ ε) L
⊙_ε L w = (
  λ (a, b, q, x, e). subst L (sym (q ∙ ap (λ t. a ++ t) e ∙ append-nil a)) x,
  λ x. (w, [], sym (append-nil w), x, refl),
)

pub none_⊙ : (L : TextLang) → Equal ((λ _. ⊥) ⊙ L) (λ _. ⊥)
none_⊙ L w = (λ (a, b, q, z, x). z, λ z. absurd z)

pub ⊙_none : (L : TextLang) → Equal (L ⊙ (λ _. ⊥)) (λ _. ⊥)
⊙_none L w = (λ (a, b, q, x, z). z, λ z. absurd z)

pub UnitsLang-single : (u : RegexUnit) → Equal (UnitsLang (u ∷ [])) (UnitLang u)
UnitsLang-single u = ⊙_ε (UnitLang u)

pub UnitsLang-append :
    (us vs : List RegexUnit) → Equal (UnitsLang (us ++ vs)) (UnitsLang us ⊙ UnitsLang vs)
UnitsLang-append [] vs = Equal-sym (ε_⊙ (UnitsLang vs))
UnitsLang-append (u ∷ us) vs =
    Equal-trans (⊙_cong (Equal-refl (UnitLang u)) (UnitsLang-append us vs))
      (Equal-sym (⊙_assoc (UnitLang u) (UnitsLang us) (UnitsLang vs)))

-- The units from the last to the first.
abbrev pub BackLang : List RegexUnit → TextLang
BackLang [] = ε
BackLang (u ∷ us) = BackLang us ⊙ UnitLang u

pub UnitsLang-reverse : (us : List RegexUnit) → Equal (UnitsLang (reverse us)) (BackLang us)
UnitsLang-reverse [] = Equal-refl ε
UnitsLang-reverse (u ∷ us) = rw (reverse-append (u ∷ []) us) (
    Equal-trans (UnitsLang-append (reverse us) (u ∷ []))
      (⊙_cong (UnitsLang-reverse us) (UnitsLang-single u)))
