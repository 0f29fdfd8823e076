-- ===== src/Regex/Builder/Join.antt =====
-- What the units of a builder accept, and that joining another one keeps it.
use netspeak4_application_ng.Prelude.{
  ℕ, zero, suc, ◌+◌, ◌≤◌, ◌≡◌, refl, sym, ap, subst, ◌∙◌, inl, inr, List, [], ◌∷◌, ◌++◌, arith,
  append-nil, length, length-append, Text, if◌then◌else◌, ◌==◌, false,
}
use netspeak4_application_ng.Regex.Query.{RegexUnit, qmark, star, word, char_set, optional_word}
use netspeak4_application_ng.Regex.Lang.{
  TextLang, LongerThan, ◌⊙◌, Equal, UnitLang, BackLang, Equal-refl, Equal-sym, Equal-trans, ⊙_cong,
  ⊙_assoc,
}
use netspeak4_application_ng.Regex.Builder.{
  pop_trailing, push_qmarks, remove_trailing_optional_words, join, add_to_units,
}

-- What the units of a builder accept, followed by a unit.
abbrev Then : List RegexUnit → RegexUnit → TextLang
Then us u = BackLang us ⊙ UnitLang u

qmark_longer : (n : ℕ) → Equal (UnitLang qmark ⊙ LongerThan n) (LongerThan (suc n))
qmark_longer n w = (
  λ (a, b, q, (c, e), h). omega (arith, ap length q, length-append a b, ap length e),
  λ h. front w h,
)
  where
    front : (v : Text) → suc n ≤ length v → (UnitLang qmark ⊙ LongerThan n) v
    front [] h = absurd (omega arith)
    front (c ∷ v) h = (c ∷ [], v, refl, (c, refl), omega arith)

-- A word that may be left out before enough free characters.
optional_longer :
    (t : Text) (n : ℕ) → Equal (UnitLang (optional_word t) ⊙ LongerThan n) (LongerThan n)
optional_longer t n w = (
  λ (a, b, q, o, h). omega (arith, ap length q, length-append a b),
  λ h. ([], w, refl, inl refl, h),
)

push_qmarks-longer :
    (us : List RegexUnit) (k n : ℕ)
    → Equal (BackLang (push_qmarks (us, k)) ⊙ LongerThan n) (BackLang us ⊙ LongerThan (k + n))
unfolding push_qmarks
push_qmarks-longer us zero n = rw (zero_add n) (Equal-refl _)
  where
    zero_add : (m : ℕ) → 0 + m ≡ m
    zero_add m = omega arith
push_qmarks-longer us (suc k) n =
    Equal-trans (⊙_assoc (BackLang (push_qmarks (us, k))) (UnitLang qmark) (LongerThan n)) (
      Equal-trans (⊙_cong (Equal-refl (BackLang (push_qmarks (us, k)))) (qmark_longer n)) (
        subst
          (λ m.
            Equal (BackLang (push_qmarks (us, k)) ⊙ LongerThan (suc n))
              (BackLang us ⊙ LongerThan m))
          (shift k n) (push_qmarks-longer us k (suc n))))
  where
    shift : (i j : ℕ) → i + suc j ≡ suc i + j
    shift i j = omega arith

pushed-longer :
    (us : List RegexUnit) (k : ℕ)
    → Equal (BackLang (push_qmarks (us, k)) ⊙ LongerThan 0) (BackLang us ⊙ LongerThan k)
pushed-longer us k =
    subst (λ n. Equal (BackLang (push_qmarks (us, k)) ⊙ LongerThan 0) (BackLang us ⊙ LongerThan n))
      (omega arith) (push_qmarks-longer us k 0)

pop_trailing-longer :
    (k : ℕ) (us : List RegexUnit)
    → Equal (BackLang (push_qmarks (pop_trailing k us)) ⊙ LongerThan 0) (BackLang us ⊙ LongerThan k)
unfolding pop_trailing
pop_trailing-longer k [] = pushed-longer [] k
pop_trailing-longer k (qmark ∷ us) = Equal-trans (pop_trailing-longer (suc k) us) (
    Equal-trans (⊙_cong (Equal-refl (BackLang us)) (Equal-sym (qmark_longer k)))
      (Equal-sym (⊙_assoc (BackLang us) (UnitLang qmark) (LongerThan k))))
pop_trailing-longer k (optional_word t ∷ us) = Equal-trans (pop_trailing-longer k us) (
    Equal-trans (⊙_cong (Equal-refl (BackLang us)) (Equal-sym (optional_longer t k)))
      (Equal-sym (⊙_assoc (BackLang us) (UnitLang (optional_word t)) (LongerThan k))))
pop_trailing-longer k (star ∷ us) = pushed-longer (star ∷ us) k
pop_trailing-longer k (word t ∷ us) = pushed-longer (word t ∷ us) k
pop_trailing-longer k (char_set t ∷ us) = pushed-longer (char_set t ∷ us) k

star_longer : Equal (UnitLang star) (LongerThan 0)
star_longer w = (λ _. omega arith, λ _. tt)

-- Rules 6 and 3: optional words and question marks before a star.
remove_trailing-star :
    (us : List RegexUnit)
    → Equal
        (BackLang (remove_trailing_optional_words us) ⊙ UnitLang star)
        (BackLang us ⊙ UnitLang star)
unfolding remove_trailing_optional_words
remove_trailing-star us =
    Equal-trans (⊙_cong (Equal-refl _) star_longer)
      (Equal-trans (pop_trailing-longer 0 us) (⊙_cong (Equal-refl _) (Equal-sym star_longer)))

word-append :
    (s t : Text) → Equal (UnitLang (word (s ++ t))) (UnitLang (word s) ⊙ UnitLang (word t))
word-append s t w =
    (λ e. (s, t, e, refl, refl), λ (a, b, q, e, f). q ∙ ap (λ v. v ++ b) e ∙ ap (λ v. s ++ v) f)

-- Whatever accepts the empty word is absorbed by a star before it.
star-absorbs : (L : TextLang) → L [] → Equal (UnitLang star) (UnitLang star ⊙ L)
star-absorbs L h w = (λ _. (w, [], sym (append-nil w), tt, h), λ _. tt)

last_of : (c : ℕ) (v : Text) → (UnitLang star ⊙ UnitLang qmark) (c ∷ v)
last_of c [] = ([], c ∷ [], refl, tt, (c, refl))
last_of c (d ∷ v) = let (a, b, q, _, x) = last_of d v in (c ∷ a, b, ap (◌∷◌ c) q, tt, x)

qmark-star : Equal (UnitLang qmark ⊙ UnitLang star) (UnitLang star ⊙ UnitLang qmark)
qmark-star w = (
  λ (a, b, q, (c, e), _).
      subst (UnitLang star ⊙ UnitLang qmark) (sym (q ∙ ap (λ v. v ++ b) e)) (last_of c b),
  λ (a, b, q, _, (c, e)). first a b c q e,
)
  where
    first : (a b : Text) (c : ℕ) → w ≡ a ++ b → b ≡ c ∷ [] → (UnitLang qmark ⊙ UnitLang star) w
    first [] b c q e = (c ∷ [], [], q ∙ e, (c, refl), tt)
    first (d ∷ a) b c q e = (d ∷ [], a ++ b, q, (d, refl), tt)

join-Equal :
    (prev : RegexUnit) (us : List RegexUnit) (u : RegexUnit)
    → Equal (BackLang (join prev us u)) (BackLang (prev ∷ us) ⊙ UnitLang u)
unfolding join
join-Equal (word s) us (word t) =
    Equal-trans (⊙_cong (Equal-refl (BackLang us)) (word-append s t))
      (Equal-sym (⊙_assoc (BackLang us) (UnitLang (word s)) (UnitLang (word t))))
join-Equal star us qmark = Equal-trans (⊙_assoc (BackLang us) (UnitLang qmark) (UnitLang star)) (
    Equal-trans (⊙_cong (Equal-refl (BackLang us)) qmark-star)
      (Equal-sym (⊙_assoc (BackLang us) (UnitLang star) (UnitLang qmark))))
join-Equal star us star =
    Equal-trans (⊙_cong (Equal-refl (BackLang us)) (star-absorbs (UnitLang star) tt))
      (Equal-sym (⊙_assoc (BackLang us) (UnitLang star) (UnitLang star)))
join-Equal star us (optional_word t) =
    Equal-trans
      (⊙_cong (Equal-refl (BackLang us)) (star-absorbs (UnitLang (optional_word t)) (inl refl)))
      (Equal-sym (⊙_assoc (BackLang us) (UnitLang star) (UnitLang (optional_word t))))
join-Equal (optional_word s) us star = remove_trailing-star (optional_word s ∷ us)
join-Equal qmark us star = remove_trailing-star (qmark ∷ us)
join-Equal prev us u = Equal-refl _

pub add_to_units-Equal :
    (us : List RegexUnit) (u : RegexUnit)
    → Equal (BackLang (add_to_units us u)) (BackLang us ⊙ UnitLang u)
unfolding add_to_units
add_to_units-Equal [] u = Equal-refl _
add_to_units-Equal (prev ∷ us) u = join-Equal prev us u

pub as_word :
    (set : Text)
    → Equal
        (UnitLang (if length set == 1 then word set else char_set set))
        (UnitLang (char_set set))
as_word [] = Equal-refl _
as_word (c ∷ []) = λ w. (
  λ e. (c, e, inl refl),
  λ (d, e, o). elim o [ inl same ↦ e ∙ ap (λ x. x ∷ []) same | inr z ↦ absurd z ],
)
as_word (c ∷ d ∷ set) = rw (two set) (Equal-refl _)
  where
    two : (t : Text) → (suc (suc (length t)) == 1) ≡ false
    two t = ground arith
