-- ===== src/Prelude/Tests.antt =====
-- Boolean tests on numbers and texts, the conditional, and the limits of the machine integers.
use Prim.Native.Nat.{ℕ, ◌≤◌, ◌<◌, compare, Ordering}
use mathlib.Core.Path.{◌≡◌, refl}
use mathlib.Core.Logic.{◌↔◌, ◌⊎◌, inl, inr}
use mathlib.Core.Bool.{Bool, true, false, ◌&&◌}
use mathlib.Core.List.{List, [], ◌∷◌}
use native.Mathlib.Omega.{arith}

abbrev pub ltb : ℕ → ℕ → Bool
ltb m n = elim (compare m n) [ Ordering.lt ↦ true | _ ↦ false ]

abbrev pub leb : ℕ → ℕ → Bool
leb m n = elim (compare m n) [ Ordering.gt ↦ false | _ ↦ true ]

infix 50 ◌==◌
abbrev pub ◌==◌ : ℕ → ℕ → Bool
m == n = elim (compare m n) [ Ordering.eq ↦ true | _ ↦ false ]

infix 1 if◌then◌else◌
abbrev pub if◌then◌else◌ {ℓ} : {A : Type ℓ} → Bool → A → A → A
if true then x else y = x
if false then x else y = y

pub ltb→lt : (m n : ℕ) → ltb m n ≡ true → m < n
ltb→lt m n h = ground arith

pub lt→ltb : (m n : ℕ) → m < n → ltb m n ≡ true
lt→ltb m n h = ground arith

pub le→ltb-false : (m n : ℕ) → n ≤ m → ltb m n ≡ false
le→ltb-false m n h = ground arith

pub leb→le : (m n : ℕ) → leb m n ≡ true → m ≤ n
leb→le m n h = ground arith

pub le→leb : (m n : ℕ) → m ≤ n → leb m n ≡ true
le→leb m n h = ground arith

pub ltb-false→le : (m n : ℕ) → ltb m n ≡ false → n ≤ m
ltb-false→le m n h = ground arith

pub ==_iff : (m n : ℕ) → ((m == n) ≡ true) ↔ (m ≡ n)
==_iff m n = ground arith

pub ==_of_eq : (m n : ℕ) → m ≡ n → (m == n) ≡ true
==_of_eq m n h = ground arith

pub ==-false_of_lt : (m n : ℕ) → m < n → (m == n) ≡ false
==-false_of_lt m n h = ground arith

-- A test split into its two outcomes, with the equation kept.
pub Bool-cases : (b : Bool) → (b ≡ true) ⊎ (b ≡ false)
Bool-cases true = inl refl
Bool-cases false = inr refl

-- A `std::string`: its bytes.
abbrev pub Text : Type 0
Text = List ℕ

-- A sequence of words, as a query matches it.
abbrev pub Phrase : Type 0
Phrase = List Text

pub &&_of_true : (a b : Bool) → (a && b) ≡ true → (a ≡ true) × (b ≡ true)
&&_of_true a b h = ground arith

-- `std::string::operator==`.
unfoldable pub text_eq : Text → Text → Bool
text_eq [] [] = true
text_eq (b ∷ s) (c ∷ t) = b == c && text_eq s t
text_eq _ _ = false

pub text_eq_sound : (s t : Text) → text_eq s t ≡ true → s ≡ t
unfolding text_eq
text_eq_sound [] [] h = refl
text_eq_sound [] (c ∷ t) h = ground arith
text_eq_sound (b ∷ s) [] h = ground arith
text_eq_sound (b ∷ s) (c ∷ t) h = ground (arith, text_eq_sound s t)

pub text_eq_self : (s : Text) → text_eq s s ≡ true
unfolding text_eq
text_eq_self [] = refl
text_eq_self (b ∷ s) = ground (arith, text_eq_self s)

abbrev pub u32_mod : ℕ
u32_mod = 4294967296

abbrev pub uint32_max : ℕ
uint32_max = 4294967295

abbrev pub u64_mod : ℕ
u64_mod = 18446744073709551616

abbrev pub uint64_max : ℕ
uint64_max = 18446744073709551615
