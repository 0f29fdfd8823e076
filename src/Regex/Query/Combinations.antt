-- ===== src/Regex/Query/Combinations.antt =====
-- combinations_upper_bound against the words that a query accepts.
use netspeak4_application_ng.Prelude.{
  ℕ, suc, ◌*◌, ◌≤◌, ◌<◌, ◌≡◌, refl, ap, ◌∙◌, ◌↔◌, ◌⊎◌, inl, inr, List, [], ◌∷◌, ◌++◌, map, Option,
  none, some, arith, length, length-append, Text, All, Any, Any-append_iff, Bool-cases, ==_iff,
  ◌==◌, leb, if◌then◌else◌, true, subst, u32_mod, u64_mod, uint32_max,
}
use native.Mathlib.Nat.{mul-le-mul, mul_assoc}
use netspeak4_application_ng.Regex.Query.{
  RegexUnit, qmark, star, word, char_set, optional_word, RegexQuery, multiply, combinations_from,
  combinations_upper_bound, rejects_all,
}
use netspeak4_application_ng.Regex.Lang.{TextLang, ◌⊙◌, OneOf, UnitLang, UnitsLang, RegexLang}

-- A set has fewer than 2^32 characters.
abbrev pub IsSmall : RegexUnit → Type 0
IsSmall (char_set cs) = length cs < u32_mod
IsSmall u = Unit

-- Every word of one list followed by every word of the other.
products : List Text → List Text → List Text
products [] ws = []
products (v ∷ vs) ws = map (λ w. v ++ w) ws ++ products vs ws

length-map : (f : Text → Text) (ws : List Text) → length (map f ws) ≡ length ws
length-map f [] = refl
length-map f (w ∷ ws) = ap suc (length-map f ws)

length-map_single : (cs : Text) → length (map (λ (c : ℕ). c ∷ []) cs) ≡ length cs
length-map_single [] = refl
length-map_single (c ∷ cs) = ap suc (length-map_single cs)

length-products : (vs ws : List Text) → length (products vs ws) ≡ length vs * length ws
unfolding products
length-products [] ws = omega arith
length-products (v ∷ vs) ws = grind (
  arith,
  length-append (map (λ w. v ++ w) ws) (products vs ws),
  length-map (λ w. v ++ w) ws,
  length-products vs ws,
)

abbrev In : List Text → TextLang
In ws w = Any (λ v. w ≡ v) ws

In-map :
    (v : Text) (ws : List Text) (w : Text)
    → In (map (λ x. v ++ x) ws) w
    → ((x : Text) × (w ≡ v ++ x) × In ws x)
In-map v [] w h = absurd h
In-map v (x ∷ ws) w (inl e) = (x, e, inl refl)
In-map v (x ∷ ws) w (inr h) = let (y, e, i) = In-map v ws w h in (y, e, inr i)

In-map_of :
    (v : Text) (ws : List Text) (w x : Text) → w ≡ v ++ x → In ws x → In (map (λ y. v ++ y) ws) w
In-map_of v [] w x e h = h
In-map_of v (y ∷ ws) w x e (inl i) = inl (e ∙ ap (λ t. v ++ t) i)
In-map_of v (y ∷ ws) w x e (inr h) = inr (In-map_of v ws w x e h)

In-products : (vs ws : List Text) (w : Text) → In (products vs ws) w ↔ (In vs ⊙ In ws) w
unfolding products
In-products [] ws w = (λ h. absurd h, λ (a, b, q, h, k). h)
In-products (v ∷ vs) ws w =
    let (to, back) = Any-append_iff (λ x. w ≡ x) (map (λ x. v ++ x) ws) (products vs ws) in
    let (to', back') = In-products vs ws w in
    (λ h. forth to' (to h), λ (a, b, q, h, k). back (split a b q k back' h))
  where
    forth :
        (In (products vs ws) w → (In vs ⊙ In ws) w)
        → In (map (λ x. v ++ x) ws) w ⊎ In (products vs ws) w
        → (In (v ∷ vs) ⊙ In ws) w
    forth f (inl h) = let (x, e, i) = In-map v ws w h in (v, x, e, inl refl, i)
    forth f (inr h) = let (a, b, q, i, k) = f h in (a, b, q, inr i, k)

    split :
        (a b : Text)
        → w ≡ a ++ b
        → In ws b
        → ((In vs ⊙ In ws) w → In (products vs ws) w)
        → In (v ∷ vs) a
        → In (map (λ x. v ++ x) ws) w ⊎ In (products vs ws) w
    split a b q k f (inl e) = inl (In-map_of v ws w b (q ∙ ap (λ t. t ++ b) e) k)
    split a b q k f (inr i) = inr (f (a, b, q, i, k))

In-single : (cs : Text) (w : Text) → In (map (λ (c : ℕ). c ∷ []) cs) w ↔ UnitLang (char_set cs) w
In-single [] w = (λ h. absurd h, λ (c, e, h). h)
In-single (d ∷ cs) w =
    let (to, back) = In-single cs w in
    (
      elim [ inl e ↦ (d, e, inl refl) | inr h ↦ (let (c, e, i) = to h in (c, e, inr i)) ],
      λ (c, e, o). pick c e back o,
    )
  where
    pick :
        (c : ℕ)
        → w ≡ c ∷ []
        → (UnitLang (char_set cs) w → In (map (λ (b : ℕ). b ∷ []) cs) w)
        → OneOf (d ∷ cs) c
        → In ((d ∷ []) ∷ map (λ (b : ℕ). b ∷ []) cs) w
    pick c e k (inl i) = inl (e ∙ ap (λ x. x ∷ []) i)
    pick c e k (inr i) = inr (k (c, e, i))

-- A language has exactly the words of a list, and `n` is `count` times their number.
abbrev Listed : ℕ → ℕ → TextLang → Type 0
Listed n count L = (ws : List Text) × (n ≡ count * length ws) × ((w : Text) → In ws w ↔ L w)

mult_small : (a b : ℕ) → a < u32_mod → b < u32_mod → a * b < u64_mod
mult_small a b h k = omega (arith, mul-le-mul (lt_pred a h) (lt_pred b k))
  where
    lt_pred : (n : ℕ) → n < u32_mod → n ≤ uint32_max
    lt_pred n l = omega arith

multiply-Listed :
    (count : ℕ) (u : RegexUnit) (count' : ℕ)
    → multiply count u ≡ some count'
    → count < uint32_max
    → IsSmall u
    → Listed count' count (UnitLang u)
unfolding multiply
multiply-Listed count (word t) count' e h s =
    (t ∷ [], ground arith, λ w. (elim [ inl x ↦ x | inr z ↦ absurd z ], inl))
multiply-Listed count (optional_word t) count' e h s = (
  [] ∷ t ∷ [],
  ground arith,
  λ w. (
    elim [ inl x ↦ inl x | inr (inl x) ↦ inr x | inr (inr z) ↦ absurd z ],
    elim [ inl x ↦ inl x | inr x ↦ inr (inl x) ],
  ),
)
multiply-Listed count (char_set cs) count' e h s = (
  map (λ (c : ℕ). c ∷ []) cs,
  ground (arith, length-map_single cs, mult_small count (length cs)),
  In-single cs,
)
multiply-Listed count qmark count' e h s = cc
multiply-Listed count star count' e h s = cc

none_listed : (ws : List Text) (w : Text) → length ws ≡ 0 → In ws w → ⊥
none_listed [] w e h = h
none_listed (v ∷ ws) w e h = absurd (omega arith)

-- No word, since the unit has none.
empty-Listed :
    (n count : ℕ) (u : RegexUnit) (L : TextLang)
    → n ≡ 0
    → 0 < count
    → Listed 0 count (UnitLang u)
    → Listed n count (UnitLang u ⊙ L)
empty-Listed n count u L e p (ws, k, iff) = (
  [],
  ground arith,
  λ w. (λ z. absurd z, λ (a, b, q, x, y). none_listed ws a (grind arith) ((iff a).1 x)),
)

step-Listed :
    (n count count' : ℕ) (L K : TextLang)
    → Listed count' count L
    → Listed n count' K
    → Listed n count (L ⊙ K)
step-Listed n count count' L K (vs, e, i) (ws, f, j) = (
  products vs ws,
  rw (f, e, length-products vs ws) (mul_assoc count (length vs) (length ws)),
  λ w. (
    λ h. let (a, b, q, x, y) = (In-products vs ws w).0 h in (a, b, q, (i a).0 x, (j b).0 y),
    λ (a, b, q, x, y). (In-products vs ws w).1 (a, b, q, (i a).1 x, (j b).1 y),
  ),
)

combinations_from-Listed :
    (count : ℕ) (us : List RegexUnit) (n : ℕ)
    → combinations_from count us ≡ n
    → n < uint32_max
    → 0 < count
    → count < uint32_max
    → All IsSmall us
    → Listed n count (UnitsLang us)
unfolding combinations_from
combinations_from-Listed count [] n e h p c s =
    ([] ∷ [], ground arith, λ w. (elim [ inl x ↦ x | inr z ↦ absurd z ], inl))
combinations_from-Listed count (u ∷ us) n e h p c (s, ss) =
    go (multiply count u) refl e (λ k q r. combinations_from-Listed k us n r h q)
  where
    go :
        (m : Option ℕ)
        → multiply count u ≡ m
        → (elim m [
          | none ↦ uint32_max
          | some k ↦
              let rest = combinations_from k us in
              if k == 0 then 0 else if leb uint32_max k then uint32_max else rest
        ])
          ≡ n
        → ((k : ℕ)
            → 0 < k
            → combinations_from k us ≡ n
            → k < uint32_max
            → All IsSmall us
            → Listed n k (UnitsLang us))
        → Listed n count (UnitsLang (u ∷ us))
    go none q r f = absurd (omega (arith))
    go (some k) q r f = elim (Bool-cases (k == 0)) [
      | inl z ↦ empty-Listed n count u (UnitsLang us) (ground arith) p (
          subst (λ i. Listed i count (UnitLang u)) (ground arith) (multiply-Listed count u k q c s))
      | inr z ↦ elim (Bool-cases (leb uint32_max k)) [
        | inl l ↦ absurd (ground arith)
        | inr l ↦
            step-Listed n count k (UnitLang u) (UnitsLang us) (multiply-Listed count u k q c s)
              (f k (ground arith) (ground arith) (ground arith) ss)
      ]
    ]

-- Where the bound is not the greatest 32-bit number, the query accepts exactly the words of some
-- list of that length. Its sets have fewer than 2^32 characters.
pub combinations_upper_bound-covers :
    (q : RegexQuery)
    → All IsSmall q.units
    → combinations_upper_bound q < uint32_max
    → (ws : List Text) × (length ws ≡ combinations_upper_bound q)
      × ((w : Text) → Any (λ v. w ≡ v) ws ↔ RegexLang q w)
unfolding combinations_upper_bound
combinations_upper_bound-covers q s h =
    let (ws, e, iff) =
      combinations_from-Listed 1 q.units (combinations_upper_bound q) refl h (omega arith)
        (omega arith) s in
    (ws, omega arith, iff)

pub rejects_all_sound :
    (q : RegexQuery) → All IsSmall q.units → rejects_all q ≡ true → (w : Text) → ¬ RegexLang q w
unfolding rejects_all
rejects_all_sound q s r w h =
    let e : combinations_upper_bound q ≡ 0 = (==_iff (combinations_upper_bound q) 0).0 r in
    let (ws, l, iff) = combinations_upper_bound-covers q s (omega arith) in
    none_listed ws w (l ∙ e) ((iff w).1 h)
