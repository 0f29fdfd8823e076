-- ===== src/Util/LfuCache/Valid.antt =====
-- The map and the priorities of a cache hold the same keys, and no more than its capacity.
use netspeak4_application_ng.Prelude.{
  ℕ, ◌≤◌, ◌<◌, ◌≡◌, ◌≢◌, refl, sym, ap, subst, ◌∙◌, ◌⊎◌, inl, inr, Bool, true, false, ◌||◌, Option,
  none, some, List, [], ◌∷◌, arith, length, Text, text_eq, text_eq_sound, text_eq_self, Bool-cases,
  ◌==◌, ltb, if◌then◌else◌,
}
use netspeak4_application_ng.Util.LfuCache.{
  LfuCache, has, remove, top_of, top_key, remove_top_, make_room, push_priority,
}
use netspeak4_application_ng.Util.LfuCache.Keys.{
  IsDistinct, has-remove, remove-IsDistinct, length-remove, length-remove-le,
}

module _ {V : Type 0} where
  pub record IsValid (c : LfuCache V) : Type 0 where
    pub same : (k : Text) → has k c.storage ≡ has k c.policy
    pub stored : IsDistinct c.storage
    pub ranked : IsDistinct c.policy
    pub bounded : length c.policy ≤ c.capacity

top_of_cases :
    (k : Text) (p : ℕ) (j : Text) (q : ℕ) (m : List (Text × ℕ))
    → (top_of k p ((j, q) ∷ m) ≡ top_of j q m) ⊎ (top_of k p ((j, q) ∷ m) ≡ top_of k p m)
unfolding top_of
top_of_cases k p j q m = elim (Bool-cases (ltb q p)) [
  | inl e ↦ inl (rw e refl)
  | inr e ↦ inr (rw e refl)
]

pub has-top_of : (k : Text) (p : ℕ) (m : List (Text × ℕ)) → has (top_of k p m) ((k, p) ∷ m) ≡ true
unfolding has
has-top_of k p [] = rw (one k p) (rw (text_eq_self k) refl)
  where
    one : (l : Text) (r : ℕ) → top_of l r [] ≡ l
    one l r = unfold top_of in refl
has-top_of k p ((j, q) ∷ m) = go (top_of_cases k p j q m) (has-top_of j q m) (has-top_of k p m)
  where
    go :
        (top_of k p ((j, q) ∷ m) ≡ top_of j q m) ⊎ (top_of k p ((j, q) ∷ m) ≡ top_of k p m)
        → has (top_of j q m) ((j, q) ∷ m) ≡ true
        → has (top_of k p m) ((k, p) ∷ m) ≡ true
        → has (top_of k p ((j, q) ∷ m)) ((k, p) ∷ (j, q) ∷ m) ≡ true
    go (inl e) f g = subst (λ t. has t ((k, p) ∷ (j, q) ∷ m) ≡ true) (sym e) (rw f (ground arith))
    go (inr e) f g = subst (λ t. has t ((k, p) ∷ (j, q) ∷ m) ≡ true) (sym e) (ground arith)

pub has-top_key : (m : List (Text × ℕ)) (k : Text) → top_key m ≡ some k → has k m ≡ true
unfolding top_key
has-top_key [] k e = cc
has-top_key ((j, p) ∷ m) k e =
    subst (λ t. has t ((j, p) ∷ m) ≡ true) (some_inj e) (has-top_of j p m)
  where
    some_inj : some (top_of j p m) ≡ some k → top_of j p m ≡ k
    some_inj r = cc

top_key-some : (m : List (Text × ℕ)) → 0 < length m → (t : Text) × (top_key m ≡ some t)
unfolding top_key
top_key-some [] h = absurd (omega arith)
top_key-some ((k, p) ∷ m) h = (top_of k p m, refl)

module _ {V : Type 0} where
  remove-IsValid :
      (c : LfuCache V) (k : Text)
      → IsValid c
      → IsValid (record c { storage = remove k c.storage; policy = remove k c.policy })
  remove-IsValid c k v = record {
    same = λ j.
        rw (has-remove k j c.storage v.stored, has-remove k j c.policy v.ranked, v.same j) refl;
    stored = remove-IsDistinct k c.storage v.stored;
    ranked = remove-IsDistinct k c.policy v.ranked;
    bounded = omega (arith, length-remove-le k c.policy, v.bounded);
  }

  pub remove_top_-IsValid : (c : LfuCache V) → IsValid c → IsValid (remove_top_ c)
  unfolding remove_top_
  remove_top_-IsValid c v = go (top_key c.policy)
    where
      go :
          (o : Option Text)
          → IsValid (elim o [
            | none ↦ c
            | some k ↦ record c { storage = remove k c.storage; policy = remove k c.policy }
          ])
      go none = v
      go (some k) = remove-IsValid c k v

  -- A key that is new, where there is room.
  added-IsValid :
      (c : LfuCache V) (k : Text) (a : V)
      → IsValid c
      → has k c.storage ≡ false
      → length c.policy < c.capacity
      → IsValid (record c { storage = (k, a) ∷ c.storage; policy = (k, 1) ∷ c.policy })
  unfolding has
  added-IsValid c k a v n l = record {
    same = λ j. ap (λ b. text_eq k j || b) (v.same j);
    stored = (n, v.stored);
    ranked = (sym (v.same k) ∙ n, v.ranked);
    bounded = omega arith;
  }

  absent-remove :
      (c : LfuCache V) (k t : Text)
      → IsValid c
      → has k c.storage ≡ false
      → has k (remove t c.storage) ≡ false
  absent-remove c k t v n = rw (has-remove t k c.storage v.stored, n) (both_false (text_eq t k))
    where
      both_false : (b : Bool) → (if b then false else false) ≡ false
      both_false true = refl
      both_false false = refl

  -- Where the cache is full, one of least priority gives way.
  evicted-IsValid :
      (c : LfuCache V) (k t : Text) (a : V)
      → IsValid c
      → has k c.storage ≡ false
      → has t c.policy ≡ true
      → IsValid (record c {
        storage = remove t ((k, a) ∷ c.storage);
        policy = (k, 1) ∷ remove t c.policy;
      })
  unfolding remove
  evicted-IsValid c k t a v n h = rw (differs) (
      added-IsValid (record c { storage = remove t c.storage; policy = remove t c.policy }) k a
        (remove-IsValid c t v) (absent-remove c k t v n)
        (omega (arith, length-remove t c.policy h, v.bounded)))
    where
      differs : text_eq k t ≡ false
      differs = elim (Bool-cases (text_eq k t)) [
        | inl e ↦ cc (subst (λ u. has u c.policy ≡ true) (sym (text_eq_sound k t e)) h, v.same k, n)
        | inr e ↦ e
      ]

  abbrev pub without : Text → LfuCache V → LfuCache V
  without t c = record c { storage = remove t c.storage; policy = remove t c.policy }

  remove_top_-some :
      (c : LfuCache V) (t : Text) → top_key c.policy ≡ some t → remove_top_ c ≡ without t c
  unfolding remove_top_
  remove_top_-some c t e = rw (e, remove_top_) refl

  make_room-full :
      (c : LfuCache V) → (length c.policy == c.capacity) ≡ true → make_room c ≡ remove_top_ c
  unfolding make_room
  make_room-full c e = rw e refl

  make_room-free : (c : LfuCache V) → (length c.policy == c.capacity) ≡ false → make_room c ≡ c
  unfolding make_room
  make_room-free c e = rw e refl

  -- There is room already, or a key on top of the heap is removed.
  pub make_room_cases :
      (c : LfuCache V)
      → 0 < c.capacity
      → ((make_room c ≡ c) × (length c.policy ≢ c.capacity))
        ⊎ ((t : Text) × (make_room c ≡ without t c) × (top_key c.policy ≡ some t))
  make_room_cases c p = elim (Bool-cases (length c.policy == c.capacity)) [
    | inl e ↦
        let (t, f) = top_key-some c.policy (ground arith) in
        inr (t, make_room-full c e ∙ remove_top_-some c t f, f)
    | inr e ↦ inl (make_room-free c e, ground arith)
  ]

  pub inserted-IsValid :
      (c : LfuCache V) (k : Text) (a : V)
      → IsValid c
      → has k c.storage ≡ false
      → 0 < c.capacity
      → IsValid (push_priority k (make_room (record c { storage = (k, a) ∷ c.storage })))
  unfolding push_priority
  inserted-IsValid c k a v n p =
      elim (make_room_cases (record c { storage = (k, a) ∷ c.storage }) p) [
        | inl (e, l) ↦ rw e (added-IsValid c k a v n (omega (arith, v.bounded)))
        | inr (t, e, f) ↦ rw e (evicted-IsValid c k t a v n (has-top_key c.policy t f))
      ]
