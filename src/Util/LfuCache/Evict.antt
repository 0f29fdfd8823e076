-- ===== src/Util/LfuCache/Evict.antt =====
-- Which key gives way to a new one in a full cache.
use netspeak4_application_ng.Prelude.{
  ℕ, ◌≤◌, ◌<◌, ◌≡◌, refl, sym, ap, subst, ◌∙◌, inl, inr, true, false, some, List, [], ◌∷◌, arith,
  length, Text, text_eq, text_eq_sound, text_eq_self, Bool-cases, ltb, ◌==◌, if◌then◌else◌,
}
use netspeak4_application_ng.Util.LfuCache.{
  LfuCache, has, lookup, remove, top_of, top_key, insert_, insert, priority, get_priority,
  make_room, push_priority,
}
use netspeak4_application_ng.Util.LfuCache.Keys.{IsDistinct, has-remove, lookup-remove}
use netspeak4_application_ng.Util.LfuCache.Valid.{
  IsValid, has-top_of, has-top_key, make_room_cases, without,
}

abbrev rank : Text → List (Text × ℕ) → ℕ
rank k m = get_priority (lookup k m)

least : ℕ → List (Text × ℕ) → ℕ
least p [] = p
least p ((j, q) ∷ m) = if ltb q p then least q m else least p m

least-le : (p : ℕ) (m : List (Text × ℕ)) → least p m ≤ p
unfolding least
least-le p [] = omega arith
least-le p ((j, q) ∷ m) = ground (arith, least-le q m, least-le p m)

least-rank : (p : ℕ) (j : Text) (m : List (Text × ℕ)) → has j m ≡ true → least p m ≤ rank j m
unfolding least has lookup get_priority
least-rank p j [] h = cc
least-rank p j ((i, q) ∷ m) h =
    ground (arith, least-le q m, least-le p m, least-rank q j m, least-rank p j m)

distinct_keys :
    (k t : Text) (m : List (Text × ℕ)) → has k m ≡ false → has t m ≡ true → text_eq k t ≡ false
distinct_keys k t m h g = elim (Bool-cases (text_eq k t)) [
  | inl e ↦ cc (subst (λ u. has u m ≡ true) (sym (text_eq_sound k t e)) g, h)
  | inr e ↦ e
]

rank-cons :
    (k : Text) (p : ℕ) (t : Text) (m : List (Text × ℕ))
    → text_eq k t ≡ false
    → rank t ((k, p) ∷ m) ≡ rank t m
unfolding lookup
rank-cons k p t m e = rw e refl

rank-head :
    (k : Text) (p : ℕ) (t : Text) (m : List (Text × ℕ))
    → text_eq k t ≡ true
    → rank t ((k, p) ∷ m) ≡ p
unfolding lookup get_priority
rank-head k p t m e = rw e refl

has-tail :
    (k : Text) (p : ℕ) (t : Text) (m : List (Text × ℕ))
    → has t ((k, p) ∷ m) ≡ true
    → text_eq k t ≡ false
    → has t m ≡ true
unfolding has
has-tail k p t m h e = ground arith

absent-tail :
    (k j : Text) (q : ℕ) (m : List (Text × ℕ)) → has k ((j, q) ∷ m) ≡ false → has k m ≡ false
unfolding has
absent-tail k j q m h = ground arith

-- A key between two others, when it is not the one looked up.
rank-between :
    (k j t : Text) (p q : ℕ) (m : List (Text × ℕ))
    → has j m ≡ false
    → has t ((k, p) ∷ m) ≡ true
    → rank t ((k, p) ∷ (j, q) ∷ m) ≡ rank t ((k, p) ∷ m)
rank-between k j t p q m e h = elim (Bool-cases (text_eq k t)) [
  | inl b ↦ rank-head k p t ((j, q) ∷ m) b ∙ sym (rank-head k p t m b)
  | inr b ↦
      rank-cons k p t ((j, q) ∷ m) b
      ∙ rank-cons j q t m (distinct_keys j t m e (has-tail k p t m h b))
      ∙ sym (rank-cons k p t m b)
]

top_of_lower :
    (k j : Text) (p q : ℕ) (m : List (Text × ℕ))
    → ltb q p ≡ true
    → (top_of k p ((j, q) ∷ m) ≡ top_of j q m) × (least p ((j, q) ∷ m) ≡ least q m)
unfolding top_of least
top_of_lower k j p q m b = (rw b refl, rw b refl)

top_of_same :
    (k j : Text) (p q : ℕ) (m : List (Text × ℕ))
    → ltb q p ≡ false
    → (top_of k p ((j, q) ∷ m) ≡ top_of k p m) × (least p ((j, q) ∷ m) ≡ least p m)
unfolding top_of least
top_of_same k j p q m b = (rw b refl, rw b refl)

rank-top_of :
    (k : Text) (p : ℕ) (m : List (Text × ℕ))
    → IsDistinct ((k, p) ∷ m)
    → rank (top_of k p m) ((k, p) ∷ m) ≡ least p m
rank-top_of k p [] d = rank-head k p (top_of k p []) [] (one k p) ∙ none_left p
  where
    one : (l : Text) (r : ℕ) → text_eq l (top_of l r []) ≡ true
    one l r = unfold top_of in text_eq_self l

    none_left : (r : ℕ) → r ≡ least r []
    none_left r = unfold least in refl
rank-top_of k p ((j, q) ∷ m) (d, (e, ds)) = elim (Bool-cases (ltb q p)) [
  | inl b ↦
      let (f, g) = top_of_lower k j p q m b in
      ap (λ t. rank t ((k, p) ∷ (j, q) ∷ m)) f
      ∙ rank-cons k p (top_of j q m) ((j, q) ∷ m)
          (distinct_keys k (top_of j q m) ((j, q) ∷ m) d (has-top_of j q m))
      ∙ rank-top_of j q m (e, ds)
      ∙ sym g
  | inr b ↦
      let (f, g) = top_of_same k j p q m b in
      ap (λ t. rank t ((k, p) ∷ (j, q) ∷ m)) f
      ∙ rank-between k j (top_of k p m) p q m e (has-top_of k p m)
      ∙ rank-top_of k p m (absent-tail k j q m d, ds)
      ∙ sym g
]

-- The key on top of the heap has a least priority.
top_key_least :
    (m : List (Text × ℕ)) (t j : Text)
    → IsDistinct m
    → top_key m ≡ some t
    → has j m ≡ true
    → rank t m ≤ rank j m
unfolding top_key
top_key_least [] t j d e h = cc
top_key_least ((k, p) ∷ m) t j d e h =
    subst (λ u. rank u ((k, p) ∷ m) ≤ rank j ((k, p) ∷ m)) (some_inj e)
      (omega (arith, rank-top_of k p m d, below))
  where
    some_inj : some (top_of k p m) ≡ some t → top_of k p m ≡ t
    some_inj r = cc

    below : least p m ≤ rank j ((k, p) ∷ m)
    below = elim (Bool-cases (text_eq k j)) [
      | inl b ↦ omega (arith, rank-head k p j m b, least-le p m)
      | inr b ↦ omega (arith, rank-cons k p j m b, least-rank p j m (has-tail k p j m h b))
    ]

module _ {V : Type 0} where
  top_key-storage :
      (c : LfuCache V) (t : Text) → IsValid c → top_key c.policy ≡ some t → has t c.storage ≡ true
  top_key-storage c t v e = v.same t ∙ has-top_key c.policy t e

  priority_of :
      (c : LfuCache V) (k : Text) → has k c.storage ≡ true → priority c k ≡ rank k c.policy
  unfolding priority
  priority_of c k h = rw h refl

  top_key-priority :
      (c : LfuCache V) (t j : Text)
      → IsValid c
      → top_key c.policy ≡ some t
      → has j c.storage ≡ true
      → priority c t ≤ priority c j
  top_key-priority c t j v e h = omega (
    arith,
    priority_of c t (top_key-storage c t v e),
    priority_of c j h,
    top_key_least c.policy t j v.ranked e (sym (v.same j) ∙ h),
  )

  -- What the map is when a key gave way.
  full_storage :
      (c : LfuCache V) (k t : Text) (a : V)
      → 0 < c.capacity
      → has k c.storage ≡ false
      → make_room (record c { storage = (k, a) ∷ c.storage })
        ≡ without t (record c { storage = (k, a) ∷ c.storage })
      → (insert c k a).0.storage ≡ remove t ((k, a) ∷ c.storage)
  unfolding insert insert_ push_priority
  full_storage c k t a p n e = rw (==_false c.capacity p, n, e) refl
    where
      ==_false : (m : ℕ) → 0 < m → (m == 0) ≡ false
      ==_false m l = ground arith

  has-removed :
      (k t : Text) (a : V) (m : List (Text × V))
      → IsDistinct m
      → has k m ≡ false
      → has t (remove t ((k, a) ∷ m)) ≡ false
  has-removed k t a m d n = has-remove t t ((k, a) ∷ m) (n, d) ∙ rw (text_eq_self t) refl

  -- Inserting a key that is new into a valid full cache of a capacity that is not 0 removes one
  -- other key, which was in the map and of a priority no greater than that of any key there;
  -- afterwards that key is not in the map, and every other key has the value it had, the new one
  -- the inserted value.
  pub insert-evicts :
      (c : LfuCache V) (k : Text) (a : V)
      → IsValid c
      → 0 < c.capacity
      → length c.policy ≡ c.capacity
      → has k c.storage ≡ false
      → (t : Text) × (has t c.storage ≡ true)
        × ((j : Text) → has j c.storage ≡ true → priority c t ≤ priority c j)
        × (has t (insert c k a).0.storage ≡ false)
        × ((j : Text)
            → text_eq t j ≡ false
            → lookup j (insert c k a).0.storage ≡ lookup j ((k, a) ∷ c.storage))
  insert-evicts c k a v p l n =
      elim (make_room_cases (record c { storage = (k, a) ∷ c.storage }) p) [
        | inl (_, ne) ↦ absurd (ne l)
        | inr (t, e, f) ↦
            let s = full_storage c k t a p n e in
            (
              t,
              top_key-storage c t v f,
              λ j h. top_key-priority c t j v f h,
              ap (has t) s ∙ has-removed k t a c.storage v.stored n,
              λ j d. ap (lookup j) s ∙ lookup-remove t j ((k, a) ∷ c.storage) d,
            )
      ]
