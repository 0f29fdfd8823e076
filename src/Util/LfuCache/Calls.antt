-- ===== src/Util/LfuCache/Calls.antt =====
-- Every call keeps the cache valid.
use netspeak4_application_ng.Prelude.{
  ℕ, ◌+◌, ◌%◌, ◌<◌, refl, sym, ◌∙◌, inl, inr, none, some, List, [], ◌∷◌, arith, Text, Bool-cases,
  ◌==◌, ltb, u32_mod,
}
use netspeak4_application_ng.Util.LfuCache.{
  LfuCache, has, lookup, assign, insert_, insert, update, find, found, erase, reserve, clear,
  new_cache, get_priority,
}
use netspeak4_application_ng.Util.LfuCache.Keys.{has-assign, assign-IsDistinct, length-assign}
use netspeak4_application_ng.Util.LfuCache.Valid.{IsValid, inserted-IsValid, remove_top_-IsValid}

module _ {V : Type 0} where
  insert_-IsValid :
      (c : LfuCache V) (k : Text) (a : V) → IsValid c → 0 < c.capacity → IsValid (insert_ c k a).0
  unfolding insert_
  insert_-IsValid c k a v p = elim (Bool-cases (has k c.storage)) [
    | inl e ↦ rw e v
    | inr e ↦ rw e (inserted-IsValid c k a v e p)
  ]

  insert-IsValid : (c : LfuCache V) (k : Text) (a : V) → IsValid c → IsValid (insert c k a).0
  unfolding insert
  insert-IsValid c k a v = elim (Bool-cases (c.capacity == 0)) [
    | inl e ↦ rw e v
    | inr e ↦ rw e (insert_-IsValid c k a v (ground arith))
  ]

  -- Writes to the values and the priorities.
  assigned-IsValid :
      (c : LfuCache V) (k : Text) (a : V) (p : ℕ)
      → IsValid c
      → IsValid (record c { storage = assign k a c.storage; policy = assign k p c.policy })
  assigned-IsValid c k a p v = record {
    same = λ j. has-assign k j a c.storage ∙ v.same j ∙ sym (has-assign k j p c.policy);
    stored = assign-IsDistinct k a c.storage v.stored;
    ranked = assign-IsDistinct k p c.policy v.ranked;
    bounded = omega (arith, length-assign k p c.policy, v.bounded);
  }

  ranked-IsValid :
      (c : LfuCache V) (k : Text) (p : ℕ)
      → IsValid c
      → IsValid (record c { policy = assign k p c.policy })
  ranked-IsValid c k p v = record {
    same = λ j. v.same j ∙ sym (has-assign k j p c.policy);
    stored = v.stored;
    ranked = assign-IsDistinct k p c.policy v.ranked;
    bounded = omega (arith, length-assign k p c.policy, v.bounded);
  }

  update-IsValid : (c : LfuCache V) (k : Text) (a : V) → IsValid c → IsValid (update c k a).0
  unfolding update
  update-IsValid c k a v = elim (Bool-cases (c.capacity == 0)) [
    | inl e ↦ rw e v
    | inr e ↦
        let w = insert_-IsValid c k a v (ground arith) in
        elim (Bool-cases (insert_ c k a).1) [
          | inl f ↦ rw (e, f) w
          | inr f ↦ rw (e, f) (assigned-IsValid (insert_ c k a).0 k a 1 w)
        ]
  ]

  counted-IsValid :
      (c : LfuCache V) (n k : ℕ) → IsValid c → IsValid (record c { acc_count = n; hit_count = k })
  counted-IsValid c n k v = record {
    same = v.same;
    stored = v.stored;
    ranked = v.ranked;
    bounded = v.bounded;
  }

  find-IsValid : (c : LfuCache V) (k : Text) → IsValid c → IsValid (find c k).0
  unfolding find
  find-IsValid c k v = elim (lookup k c.storage) as (λ o. IsValid (found c k o).0) [
    | none ↦ counted-IsValid c _ c.hit_count v
    | some a ↦
        counted-IsValid
          (record c {
            policy = assign k ((get_priority (lookup k c.policy) + 1) % u32_mod) c.policy;
          })
          _ _ (ranked-IsValid c k ((get_priority (lookup k c.policy) + 1) % u32_mod) v)
  ]

  erase-IsValid : (c : LfuCache V) (k : Text) → IsValid c → IsValid (erase c k)
  unfolding erase
  erase-IsValid c k v = elim (Bool-cases (has k c.storage)) [
    | inl e ↦
        rw e
          (remove_top_-IsValid (record c { policy = assign k 0 c.policy }) (ranked-IsValid c k 0 v))
    | inr e ↦ rw e v
  ]

  reserve-IsValid : (c : LfuCache V) (n : ℕ) → IsValid c → IsValid (reserve c n)
  unfolding reserve
  reserve-IsValid c n v = elim (Bool-cases (ltb c.capacity n)) [
    | inl e ↦ rw e (record {
      same = v.same;
      stored = v.stored;
      ranked = v.ranked;
      bounded = ground (arith, v.bounded);
    })
    | inr e ↦ rw e v
  ]

  new_cache-IsValid : (n : ℕ) → IsValid (new_cache {V = V} n)
  unfolding new_cache has
  new_cache-IsValid n = record { same = λ k. refl; stored = tt; ranked = tt; bounded = omega arith }

  clear-IsValid : (c : LfuCache V) → IsValid (clear c)
  unfolding clear has
  clear-IsValid c = record { same = λ k. refl; stored = tt; ranked = tt; bounded = omega arith }

-- The calls of a cache by its clients.
pub data CacheCall (V : Type 0) : Type 0 where
  insert_call : Text → V → CacheCall V
  update_call : Text → V → CacheCall V
  find_call : Text → CacheCall V
  erase_call : Text → CacheCall V
  reserve_call : ℕ → CacheCall V
  clear_call : CacheCall V

module _ {V : Type 0} where
  unfoldable pub call : CacheCall V → LfuCache V → LfuCache V
  call (insert_call k a) c = (insert c k a).0
  call (update_call k a) c = (update c k a).0
  call (find_call k) c = (find c k).0
  call (erase_call k) c = erase c k
  call (reserve_call n) c = reserve c n
  call clear_call c = clear c

  unfoldable pub calls : List (CacheCall V) → LfuCache V → LfuCache V
  calls [] c = c
  calls (x ∷ xs) c = calls xs (call x c)

  call-IsValid : (x : CacheCall V) (c : LfuCache V) → IsValid c → IsValid (call x c)
  unfolding call
  call-IsValid (insert_call k a) c v = insert-IsValid c k a v
  call-IsValid (update_call k a) c v = update-IsValid c k a v
  call-IsValid (find_call k) c v = find-IsValid c k v
  call-IsValid (erase_call k) c v = erase-IsValid c k v
  call-IsValid (reserve_call n) c v = reserve-IsValid c n v
  call-IsValid clear_call c v = clear-IsValid c

  calls-keep : (xs : List (CacheCall V)) (c : LfuCache V) → IsValid c → IsValid (calls xs c)
  unfolding calls
  calls-keep [] c v = v
  calls-keep (x ∷ xs) c v = calls-keep xs (call x c) (call-IsValid x c v)

  -- After any calls on a new cache, the map and the heap hold the same keys, each of them once, and
  -- no more than the capacity.
  pub calls-IsValid : (xs : List (CacheCall V)) (n : ℕ) → IsValid (calls xs (new_cache n))
  calls-IsValid xs n = calls-keep xs (new_cache n) (new_cache-IsValid n)
