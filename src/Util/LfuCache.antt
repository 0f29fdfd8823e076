-- ===== src/Util/LfuCache.antt =====
-- LfuCache of netspeak/util/LfuCache.hpp, over the type of its values.
pub mod Keys
pub mod Valid
pub mod Calls
pub mod Evict
use netspeak4_application_ng.Prelude.{
  ℕ, ◌+◌, ◌%◌, Bool, true, false, ◌||◌, Option, none, some, List, [], ◌∷◌, length, Text, text_eq,
  ltb, ◌==◌, if◌then◌else◌, u32_mod, u64_mod,
}

-- The map from keys to values, and the priorities of the keys. The code reaches a priority from the
-- map and from the heap by the same pointer; here it stands in `policy`, under its key. Of the heap
-- only its content is kept, not the order.
pub record LfuCache (V : Type 0) : Type 0 where
  pub storage : List (Text × V)
  pub policy : List (Text × ℕ)
  pub capacity : ℕ
  pub acc_count : ℕ
  pub hit_count : ℕ

module _ {A : Type 0} where
  unfoldable pub has : Text → List (Text × A) → Bool
  has k [] = false
  has k ((j, _) ∷ m) = text_eq j k || has k m

  unfoldable pub lookup : Text → List (Text × A) → Option A
  lookup k [] = none
  lookup k ((j, a) ∷ m) = if text_eq j k then some a else lookup k m

  unfoldable pub remove : Text → List (Text × A) → List (Text × A)
  remove k [] = []
  remove k ((j, a) ∷ m) = if text_eq j k then m else (j, a) ∷ remove k m

  -- Writes through the pointer or the iterator of a key.
  unfoldable pub assign : Text → A → List (Text × A) → List (Text × A)
  assign k a [] = []
  assign k a ((j, b) ∷ m) = if text_eq j k then (j, a) ∷ m else (j, b) ∷ assign k a m

-- The key on top of the heap: one of least priority.
unfoldable pub top_of : Text → ℕ → List (Text × ℕ) → Text
top_of k p [] = k
top_of k p ((j, q) ∷ m) =
    let lower = top_of j q m in let same = top_of k p m in if ltb q p then lower else same

unfoldable pub top_key : List (Text × ℕ) → Option Text
unfolding top_of
top_key [] = none
top_key ((k, p) ∷ m) = some (top_of k p m)

unfoldable pub get_priority : Option ℕ → ℕ
get_priority none = 0
get_priority (some p) = p

module _ {V : Type 0} where
  unfoldable pub remove_top_ : LfuCache V → LfuCache V
  unfolding top_key remove
  remove_top_ c = elim (top_key c.policy) [
    | none ↦ c
    | some k ↦ record c { storage = remove k c.storage; policy = remove k c.policy }
  ]

  unfoldable pub make_room : LfuCache V → LfuCache V
  unfolding remove_top_
  make_room c = if length c.policy == c.capacity then remove_top_ c else c

  unfoldable pub push_priority : Text → LfuCache V → LfuCache V
  push_priority k c = record c { policy = (k, 1) ∷ c.policy }

  unfoldable pub insert_ : LfuCache V → Text → V → LfuCache V × Bool
  unfolding make_room push_priority has
  insert_ c k v =
      if has k c.storage
      then (c, false)
      else (push_priority k (make_room (record c { storage = (k, v) ∷ c.storage })), true)

  unfoldable pub insert : LfuCache V → Text → V → LfuCache V × Bool
  unfolding insert_
  insert c k v = if c.capacity == 0 then (c, false) else insert_ c k v

  unfoldable pub update : LfuCache V → Text → V → LfuCache V × Bool
  unfolding insert_ assign
  update c k v =
      let (c', inserted) = insert_ c k v in
      if c.capacity == 0
      then (c, false)
      else if inserted
      then (c', true)
      else (record c' { storage = assign k v c'.storage; policy = assign k 1 c'.policy }, true)

  unfoldable pub priority : LfuCache V → Text → ℕ
  unfolding lookup get_priority has
  priority c k = if has k c.storage then get_priority (lookup k c.policy) else 0

  -- A priority is an `unsigned`, which starts again at 0 after 2^32 hits; the counts are
  -- `uint64_t`.
  unfoldable pub found : LfuCache V → Text → Option V → LfuCache V × Option V
  unfolding lookup assign get_priority
  found c k none = (record c { acc_count = (c.acc_count + 1) % u64_mod }, none)
  found c k (some v) = (
    record c {
      policy = assign k ((get_priority (lookup k c.policy) + 1) % u32_mod) c.policy;
      acc_count = (c.acc_count + 1) % u64_mod;
      hit_count = (c.hit_count + 1) % u64_mod;
    },
    some v,
  )

  unfoldable pub find : LfuCache V → Text → LfuCache V × Option V
  unfolding lookup found
  find c k = found c k (lookup k c.storage)

  unfoldable pub erase : LfuCache V → Text → LfuCache V
  unfolding has assign remove_top_
  erase c k = if has k c.storage then remove_top_ (record c { policy = assign k 0 c.policy }) else c

  -- `std::vector::reserve` makes the capacity exactly what is asked for, as it is implemented.
  unfoldable pub reserve : LfuCache V → ℕ → LfuCache V
  reserve c n = if ltb c.capacity n then record c { capacity = n } else c

  unfoldable pub clear : LfuCache V → LfuCache V
  clear c = record c { storage = []; policy = [] }

  unfoldable pub size : LfuCache V → ℕ
  size c = length c.policy

  unfoldable pub new_cache : ℕ → LfuCache V
  new_cache n = record { storage = []; policy = []; capacity = n; acc_count = 0; hit_count = 0 }
