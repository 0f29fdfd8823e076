-- ===== src/Samples/Cache.antt =====
-- The theorems on the cache, at a cache of two strings, and tests of its calls.
use netspeak4_application_ng.Prelude.{
  ◌≡◌, ◌≤◌, refl, ℕ, some, true, false, List, [], ◌∷◌, Text, text_eq, arith, subst,
}
use netspeak4_application_ng.Util.LfuCache.{
  LfuCache, has, lookup, assign, remove, top_of, top_key, remove_top_, make_room, push_priority,
  insert_, insert, update, found, find, erase, get_priority, priority, new_cache,
}
use netspeak4_application_ng.Util.LfuCache.Valid.{IsValid}
use netspeak4_application_ng.Util.LfuCache.Calls.{
  CacheCall, insert_call, find_call, call, calls, calls-IsValid,
}
use netspeak4_application_ng.Util.LfuCache.Evict.{insert-evicts}

abbrev key_a : Text
key_a = b'a' ∷ []

abbrev key_b : Text
key_b = b'b' ∷ []

abbrev key_c : Text
key_c = b'c' ∷ []

-- Two keys, of which the first was looked up once.
abbrev three_calls : List (CacheCall ℕ)
three_calls = insert_call key_a 1 ∷ insert_call key_b 2 ∷ find_call key_a ∷ []

calls-IsValid_example : IsValid (calls three_calls (new_cache 2))
calls-IsValid_example = calls-IsValid three_calls 2

abbrev full_cache : LfuCache ℕ
full_cache = record {
  storage = (key_b, 2) ∷ (key_a, 1) ∷ [];
  policy = (key_b, 1) ∷ (key_a, 2) ∷ [];
  capacity = 2;
  acc_count = 1;
  hit_count = 1;
}

full_cache-reached : calls three_calls (new_cache 2) ≡ full_cache
unfolding calls call insert insert_ make_room push_priority find found has lookup assign
    get_priority new_cache text_eq
full_cache-reached = refl

full_cache-IsValid : IsValid full_cache
full_cache-IsValid = subst IsValid full_cache-reached (calls-IsValid three_calls 2)

lacks_key_c : has key_c full_cache.storage ≡ false
unfolding has text_eq
lacks_key_c = refl

insert-evicts_example :
    (t : Text) × (has t full_cache.storage ≡ true)
    × ((j : Text) → has j full_cache.storage ≡ true → priority full_cache t ≤ priority full_cache j)
    × (has t (insert full_cache key_c 3).0.storage ≡ false)
    × ((j : Text)
        → text_eq t j ≡ false
        → lookup j (insert full_cache key_c 3).0.storage
          ≡ lookup j ((key_c, 3) ∷ full_cache.storage))
insert-evicts_example =
    insert-evicts full_cache key_c 3 full_cache-IsValid (omega arith) refl lacks_key_c

evicted_test : top_key full_cache.policy ≡ some key_b
unfolding top_key top_of
evicted_test = refl

update_test : priority (update full_cache key_a 7).0 key_a ≡ 1
unfolding update insert_ has assign lookup priority get_priority text_eq
update_test = refl

erase_test : (erase full_cache key_a).storage ≡ (key_b, 2) ∷ []
unfolding erase has assign remove_top_ top_key top_of remove text_eq
erase_test = refl
