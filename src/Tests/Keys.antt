-- ===== src/Tests/Keys.antt =====
-- Keys over numbers as Python objects, with keyword arguments in two orders, and a comparison that raises.
use warp_cache.Base.{
  ℕ, ◌+◌, ◌*◌, ◌≡◌, refl, arith, true, false, ◌==◌, ltb, if◌then◌else◌, none, some, List, [], ◌∷◌,
}
use warp_cache.Store.Map
use warp_cache.Store.Map.{Compare, raised, Key, SieveEntry, Map, failed}
use warp_cache.Store.Shard.{fresh}
use warp_cache.Store.Raised.{Overflowed}
use warp_cache.Store.Function.{Cached, Done, shard_of, set}
use warp_cache.Store.Function.Laws.{IsCached}
use warp_cache.Store.Function.Pending.{set-Overflowed}
use warp_cache.Store.Keys.{
  Python, minus_one, BorrowedArgs, HashedArgs, borrowed, cache_key, as_key, make_key, hash_args,
  equivalent, cache_key_eq, find, get_args, probe_args, call_args, set_args,
}
use warp_cache.Store.Keys.Laws.{
  IsPython, SameKeywords, reordered, stored_as, hash_args-make_key, probed, find-get,
  get_args-set_args, call_args-set_args,
}
use warp_cache.Tests.Store.{compare_ints, compare-IsEquality, key_a, key_b}
use warp_cache.Tests.Function.{failing, cached, cached-IsCached, cached-idle, cached-alive}

abbrev insert_item : ℕ × ℕ → List (ℕ × ℕ) → List (ℕ × ℕ)
insert_item x [] = x ∷ []
insert_item x (y ∷ ys) = let rest = insert_item x ys in if ltb y.0 x.0 then y ∷ rest else x ∷ y ∷ ys

abbrev sort_items : List (ℕ × ℕ) → List (ℕ × ℕ)
sort_items [] = []
sort_items (x ∷ xs) = insert_item x (sort_items xs)

abbrev items_code : List (ℕ × ℕ) → ℕ
items_code [] = 0
items_code ((name, value) ∷ xs) = name + 10 * (value + 10 * items_code xs)

abbrev py : Python ℕ
py = record {
  rich_compare = compare_ints;
  object_hash = λ o. o;
  bind_hash = λ o. if o == minus_one then none else some o;
  sorted = λ kws. some (sort_items kws);
  tuple_of_items = λ kws. some (items_code kws);
  tuple_of_two = λ a b. some (a + 10 * b);
}

py-IsPython : IsPython py
py-IsPython = record { hash_checked = λ o. refl }

-- `f(7, x=2, y=3)` and `f(7, y=3, x=2)`
made : make_key py 7 (some ((1, 2) ∷ (2, 3) ∷ [])) ≡ some (record { hash = 32217; key_obj = 32217 })
unfolding make_key
made = refl

two_orders : SameKeywords py (some ((1, 2) ∷ (2, 3) ∷ [])) (some ((2, 3) ∷ (1, 2) ∷ []))
two_orders = reordered (1, 2) (2, 3) ((2, 3) ∷ []) ((1, 2) ∷ []) refl refl refl

hash_args-make_key_example :
    (make_key py 7 (some ((2, 3) ∷ (1, 2) ∷ []))
      ≡ stored_as (hash_args py 7 (some ((2, 3) ∷ (1, 2) ∷ []))))
    × ((h : HashedArgs ℕ)
        → hash_args py 7 (some ((2, 3) ∷ (1, 2) ∷ [])) ≡ some h
        → as_key (borrowed h) ≡ cache_key h)
hash_args-make_key_example = hash_args-make_key py py-IsPython 7 (some ((2, 3) ∷ (1, 2) ∷ []))

get_args-set_args_example :
    (c' : Cached ℕ ℕ) × (set_args py cached 70 7 (some ((1, 2) ∷ (2, 3) ∷ [])) 3
      ≡ some (c', Done.returned false))
    × IsCached compare_ints 4 c'
    × ((get_args py c' 7 (some ((2, 3) ∷ (1, 2) ∷ [])) 9).1 ≡ Done.returned (some 70))
    × ((probe_args py c' 7 (some ((2, 3) ∷ (1, 2) ∷ [])) 9).1 ≡ Done.returned (true, some 70))
get_args-set_args_example =
    get_args-set_args py py-IsPython compare-IsEquality cached-IsCached 70 3 9 7 _ _
      (record { hash = 32217; key_obj = 32217 }) made two_orders cached-idle cached-alive

call_args-set_args_example :
    (c' : Cached ℕ ℕ) × (c'' : Cached ℕ ℕ) × (set_args py cached 70 7
        (some ((1, 2) ∷ (2, 3) ∷ []))
        3
      ≡ some (c', Done.returned false))
    × (call_args py failing c' 7 (some ((2, 3) ∷ (1, 2) ∷ [])) 9 12 ≡ some (c'', Done.returned 70))
    × IsCached compare_ints 4 c''
call_args-set_args_example =
    call_args-set_args py py-IsPython compare-IsEquality cached-IsCached 70 3 9 12 failing 7 _ _
      (record { hash = 32217; key_obj = 32217 }) made two_orders cached-idle cached-alive

abbrev lone : BorrowedArgs ℕ
lone = record { hash = 5; ptr = 1 }

abbrev raising : ℕ → ℕ → Compare
raising a b = raised

abbrev py_raising : Python ℕ
py_raising = record py { rich_compare = raising }

abbrev one_entry : Map ℕ ℕ
one_entry = (key_b, fresh 20 1) ∷ []

find-get_example :
    (find (λ p j. equivalent py_raising p lone j) false one_entry
      ≡ probed (Map.get raising one_entry (as_key lone)))
    × (find (λ p j. equivalent py_raising p lone j) true one_entry ≡ (true, none))
    × (find (λ p j. cache_key_eq py_raising p (as_key lone) j) false one_entry
        ≡ find (λ p j. equivalent py_raising p lone j) false one_entry)
find-get_example = find-get py_raising lone one_entry

-- a cache of one entry, which is full
abbrev full_cache : Cached ℕ ℕ
full_cache = record {
  shards = λ i. record { map = one_entry; order = key_b ∷ []; hand = 0; capacity = 1 };
  n_shards = 1;
  shard_mask = 0;
  ttl = none;
  max_size = 1;
  hits = 0;
  misses = 0;
  active = false;
}

full-raises : Map.get raising (shard_of raising full_cache key_a).map key_a ≡ failed
unfolding Map.get Map.key_eq
full-raises = refl

set-Overflowed_example :
    (c' : Cached ℕ ℕ) × (set raising full_cache key_a 30 4 ≡ some (c', true))
    × Overflowed (shard_of raising full_cache key_a) key_a 30 4 (shard_of raising c' key_a)
set-Overflowed_example = set-Overflowed raising full_cache key_a 30 4 refl full-raises (omega arith)
