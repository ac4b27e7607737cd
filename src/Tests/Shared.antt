-- ===== src/Tests/Shared.antt =====
-- A decorated function over the new cache; a pickled object is a byte with its number.
use warp_cache.Base.{
  ℕ, ◌+◌, ◌%◌, ◌^◌, ◌≡◌, ◌≢◌, inl, inr, refl, sym, arith, true, Option, none, some, List, [], ◌∷◌,
  length, pos,
}
use warp_cache.Serde.{
  Value, none_value, int, bool, tuple, other, Items, no_items, item, serialize, item_count,
  wrap_pickle,
}
use warp_cache.Shm.HashTable.{start_index}
use warp_cache.Shm.Region.{init_buckets}
use warp_cache.Serde.Words.{i64_bits, to_le_bytes}
use warp_cache.Shm.Cache.{shm_config, clear_inner, ht_lookup_checked, shm_get}
use warp_cache.Serde.Format.{IsSized}
use warp_cache.SharedStore.{
  Runtime, returned, endless, SharedCachedFunction, to_bytes, key_object, make_key, look_up, get,
  set, call, cache_info, cache_clear,
}
use warp_cache.SharedStore.Bytes.{restored, Unpickles}
use warp_cache.SharedStore.Invariant.{IsShared, cache_clear-IsShared}
use warp_cache.SharedStore.Memo.{get-set, call-call}
use warp_cache.SharedStore.Ends.{Keeps, call-IsShared}
use warp_cache.SharedStore.Oversize.{get-set_oversize}
use warp_cache.Tests.Cache.{blank, no_lifetime, blank-IsCache}

plain_decode : (s bs : List ℕ) → some s ≡ some bs → some bs ≡ some s
plain_decode s bs h = sym h

abbrev dumps : Value → Option (List ℕ)
dumps (other n) = some (n ∷ [])
dumps _ = none

abbrev loads : List ℕ → Option Value
loads (n ∷ bs) = some (other n)
loads [] = none

abbrev rt : Runtime
rt = record {
  utf8 = record { encode = λ s. some s; decode = λ bs. some bs; decode_encode = plain_decode };
  sorted = λ kws. some kws;
  dumps = dumps;
  loads = loads;
  hash_bytes = λ bs. length bs;
}

rt-Unpickles : Unpickles rt
rt-Unpickles (other n) bs e = ground arith
rt-Unpickles none_value bs e = absurd (ground arith)
rt-Unpickles (bool b) bs e = absurd (ground arith)
rt-Unpickles (int z) bs e = absurd (ground arith)
rt-Unpickles (Value.float w) bs e = absurd (ground arith)
rt-Unpickles (Value.str w) bs e = absurd (ground arith)
rt-Unpickles (Value.bytes w) bs e = absurd (ground arith)
rt-Unpickles (tuple vs) bs e = absurd (ground arith)
rt-Unpickles (Value.subclass c v) bs e = absurd (ground arith)

abbrev shared : SharedCachedFunction
shared = record { cache = blank; max_key_size = 4; max_value_size = 8 }

shared-IsShared : IsShared 2 4 12 shared
shared-IsShared = record { list = []; free = _; cache = blank-IsCache; room = omega arith }

-- `f(True)`
abbrev args : Items
args = item (bool true) no_items

keyed : make_key rt args none ≡ some (3, 8 ∷ 1 ∷ 3 ∷ [])
unfolding make_key key_object to_bytes serialize item_count
keyed = refl

pickled : to_bytes rt (other 7) ≡ some (0 ∷ 7 ∷ [])
unfolding to_bytes serialize wrap_pickle
pickled = refl

other-IsSized : IsSized rt.utf8 (other 7)
unfolding IsSized
other-IsSized = tt

get-set_example :
    ((set rt shared 50 (other 7) args none).1 ≡ returned tt)
    × ((get rt (set rt shared 50 (other 7) args none).0 60 args none).1
        ≡ returned (some (restored (serialize rt.utf8 (other 7)) (other 7))))
get-set_example =
    get-set rt args none 3 (8 ∷ 1 ∷ 3 ∷ []) keyed shared (other 7) (0 ∷ 7 ∷ []) shared-IsShared
      rt-Unpickles other-IsSized pickled (omega arith) (omega arith) 50 60 (inl no_lifetime)

misses : (get rt shared 40 args none).1 ≡ returned none
unfolding get look_up shm_get ht_lookup_checked serialize item_count init_buckets shm_config
    start_index
misses = refl

-- a wrapped function that clears its own cache, and one that raises
abbrev clearing : SharedCachedFunction → SharedCachedFunction × Option Value
clearing f = (cache_clear f, some (other 7))

abbrev failing : SharedCachedFunction → SharedCachedFunction × Option Value
failing f = (f, none)

clearing-Keeps : Keeps 2 4 12 clearing
unfolding cache_clear clear_inner
clearing-Keeps f s = record {
  valid = (cache_clear-IsShared f s).0;
  same_key_size = refl;
  same_value_size = refl;
  same_ttl = refl;
}

call-call_example :
    ((call rt clearing shared 40 50 args none).1 ≡ returned (other 7))
    × ((call rt failing (call rt clearing shared 40 50 args none).0 60 70 args none).1
        ≡ returned (restored (serialize rt.utf8 (other 7)) (other 7)))
call-call_example =
    call-call rt args none 3 (8 ∷ 1 ∷ 3 ∷ []) keyed shared (other 7) (0 ∷ 7 ∷ []) shared-IsShared
      rt-Unpickles other-IsSized pickled (omega arith) (omega arith) clearing 40 50 60 70 failing
      clearing-Keeps misses refl (inl no_lifetime)

call-IsShared_example :
    IsShared 2 4 12 (call rt clearing shared 40 50 args none).0
    × ((call rt clearing shared 40 50 args none).1 ≢ endless)
call-IsShared_example =
    call-IsShared rt clearing clearing-Keeps shared 40 50 args none shared-IsShared

-- the tuple of one integer takes 11 bytes
abbrev long_value : Value
long_value = tuple (item (int (pos 1)) no_items)

long_bytes : to_bytes rt long_value ≡ some (8 ∷ 1 ∷ 4 ∷ 1 ∷ 0 ∷ 0 ∷ 0 ∷ 0 ∷ 0 ∷ 0 ∷ 0 ∷ [])
unfolding to_bytes serialize item_count i64_bits to_le_bytes
long_bytes = refl

get-set_oversize_example :
    ((set rt shared 50 long_value args none).1 ≡ returned tt)
    × ((cache_info (set rt shared 50 long_value args none).0).oversize_skips
        ≡ ((cache_info shared).oversize_skips + 1) % 2 ^ 64)
    × ((get rt (set rt shared 50 long_value args none).0 60 args none).1
        ≡ (get rt shared 60 args none).1)
get-set_oversize_example =
    get-set_oversize rt shared shared-IsShared 50 60 long_value args args none none 3 3
      (8 ∷ 1 ∷ 3 ∷ []) (8 ∷ 1 ∷ 3 ∷ []) (8 ∷ 1 ∷ 4 ∷ 1 ∷ 0 ∷ 0 ∷ 0 ∷ 0 ∷ 0 ∷ 0 ∷ 0 ∷ []) keyed
      long_bytes (inr (omega arith)) keyed (omega arith)
