-- ===== src/Tests/Function.antt =====
-- A cache of at most 4 entries that live for 10 ticks, on integer keys.
use warp_cache.Base.{
  ℕ, suc, ◌+◌, ◌≤◌, ◌<◌, ◌≡◌, refl, arith, true, false, Option, none, some, length,
}
use warp_cache.Base.Pow2.{next_power_of_two}
use warp_cache.Store.Map
use warp_cache.Store.Map.{Key, SieveEntry, found, absent}
use warp_cache.Store.Shard.{Shard}
use warp_cache.Store.Function.{
  Cached, new, expired, Done, returned, shard_index, shard_of, with_shard, count_miss, call,
  store_result, set,
}
use warp_cache.Store.Function.Laws.{IsCached, Stores, set-Stores}
use warp_cache.Store.Function.Calls.{Missing}
use warp_cache.Store.Function.Whole.{call-IsCached}
use warp_cache.Store.Function.Sharding.{IsCount, room, sharding_bounds}
use warp_cache.Store.Order.{store_result-queue}
use warp_cache.Tests.Store.{compare_ints, compare-IsEquality, key_a}

abbrev pub cached : Cached ℕ ℕ
cached = new 4 (some 10)

pub cached-IsCached : IsCached compare_ints 4 cached
unfolding new Map.get next_power_of_two
cached-IsCached = record {
  shards = λ i. record { covered = λ k e h. absurd (ground arith); distinct = tt };
  positive = omega arith;
  capacity = λ i. refl;
  within = λ i. omega arith;
}

pub cached-idle : cached.active ≡ false
unfolding new
cached-idle = refl

pub cached-alive : expired cached.ttl 3 9 ≡ false
unfolding new expired
cached-alive = refl

-- a wrapped function that raises
abbrev pub failing : Cached ℕ ℕ → Cached ℕ ℕ × Option ℕ
failing c = (c, none)

call-IsCached_example :
    (c' : Cached ℕ ℕ) × (d : Done ℕ) × (call compare_ints failing cached key_a 9 12 ≡ some (c', d))
    × IsCached compare_ints 4 c'
call-IsCached_example =
    call-IsCached compare-IsEquality failing cached key_a 9 12 (λ c valid. valid) cached-IsCached

cached-Missing :
    Missing compare-IsEquality cached-IsCached key_a 3
      (Map.get compare_ints (shard_of compare_ints cached key_a).map key_a)
unfolding new Map.get
cached-Missing = tt

sharding_bounds_example :
    IsCount (new {Obj = ℕ} {V = ℕ} 17 none).n_shards
    × ((i : ℕ) → 1 ≤ 17 → 1 ≤ ((new {Obj = ℕ} {V = ℕ} 17 none).shards i).capacity)
    × (17 ≤ room (new {Obj = ℕ} {V = ℕ} 17 none).shards (new {Obj = ℕ} {V = ℕ} 17 none).n_shards)
    × (room (new {Obj = ℕ} {V = ℕ} 17 none).shards (new {Obj = ℕ} {V = ℕ} 17 none).n_shards
        < 17 + (new {Obj = ℕ} {V = ℕ} 17 none).n_shards)
    × (shard_index compare_ints (new {Obj = ℕ} {V = ℕ} 17 none) key_a
        < (new {Obj = ℕ} {V = ℕ} 17 none).n_shards)
sharding_bounds_example = sharding_bounds ℕ compare_ints 17 none key_a

filled :
    (c' : Cached ℕ ℕ) × (set compare_ints cached key_a 70 3 ≡ some (c', false))
    × Stores compare-IsEquality cached-IsCached key_a 70 3 c'
filled = set-Stores compare-IsEquality cached-IsCached key_a 70 3 cached-idle

abbrev later : Cached ℕ ℕ
later = filled.0

later-expired : expired later.ttl 3 50 ≡ true
unfolding new expired
later-expired = rw (filled.2.ttl) refl

store_result-queue_example :
    (s' : Shard ℕ ℕ) × (store_result compare_ints later key_a 80 50
      ≡ some (count_miss compare_ints (with_shard compare_ints later key_a s'), returned 80))
    × (length s'.map ≡ length (shard_of compare_ints later key_a).map)
    × (length s'.order ≡ suc (length (shard_of compare_ints later key_a).order))
store_result-queue_example =
    store_result-queue compare-IsEquality later key_a 80 50 filled.2.valid' filled.2.stored
      later-expired
