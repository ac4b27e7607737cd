-- ===== src/Store/Function.antt =====
-- `CachedFunction`: the shards, the reentrancy flag and the counters; its methods behind the
-- computation of the key (`hash_args`, `make_key`), which Python does. A method runs at a time `now`.
pub mod Laws
pub mod Sharding
pub mod Calls
pub mod Whole
pub mod Info
pub mod Pending
use warp_cache.Base.{
  ℕ, zero, suc, ◌+◌, ◌-◌, ◌*◌, ◌/◌, ◌%◌, ◌^◌, min, max, bit_and, Bool, true, false, ltb,
  if◌then◌else◌, Option, none, some, List, [], ◌∷◌, length, update,
}
use warp_cache.Base.Pow2.{next_power_of_two}
use warp_cache.Store.Map
use warp_cache.Store.Map.{
  Compare, pending_compare, Key, SieveEntry, Map, Probe, found, absent, failed,
}
use warp_cache.Store.Shard.{Shard, set_visited, insert_new, fresh}

abbrev pub max_shards : ℕ
max_shards = 16

abbrev pub min_shard_size : ℕ
min_shard_size = 8

pub record Cached (Obj V : Type 0) : Type 0 where
  pub shards : ℕ → Shard Obj V
  pub n_shards : ℕ
  pub shard_mask : ℕ
  pub ttl : Option ℕ
  pub max_size : ℕ
  pub hits : ℕ
  pub misses : ℕ
  pub active : Bool

-- `(max_size / MIN_SHARD_SIZE).clamp(1, MAX_SHARDS).next_power_of_two().min(MAX_SHARDS)`
unfoldable pub shard_count : ℕ → ℕ
shard_count max_size =
    min (next_power_of_two (min (max (max_size / min_shard_size) 1) max_shards)) max_shards

-- `max_size.div_ceil(n_shards)`
unfoldable pub per_shard : ℕ → ℕ
unfolding shard_count
per_shard max_size = (max_size + (shard_count max_size - 1)) / shard_count max_size

unfoldable pub new : {Obj V : Type 0} → ℕ → Option ℕ → Cached Obj V
unfolding shard_count per_shard
new max_size ttl = record {
  shards = λ i. record { map = []; order = []; hand = 0; capacity = per_shard max_size };
  n_shards = shard_count max_size;
  shard_mask = shard_count max_size - 1;
  ttl = ttl;
  max_size = max_size;
  hits = 0;
  misses = 0;
  active = false;
}

-- `created_at.elapsed() > ttl`; the clock does not go back
unfoldable pub expired : Option ℕ → ℕ → ℕ → Bool
expired none created_at now = false
expired (some ttl) created_at now = ltb ttl (now - created_at)

-- What the map lookup of a read finds, with the lifetime checked.
pub data Lookup (V : Type 0) : Type 0 where
  hit : V → Lookup V
  miss raise : Lookup V

-- The fast path of `__call__`: a hit, or a run of the wrapped function, after a miss or past a cache
-- that is in use (`entered` is false), or the exception of a comparison.
pub data Begun (V : Type 0) : Type 0 where
  hit : V → Begun V
  run : (entered : Bool) → Begun V
  raise : Begun V

pub data Done (V : Type 0) : Type 0 where
  returned : V → Done V
  raised : Done V

module _ {Obj V : Type 0} (rich_compare : Obj → Obj → Compare) where
  -- `hash as usize & shard_mask`
  unfoldable pub shard_index : Cached Obj V → Key Obj → ℕ
  shard_index c key = bit_and (key.hash % 2 ^ 64) c.shard_mask

  abbrev pub shard_of : Cached Obj V → Key Obj → Shard Obj V
  shard_of c key = c.shards (shard_index c key)

  abbrev pub with_shard : Cached Obj V → Key Obj → Shard Obj V → Cached Obj V
  with_shard c key s = record c { shards = update c.shards (shard_index c key) s }

  -- `entry.visited.store(true)`
  abbrev pub mark : Cached Obj V → Key Obj → Cached Obj V
  mark c key = with_shard c key (record (shard_of c key) {
    map = Map.modify rich_compare (set_visited true) (shard_of c key).map key;
  })

  abbrev pub count_hit : Cached Obj V → Cached Obj V
  count_hit c = record c { hits = (c.hits + 1) % 2 ^ 64 }

  abbrev pub count_miss : Cached Obj V → Cached Obj V
  count_miss c = record c { misses = (c.misses + 1) % 2 ^ 64 }

  unfoldable pub call_begin : Cached Obj V → Key Obj → ℕ → Cached Obj V × Begun V
  unfolding expired shard_index
  call_begin c key now =
      let probe : Cached Obj V × Begun V = elim (Map.get rich_compare (shard_of c key).map key) [
        | found e ↦
            if expired c.ttl e.created_at now
            then (c, run true)
            else (count_hit (mark c key), Begun.hit e.value)
        | absent ↦ (c, run true)
        | failed ↦ (c, Begun.raise)
      ] in
      if c.active then (c, run false) else probe

  -- the double check under the write guard, and the insertion
  unfoldable pub store_result : Cached Obj V → Key Obj → V → ℕ → Option (Cached Obj V × Done V)
  unfolding expired shard_index
  store_result c key result now =
      let s = shard_of c key in
      let insertion : Option (Cached Obj V × Done V) =
        elim (insert_new rich_compare (record s { map = Map.remove rich_compare s.map key }) key
          result now) [
            | none ↦ none
            | some s' ↦ some (count_miss (with_shard c key s'), returned result)
          ] in
      elim (Map.get rich_compare s.map key) [
        | found e ↦
            if expired c.ttl e.created_at now
            then insertion
            else some (count_miss c, returned result)
        | absent ↦ insertion
        | failed ↦ some (c, raised)
      ]

  -- The slow path of `__call__`, on the state that the wrapped function left.
  unfoldable pub call_finish :
      Cached Obj V → Key Obj → Bool → V → ℕ → Option (Cached Obj V × Done V)
  unfolding store_result
  call_finish c key entered result now =
      if entered
      then (if c.active
          then some (count_miss c, returned result)
          else store_result c key result now)
      else some (count_miss c, returned result)

  -- `__call__`. The wrapped function returns a value or raises, and may call back into the cache: it
  -- maps the cache to a new one, and takes the clock from `now` to `later`.
  unfoldable pub call :
      (Cached Obj V → Cached Obj V × Option V)
      → Cached Obj V
      → Key Obj
      → ℕ
      → ℕ
      → Option (Cached Obj V × Done V)
  unfolding call_begin call_finish
  call function c key now later = elim (call_begin c key now).1 [
    | hit v ↦ some ((call_begin c key now).0, returned v)
    | raise ↦ some ((call_begin c key now).0, raised)
    | run entered ↦ elim (function (call_begin c key now).0).1 [
      | none ↦ some ((function (call_begin c key now).0).0, raised)
      | some result ↦ call_finish (function (call_begin c key now).0).0 key entered result later
    ]
  ]

  -- the common body of `get` and `_probe`
  unfoldable pub read : Cached Obj V → Key Obj → ℕ → Cached Obj V × Lookup V
  unfolding expired shard_index
  read c key now =
      let probe : Cached Obj V × Lookup V = elim (Map.get rich_compare (shard_of c key).map key) [
        | found e ↦
            if expired c.ttl e.created_at now
            then (count_miss c, Lookup.miss)
            else (count_hit (mark c key), Lookup.hit e.value)
        | absent ↦ (count_miss c, Lookup.miss)
        | failed ↦ (c, Lookup.raise)
      ] in
      if c.active then (count_miss c, Lookup.miss) else probe

  -- The new cache, and whether an exception is left pending behind the `Ok(())`.
  unfoldable pub set : Cached Obj V → Key Obj → V → ℕ → Option (Cached Obj V × Bool)
  unfolding shard_index
  set c key value now =
      let s = shard_of c key in
      let insertion : (Obj → Obj → Compare) → Bool → Option (Cached Obj V × Bool) =
        λ compare pending. elim (insert_new compare s key value now) [
          | none ↦ none
          | some s' ↦ some (with_shard c key s', pending)
        ] in
      let stored : Option (Cached Obj V × Bool) = elim (Map.get rich_compare s.map key) [
        | found e ↦ some (
          with_shard c key (record s { map = Map.insert rich_compare s.map key (fresh value now) }),
          false,
        )
        | absent ↦ insertion rich_compare false
        | failed ↦ insertion pending_compare true
      ] in
      if c.active then some (c, false) else stored

pub record CacheInfo : Type 0 where
  pub hits : ℕ
  pub misses : ℕ
  pub max_size : ℕ
  pub current_size : ℕ

module _ {Obj V : Type 0} where
  unfoldable pub total_size : (ℕ → Shard Obj V) → ℕ → ℕ
  total_size shards zero = 0
  total_size shards (suc n) = total_size shards n + length (shards n).map

  unfoldable pub cache_info : Cached Obj V → CacheInfo
  unfolding total_size
  cache_info c = record {
    hits = c.hits;
    misses = c.misses;
    max_size = c.max_size;
    current_size = if c.active then 0 else total_size c.shards c.n_shards;
  }

  unfoldable pub cleared : Shard Obj V → Shard Obj V
  cleared s = record s { map = []; order = []; hand = 0 }

  unfoldable pub cache_clear : Cached Obj V → Cached Obj V
  unfolding cleared
  cache_clear c =
      if c.active then c else record c { shards = λ i. cleared (c.shards i); hits = 0; misses = 0 }
