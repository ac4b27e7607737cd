-- ===== src/SharedStore.antt =====
-- src/shared_store.rs: the decorated function over shared memory. Keys and values are serialized, or
-- pickled where the format has no form for them, and looked up by the hash of the key's bytes.
-- `now` and `later` are the times at which the cache reads the clock.
pub mod Bytes
pub mod Invariant
pub mod Memo
pub mod Ends
pub mod Oversize
use warp_cache.Base.{
  ℕ, ◌+◌, ◌%◌, ◌^◌, Bool, true, false, ◌||◌, ◌==◌, ltb, if◌then◌else◌, Option, none, some, List, [],
  ◌∷◌, length,
}
use warp_cache.Serde
use warp_cache.Serde.{
  Value, none_value, tuple, Items, no_items, item, Utf8, Read, wrap_pickle, pickle_payload,
}
use warp_cache.Shm.Region.{Region, Result}
use warp_cache.Shm.Cache.{
  ShmCache, shm_create_or_open, ShmGetResult, shm_get, insert_inner, clear_inner,
  record_oversize_skip, ShmCacheInfo, shm_info,
}

-- What the module takes from Python and from ahash; `none` for a raised exception.
pub record Runtime : Type 0 where
  pub utf8 : Utf8
  pub sorted : Items → Option Items
  pub dumps : Value → Option (List ℕ)
  pub loads : List ℕ → Option Value
  pub hash_bytes : List ℕ → ℕ

-- How a method ends: it returns, an exception goes to the caller, Rust panics, or a loop of the cache
-- does not end.
pub data Outcome (A : Type 0) : Type 0 where
  returned : A → Outcome A
  raised panicked endless : Outcome A

pub record SharedCachedFunction : Type 0 where
  pub cache : ShmCache
  pub max_key_size : ℕ
  pub max_value_size : ℕ

-- The result of `new`: two `ValueError`s, an `OSError`, or the object.
pub data Created : Type 0 where
  max_size_zero max_size_too_large os_error : Created
  created : SharedCachedFunction → Created

abbrev pub max_shared_max_size : ℕ
max_shared_max_size = 2 ^ 30

-- `files` is what the two files of the name hold.
unfoldable pub new : Option Region → ℕ → Option ℕ → ℕ → ℕ → Created
unfolding shm_create_or_open
new files max_size ttl_nanos max_key_size max_value_size =
    let opened : Created =
      elim (shm_create_or_open files (max_size % 2 ^ 32) (max_key_size % 2 ^ 32)
        (max_value_size % 2 ^ 32) ttl_nanos) [
          | Result.ok cache ↦ created (record {
            cache = cache;
            max_key_size = max_key_size;
            max_value_size = max_value_size;
          })
          | Result.err e ↦ os_error
        ] in
    if max_size == 0
    then max_size_zero
    else (if ltb max_shared_max_size max_size then max_size_too_large else opened)

abbrev pub with_region : SharedCachedFunction → Region → SharedCachedFunction
with_region f r = record f { cache = record f.cache { region = r } }

-- `self.cache.record_oversize_skip()`
abbrev pub skip : SharedCachedFunction → SharedCachedFunction
skip f = with_region f (record_oversize_skip f.cache.region)

module _ (rt : Runtime) where
  -- `serde::serialize`, with pickle as the fallback
  unfoldable pub to_bytes : Value → Option (List ℕ)
  to_bytes v = elim (Serde.serialize rt.utf8 v) [
    | some bs ↦ some bs
    | none ↦ elim (rt.dumps v) [ none ↦ none | some bs ↦ some (wrap_pickle bs) ]
  ]

  -- The object that is the key: the positional arguments, or a pair of them and the sorted keyword
  -- arguments, if there are any.
  unfoldable pub key_object : Items → Option Items → Option Value
  key_object args none = some (tuple args)
  key_object args (some no_items) = some (tuple args)
  key_object args (some (item kw kws)) = elim (rt.sorted (item kw kws)) [
    | none ↦ none
    | some kw_tup ↦ some (tuple (item (tuple args) (item (tuple kw_tup) no_items)))
  ]

  unfoldable pub make_key : Items → Option Items → Option (ℕ × List ℕ)
  unfolding to_bytes key_object
  make_key args kwargs = elim (key_object args kwargs) [
    | none ↦ none
    | some key ↦ elim (to_bytes key) [
      | none ↦ none
      | some key_bytes ↦ some (rt.hash_bytes key_bytes, key_bytes)
    ]
  ]

  -- The end of `store_result`, with the value's bytes.
  unfoldable pub store_bytes :
      SharedCachedFunction → ℕ → ℕ → List ℕ → List ℕ → SharedCachedFunction × Outcome Unit
  store_bytes f now key_hash key_bytes value_bytes =
      let inserted : SharedCachedFunction × Outcome Unit =
        elim (insert_inner f.cache now key_hash key_bytes value_bytes) [
          | none ↦ (f, endless)
          | some c ↦ (record f { cache = c }, returned tt)
        ] in
      if ltb f.max_key_size (length key_bytes) || ltb f.max_value_size (length value_bytes)
      then (skip f, returned tt)
      else inserted

  unfoldable pub store_result :
      SharedCachedFunction → ℕ → ℕ → List ℕ → Value → SharedCachedFunction × Outcome Unit
  unfolding to_bytes store_bytes
  store_result f now key_hash key_bytes result = elim (to_bytes result) [
    | none ↦ (f, raised)
    | some value_bytes ↦ store_bytes f now key_hash key_bytes value_bytes
  ]

  -- The pickle fallback of `deserialize_value`.
  unfoldable pub unpickle : Option (List ℕ) → Outcome Value
  unpickle none = panicked
  unpickle (some payload) = elim (rt.loads payload) [ none ↦ raised | some v ↦ returned v ]

  unfoldable pub deserialize_value : List ℕ → Outcome Value
  unfolding unpickle
  deserialize_value bytes = elim (Serde.deserialize rt.utf8 bytes) [
    | Read.ok v ↦ returned v
    | Read.nothing ↦ unpickle (pickle_payload bytes)
    | Read.value_error ↦ raised
    | Read.out_of_fuel ↦ endless
  ]

  -- The lookup of `__call__`, `get` and `_probe`, with the value of a hit.
  unfoldable pub look_up :
      SharedCachedFunction → ℕ → ℕ → List ℕ → SharedCachedFunction × Outcome (Option Value)
  unfolding deserialize_value
  look_up f now key_hash key_bytes = elim (shm_get f.cache.region now key_hash key_bytes) [
    | none ↦ (f, endless)
    | some (r, ShmGetResult.miss) ↦ (with_region f r, returned none)
    | some (r, ShmGetResult.hit vb) ↦ (
      with_region f r,
      elim (deserialize_value vb) [
        | returned v ↦ returned (some v)
        | raised ↦ raised
        | panicked ↦ panicked
        | endless ↦ endless
      ],
    )
  ]

  -- `get`
  unfoldable pub get :
      SharedCachedFunction
      → ℕ
      → Items
      → Option Items
      → SharedCachedFunction × Outcome (Option Value)
  unfolding make_key look_up
  get f now args kwargs = elim (make_key args kwargs) [
    | none ↦ (f, raised)
    | some (key_hash, key_bytes) ↦ look_up f now key_hash key_bytes
  ]

  -- The pair of `_probe`, from what `get` returns.
  unfoldable pub probed : Outcome (Option Value) → Outcome (Bool × Value)
  probed (returned none) = returned (false, none_value)
  probed (returned (some v)) = returned (true, v)
  probed raised = raised
  probed panicked = panicked
  probed endless = endless

  unfoldable pub probe :
      SharedCachedFunction
      → ℕ
      → Items
      → Option Items
      → SharedCachedFunction × Outcome (Bool × Value)
  unfolding get probed
  probe f now args kwargs = ((get f now args kwargs).0, probed (get f now args kwargs).1)

  unfoldable pub set :
      SharedCachedFunction → ℕ → Value → Items → Option Items → SharedCachedFunction × Outcome Unit
  unfolding make_key store_result
  set f now value args kwargs = elim (make_key args kwargs) [
    | none ↦ (f, raised)
    | some (key_hash, key_bytes) ↦ store_result f now key_hash key_bytes value
  ]

  -- What `__call__` does behind a miss, from what the wrapped function leaves and returns, `none` if it raised.
  unfoldable pub call_miss :
      SharedCachedFunction × Option Value → ℕ → ℕ → List ℕ → SharedCachedFunction × Outcome Value
  unfolding store_result
  call_miss (f, none) later key_hash key_bytes = (f, raised)
  call_miss (f, some result) later key_hash key_bytes =
      let stored = store_result f later key_hash key_bytes result in
      (
        stored.0,
        elim stored.1 [
          | returned u ↦ returned result
          | raised ↦ raised
          | panicked ↦ panicked
          | endless ↦ endless
        ],
      )

  -- `__call__` with a key that fits, behind the lookup
  unfoldable pub call_found :
      (SharedCachedFunction → SharedCachedFunction × Option Value)
      → SharedCachedFunction × Outcome (Option Value)
      → ℕ
      → ℕ
      → List ℕ
      → SharedCachedFunction × Outcome Value
  unfolding call_miss
  call_found function (f, returned (some v)) later key_hash key_bytes = (f, returned v)
  call_found function (f, returned none) later key_hash key_bytes =
      call_miss (function f) later key_hash key_bytes
  call_found function (f, raised) later key_hash key_bytes = (f, raised)
  call_found function (f, panicked) later key_hash key_bytes = (f, panicked)
  call_found function (f, endless) later key_hash key_bytes = (f, endless)

  -- A key that is too long: the skip is counted, and the wrapped function is all.
  unfoldable pub call_oversize :
      (SharedCachedFunction → SharedCachedFunction × Option Value)
      → SharedCachedFunction
      → SharedCachedFunction × Outcome Value
  call_oversize function f = (
    (function (skip f)).0,
    elim (function (skip f)).1 [ none ↦ raised | some result ↦ returned result ],
  )

  -- `__call__`; the wrapped function may use the cache itself.
  unfoldable pub call :
      (SharedCachedFunction → SharedCachedFunction × Option Value)
      → SharedCachedFunction
      → ℕ
      → ℕ
      → Items
      → Option Items
      → SharedCachedFunction × Outcome Value
  unfolding make_key look_up call_found call_oversize
  call function f now later args kwargs = elim (make_key args kwargs) [
    | none ↦ (f, raised)
    | some (key_hash, key_bytes) ↦
        let found =
          call_found function (look_up f now key_hash key_bytes) later key_hash key_bytes in
        let oversize = call_oversize function f in
        if ltb f.max_key_size (length key_bytes) then oversize else found
  ]

unfoldable pub cache_info : SharedCachedFunction → ShmCacheInfo
unfolding shm_info
cache_info f = shm_info f.cache.region

unfoldable pub cache_clear : SharedCachedFunction → SharedCachedFunction
unfolding clear_inner
cache_clear f = with_region f (clear_inner f.cache.region)
