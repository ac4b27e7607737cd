-- ===== src/SharedStore/Invariant.antt =====
-- A decorated function of src/shared_store.rs over a well-formed cache: creation, insertion, lookup, clearing.
use warp_cache.Base.{
  ℕ, ◌+◌, ◌-◌, ◌^◌, ◌≤◌, ◌<◌, ◌≡◌, ◌⊎◌, refl, sym, ap, subst, ◌∙◌, arith, false, ltb, some, List,
  [], length,
}
use warp_cache.Serde
use warp_cache.Serde.{Value}
use warp_cache.Serde.Format.{IsSized}
use warp_cache.Shm.Region.{Region}
use warp_cache.Shm.Region.Fresh.{upto}
use warp_cache.Shm.Cache.{ShmCache, ShmGetResult, shm_get, insert_inner}
use warp_cache.Shm.Cache.Invariant.{IsCache}
use warp_cache.Shm.Cache.Insert.{insert_inner-Inserts}
use warp_cache.Shm.Cache.Get.{shm_get-Gets}
use warp_cache.Shm.Cache.Clear.{clear_inner-IsCache}
use warp_cache.Shm.Cache.Fetch.{insert_inner-shm_get}
use warp_cache.SharedStore.{
  Runtime, Outcome, SharedCachedFunction, with_region, to_bytes, store_bytes, store_result,
  deserialize_value, look_up, cache_clear,
}
use warp_cache.SharedStore.Bytes.{restored, Unpickles, deserialize_value-to_bytes}

-- The cache is well-formed, and what `store_result` accepts fits into a slot.
pub record IsShared (capacity n space : ℕ) (f : SharedCachedFunction) : Type 0 where
  pub list : List ℕ
  pub free : List ℕ
  pub cache : IsCache capacity n space f.cache.region list free []
  pub room : f.max_key_size + f.max_value_size ≤ space

module _ (rt : Runtime) {capacity n space : ℕ} (f : SharedCachedFunction)
    (shared : IsShared capacity n space f) (key_hash : ℕ) (key : List ℕ) where
  pub stored_run :
      (c : ShmCache) (now : ℕ) (value : List ℕ)
      → length key ≤ f.max_key_size
      → length value ≤ f.max_value_size
      → insert_inner f.cache now key_hash key value ≡ some c
      → store_bytes rt f now key_hash key value ≡ (record f { cache = c }, Outcome.returned tt)
  unfolding store_bytes
  stored_run c now value fit_k fit_v run =
      let a : ltb f.max_key_size (length key) ≡ false = ground arith in
      let b : ltb f.max_value_size (length value) ≡ false = ground arith in
      rw (store_bytes, a, b, run) refl

  pub result_run :
      (now : ℕ) (v : Value) (bytes : List ℕ)
      → to_bytes rt v ≡ some bytes
      → store_result rt f now key_hash key v ≡ store_bytes rt f now key_hash key bytes
  unfolding store_result
  result_run now v bytes made = rw (store_result, made) refl

  hit_run :
      (now : ℕ) (r : Region) (bytes : List ℕ) (v : Value)
      → shm_get f.cache.region now key_hash key ≡ some (r, ShmGetResult.hit bytes)
      → deserialize_value rt bytes ≡ Outcome.returned v
      → look_up rt f now key_hash key ≡ (with_region f r, Outcome.returned (some v))
  unfolding look_up
  hit_run now r bytes v run read = rw (look_up, run, read) refl

  -- the value is stored, and found for its lifetime
  pub record Stores (now : ℕ) (v : Value) (f' : SharedCachedFunction) : Type 0 where
    pub result : store_result rt f now key_hash key v ≡ (f', Outcome.returned tt)
    pub after : IsShared capacity n space f'
    pub sizes : (f'.max_key_size ≡ f.max_key_size) × (f'.max_value_size ≡ f.max_value_size)
    pub found :
        (later : ℕ)
        → (f.cache.region.header.ttl_nanos ≡ 0) ⊎ (later - now ≤ f.cache.region.header.ttl_nanos)
        → (f'' : SharedCachedFunction) × (look_up rt f' later key_hash key
            ≡ (f'', Outcome.returned (some (restored (Serde.serialize rt.utf8 v) v))))

module _ (rt : Runtime) {capacity n space : ℕ} (f : SharedCachedFunction)
    (shared : IsShared capacity n space f) (key_hash : ℕ) (key : List ℕ) where
  pub store_result-Stores :
      (now : ℕ) (v : Value) (bytes : List ℕ)
      → Unpickles rt
      → IsSized rt.utf8 v
      → to_bytes rt v ≡ some bytes
      → length key ≤ f.max_key_size
      → length bytes ≤ f.max_value_size
      → (f' : SharedCachedFunction) × Stores rt f shared key_hash key now v f'
  store_result-Stores now v bytes unpickles sized made fit_k fit_v =
      let fits : length key + length bytes ≤ space = omega (arith, shared.room) in
      let (c, done) = insert_inner-Inserts f.cache now key_hash key bytes shared.cache fits in
      let f' : SharedCachedFunction = record f { cache = c } in
      let after : IsShared capacity n space f' = record {
        list = done.list;
        free = done.free;
        cache = done.cache;
        room = shared.room;
      } in
      (
        f',
        record {
          result =
              result_run rt f shared key_hash key now v bytes made
              ∙ stored_run rt f shared key_hash key c now bytes fit_k fit_v done.result;
          after = after;
          sizes = (refl, refl);
          found = λ later life.
              let (r, run) =
                insert_inner-shm_get f.cache c now later key_hash key bytes shared.cache fits
                  done.result life in
              (
                with_region f' r,
                hit_run rt f' after key_hash key later r bytes _ run
                    (deserialize_value-to_bytes rt v bytes unpickles sized made),
              );
        },
      )

  look_run :
      (now : ℕ) (r : Region) (answer : ShmGetResult)
      → shm_get f.cache.region now key_hash key ≡ some (r, answer)
      → (look_up rt f now key_hash key).0 ≡ with_region f r
  unfolding look_up
  look_run now r (ShmGetResult.hit bytes) run = rw (look_up, run) refl
  look_run now r ShmGetResult.miss run = rw (look_up, run) refl

  -- A lookup leaves a well-formed function.
  pub look_up-IsShared :
      (now : ℕ)
      → length key < 2 ^ 32
      → IsShared capacity n space (look_up rt f now key_hash key).0
        × ((look_up rt f now key_hash key).0.max_key_size ≡ f.max_key_size)
        × ((look_up rt f now key_hash key).0.max_value_size ≡ f.max_value_size)
        × ((look_up rt f now key_hash key).0.cache.region.header.ttl_nanos
            ≡ f.cache.region.header.ttl_nanos)
  look_up-IsShared now small =
      let (r, answer, got) = shm_get-Gets f.cache.region now key_hash key shared.cache small in
      let e = look_run now r answer got.result in
      (
        subst (λ x. IsShared capacity n space x) (sym e)
            (record { list = got.list; free = got.free; cache = got.cache; room = shared.room }),
        ap (λ (x : SharedCachedFunction). x.max_key_size) e,
        ap (λ (x : SharedCachedFunction). x.max_value_size) e,
        ap (λ (x : SharedCachedFunction). x.cache.region.header.ttl_nanos) e ∙ got.ttl,
      )

-- After `cache_clear` the function is well-formed, and the cache has no entry.
pub cache_clear-IsShared :
    {capacity n space : ℕ} (f : SharedCachedFunction)
    → IsShared capacity n space f
    → (after : IsShared capacity n space (cache_clear f)) × (after.list ≡ [])
unfolding cache_clear
cache_clear-IsShared f s = (
  record {
    list = [];
    free = upto 0 _;
    cache = clear_inner-IsCache f.cache.region s.cache;
    room = s.room;
  },
  refl,
)
