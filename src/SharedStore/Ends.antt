-- ===== src/SharedStore/Ends.antt =====
-- The ends of the methods of src/shared_store.rs, and what they leave.
use warp_cache.Base.{
  ℕ, ◌^◌, ◌≤◌, ◌<◌, ◌≡◌, ◌≢◌, inl, inr, refl, sym, subst, arith, ltb, ◌||◌, Bool-cases,
  Option-cases, Option, none, some, List, length,
}
use warp_cache.Serde.{Value, Items, pickle_payload}
use warp_cache.Serde.Decode.{deserialize_ends}
use warp_cache.Shm.Region.{Region}
use warp_cache.Shm.Cache.{record_oversize_skip, ShmGetResult, shm_get}
use warp_cache.Shm.Cache.Invariant.{IsCache}
use warp_cache.Shm.Cache.Stages.{space_small}
use warp_cache.Shm.Cache.Insert.{insert_inner-Inserts}
use warp_cache.Shm.Cache.Get.{shm_get-Gets}
use warp_cache.SharedStore.{
  Runtime, Outcome, returned, raised, panicked, endless, SharedCachedFunction, skip, to_bytes,
  store_bytes, make_key, store_result, unpickle, deserialize_value, look_up, set, call_miss,
  call_found, call_oversize, call,
}
use warp_cache.SharedStore.Invariant.{IsShared, stored_run, look_up-IsShared}

-- What a method leaves: a well-formed function, and an end.
abbrev pub Ends : {A : Type 0} → ℕ → ℕ → ℕ → SharedCachedFunction × Outcome A → Type 0
Ends capacity n space x = IsShared capacity n space x.0 × (x.1 ≢ endless)

-- What the wrapped function's own use of the cache leaves.
pub record Kept (capacity n space : ℕ) (f f' : SharedCachedFunction) : Type 0 where
  pub valid : IsShared capacity n space f'
  pub same_key_size : f'.max_key_size ≡ f.max_key_size
  pub same_value_size : f'.max_value_size ≡ f.max_value_size
  pub same_ttl : f'.cache.region.header.ttl_nanos ≡ f.cache.region.header.ttl_nanos

abbrev pub Keeps : ℕ → ℕ → ℕ → (SharedCachedFunction → SharedCachedFunction × Option Value) → Type 0
Keeps capacity n space function =
    (f : SharedCachedFunction)
    → IsShared capacity n space f
    → Kept capacity n space f (function f).0

-- The counter of skips does not matter to a cache.
pub record_oversize_skip-IsCache :
    {capacity n space : ℕ} (r : Region) {xs ys zs : List ℕ}
    → IsCache capacity n space r xs ys zs
    → IsCache capacity n space (record_oversize_skip r) xs ys zs
unfolding record_oversize_skip
record_oversize_skip-IsCache r c = record {
  positive = c.positive;
  bounded = c.bounded;
  shape = record {
    capacity = c.shape.capacity;
    ht_capacity = c.shape.ht_capacity;
    space = c.shape.space;
  };
  table = c.table;
  list = c.list;
  free = c.free;
  placed = c.placed;
  size = c.size;
  fits = c.fits;
  hand = c.hand;
  unused = c.unused;
}

skip-IsShared :
    {capacity n space : ℕ} (f : SharedCachedFunction)
    → IsShared capacity n space f
    → IsShared capacity n space (skip f)
skip-IsShared f s = record {
  list = s.list;
  free = s.free;
  room = s.room;
  cache = record_oversize_skip-IsCache f.cache.region s.cache;
}

module _ (rt : Runtime) where
  unpickle_ends : (o : Option (List ℕ)) → unpickle rt o ≢ endless
  unfolding unpickle
  unpickle_ends none e = ground arith
  unpickle_ends (some p) e = elim (Option-cases (rt.loads p)) [
    | inl f ↦ ground arith
    | inr (v, f) ↦ ground arith
  ]

  deserialize_value_ends : (bytes : List ℕ) → deserialize_value rt bytes ≢ endless
  unfolding deserialize_value
  deserialize_value_ends bytes e =
      ground (arith, deserialize_ends rt.utf8 bytes, unpickle_ends (pickle_payload bytes))

  module _ {capacity n space : ℕ} (f : SharedCachedFunction) (shared : IsShared capacity n space f)
      (now key_hash : ℕ) (key : List ℕ) where
    store_bytes-Ends :
        (bytes : List ℕ) → Ends capacity n space (store_bytes rt f now key_hash key bytes)
    unfolding store_bytes
    store_bytes-Ends bytes =
        elim (Bool-cases (ltb f.max_key_size (length key) || ltb f.max_value_size (length bytes))) [
          | inl big ↦ rw (store_bytes, big) (skip-IsShared f shared, λ e. ground arith)
          | inr fits ↦
              let fit_k : length key ≤ f.max_key_size = ground arith in
              let fit_v : length bytes ≤ f.max_value_size = ground arith in
              let (c, done) =
                insert_inner-Inserts f.cache now key_hash key bytes shared.cache
                  (omega (arith, shared.room)) in
              subst (λ x. Ends capacity n space x)
                (sym (stored_run rt f shared key_hash key c now bytes fit_k fit_v done.result))
                (
                  record {
                    list = done.list;
                    free = done.free;
                    cache = done.cache;
                    room = shared.room;
                  },
                  λ e. ground arith,
                )
        ]

    store_result-Ends : (v : Value) → Ends capacity n space (store_result rt f now key_hash key v)
    unfolding store_result
    store_result-Ends v = elim (Option-cases (to_bytes rt v)) [
      | inl e ↦ rw (store_result, e) (shared, λ d. ground arith)
      | inr (bytes, e) ↦ rw (store_result, e) (store_bytes-Ends bytes)
    ]

    look_up-Ends : length key < 2 ^ 32 → Ends capacity n space (look_up rt f now key_hash key)
    unfolding look_up
    look_up-Ends small =
        let (r, answer, got) = shm_get-Gets f.cache.region now key_hash key shared.cache small in
        ((look_up-IsShared rt f shared key_hash key now small).0, go r answer got.result)
      where
        go :
            (r : Region) (answer : ShmGetResult)
            → shm_get f.cache.region now key_hash key ≡ some (r, answer)
            → (look_up rt f now key_hash key).1 ≢ endless
        go r ShmGetResult.miss run e = ground arith
        go r (ShmGetResult.hit bytes) run e = ground (arith, deserialize_value_ends bytes)

  call_miss-Ends :
      {capacity n space : ℕ} (x : SharedCachedFunction × Option Value) (later key_hash : ℕ)
      (key : List ℕ)
      → IsShared capacity n space x.0
      → Ends capacity n space (call_miss rt x later key_hash key)
  unfolding call_miss
  call_miss-Ends (f, none) later key_hash key s = (s, λ e. ground arith)
  call_miss-Ends (f, some v) later key_hash key s =
      let (s', ne) = store_result-Ends f s later key_hash key v in (s', λ e. ground arith)

  module _ {capacity n space : ℕ}
      (function : SharedCachedFunction → SharedCachedFunction × Option Value)
      (keeps : Keeps capacity n space function) where
    call_oversize-Ends :
        (f : SharedCachedFunction)
        → IsShared capacity n space f
        → Ends capacity n space (call_oversize rt function f)
    unfolding call_oversize
    call_oversize-Ends f s =
        ((keeps (skip f) (skip-IsShared f s)).valid, ended (function (skip f)).1)
      where
        ended :
            (o : Option Value) → elim o [ none ↦ raised | some result ↦ returned result ] ≢ endless
        ended none e = ground arith
        ended (some v) e = ground arith

    call_found-Ends :
        (x : SharedCachedFunction × Outcome (Option Value)) (later key_hash : ℕ) (key : List ℕ)
        → Ends capacity n space x
        → Ends capacity n space (call_found rt function x later key_hash key)
    unfolding call_found
    call_found-Ends (f, returned (some v)) later key_hash key (s, ne) = (s, λ e. ground arith)
    call_found-Ends (f, returned none) later key_hash key (s, ne) =
        call_miss-Ends (function f) later key_hash key (keeps f s).valid
    call_found-Ends (f, raised) later key_hash key (s, ne) = (s, λ e. ground arith)
    call_found-Ends (f, panicked) later key_hash key (s, ne) = (s, λ e. ground arith)
    call_found-Ends (f, endless) later key_hash key (s, ne) = absurd (ne refl)

    -- On a well-formed function, and whatever the wrapped function does with the cache, as long as it leaves a
    -- well-formed one well-formed, with its limits and its lifetime: `__call__` comes to an end, whatever the arguments
    -- are and whether the wrapped function returns or raises, and leaves a well-formed function.
    pub call-IsShared :
        (f : SharedCachedFunction) (now later : ℕ) (args : Items) (kwargs : Option Items)
        → IsShared capacity n space f
        → IsShared capacity n space (call rt function f now later args kwargs).0
          × ((call rt function f now later args kwargs).1 ≢ endless)
    unfolding call
    call-IsShared f now later args kwargs shared = elim (Option-cases (make_key rt args kwargs)) [
      | inl e ↦ rw (call, e) (shared, λ d. ground arith)
      | inr ((h, k), e) ↦ elim (Bool-cases (ltb f.max_key_size (length k))) [
        | inl big ↦ rw (call, e, big) (call_oversize-Ends f shared)
        | inr fits ↦
            let small : length k < 2 ^ 32 = ground (arith, space_small shared.cache, shared.room) in
            rw (call, e, fits)
              (call_found-Ends (look_up rt f now h k) later h k
                (look_up-Ends f shared now h k small))
      ]
    ]

  -- On a well-formed function `set` comes to an end, for every value and all arguments, and leaves a
  -- well-formed function.
  pub set-IsShared :
      {capacity n space : ℕ} (f : SharedCachedFunction) (now : ℕ) (v : Value) (args : Items)
      (kwargs : Option Items)
      → IsShared capacity n space f
      → IsShared capacity n space (set rt f now v args kwargs).0
        × ((set rt f now v args kwargs).1 ≢ endless)
  unfolding set
  set-IsShared f now v args kwargs shared = elim (Option-cases (make_key rt args kwargs)) [
    | inl e ↦ rw (set, e) (shared, λ d. ground arith)
    | inr ((h, k), e) ↦ rw (set, e) (store_result-Ends f shared now h k v)
  ]
