-- ===== src/SharedStore/Memo.antt =====
-- Calls in a row of the methods of src/shared_store.rs: `set` and `get`, two calls.
use warp_cache.Base.{
  ℕ, ◌-◌, ◌^◌, ◌≤◌, ◌<◌, ◌≡◌, ◌⊎◌, refl, sym, ap, subst, ◌∙◌, arith, ltb, false, Option, none, some,
  List, length,
}
use warp_cache.Serde
use warp_cache.Serde.{Value, Items}
use warp_cache.Serde.Format.{IsSized}
use warp_cache.Shm.Cache.Stages.{space_small}
use warp_cache.SharedStore.{
  Runtime, Outcome, SharedCachedFunction, to_bytes, make_key, store_result, look_up, get, set,
  call_miss, call_found, call,
}
use warp_cache.SharedStore.Bytes.{restored, Unpickles}
use warp_cache.SharedStore.Invariant.{IsShared, store_result-Stores, look_up-IsShared}
use warp_cache.SharedStore.Ends.{Keeps}

-- The lifetime, if there is one, has not passed between the two times.
abbrev pub InLifetime : SharedCachedFunction → ℕ → ℕ → Type 0
InLifetime f now later =
    (f.cache.region.header.ttl_nanos ≡ 0) ⊎ (later - now ≤ f.cache.region.header.ttl_nanos)

module _ (rt : Runtime) (args : Items) (kwargs : Option Items) (key_hash : ℕ) (key : List ℕ)
    (keyed : make_key rt args kwargs ≡ some (key_hash, key)) where
  pub set_run :
      (f : SharedCachedFunction) (now : ℕ) (v : Value)
      → set rt f now v args kwargs ≡ store_result rt f now key_hash key v
  unfolding set
  set_run f now v = rw (set, keyed) refl

  pub get_run :
      (f : SharedCachedFunction) (now : ℕ)
      → get rt f now args kwargs ≡ look_up rt f now key_hash key
  unfolding get
  get_run f now = rw (get, keyed) refl

  call_run :
      (function : SharedCachedFunction → SharedCachedFunction × Option Value)
      (f : SharedCachedFunction) (now later : ℕ)
      → length key ≤ f.max_key_size
      → call rt function f now later args kwargs
        ≡ call_found rt function (look_up rt f now key_hash key) later key_hash key
  unfolding call
  call_run function f now later fits =
      let e : ltb f.max_key_size (length key) ≡ false = ground arith in rw (call, keyed, e) refl

  stored_run :
      (y : SharedCachedFunction × Option Value) (f' : SharedCachedFunction) (later : ℕ) (v : Value)
      → y.1 ≡ some v
      → store_result rt y.0 later key_hash key v ≡ (f', Outcome.returned tt)
      → call_miss rt y later key_hash key ≡ (f', Outcome.returned v)
  unfolding call_miss
  stored_run (f, o) f' later v e stored = rw (e, call_miss, stored) refl

  miss_run :
      (function : SharedCachedFunction → SharedCachedFunction × Option Value)
      (x : SharedCachedFunction × Outcome (Option Value)) (f' : SharedCachedFunction) (later : ℕ)
      (v : Value)
      → x.1 ≡ Outcome.returned none
      → (function x.0).1 ≡ some v
      → store_result rt (function x.0).0 later key_hash key v ≡ (f', Outcome.returned tt)
      → call_found rt function x later key_hash key ≡ (f', Outcome.returned v)
  unfolding call_found
  miss_run function (f, o) f' later v miss e stored =
      rw (miss, call_found) (stored_run (function f) f' later v e stored)

  hit_run :
      (function : SharedCachedFunction → SharedCachedFunction × Option Value)
      (x : SharedCachedFunction × Outcome (Option Value)) (later : ℕ) (v : Value)
      → x.1 ≡ Outcome.returned (some v)
      → (call_found rt function x later key_hash key).1 ≡ Outcome.returned v
  unfolding call_found
  hit_run function (f, o) later v hit = rw (hit, call_found) refl

  module _ {capacity n space : ℕ} (f : SharedCachedFunction) (v : Value) (bytes : List ℕ)
      (shared : IsShared capacity n space f) (unpickles : Unpickles rt) (sized : IsSized rt.utf8 v)
      (made : to_bytes rt v ≡ some bytes) (fit_k : length key ≤ f.max_key_size)
      (fit_v : length bytes ≤ f.max_value_size) where
    -- On a well-formed function, if pickle restores what it has pickled, the sizes in the value fit the
    -- format's fields, and the bytes of the key and the value are within the limits: after `set` the
    -- method `get` with the same arguments returns the value, up to derived classes, as long as it has not
    -- outlived the lifetime.
    pub get-set :
        (now later : ℕ)
        → InLifetime f now later
        → ((set rt f now v args kwargs).1 ≡ Outcome.returned tt)
          × ((get rt (set rt f now v args kwargs).0 later args kwargs).1
              ≡ Outcome.returned (some (restored (Serde.serialize rt.utf8 v) v)))
    get-set now later life =
        let (f', stored) =
          store_result-Stores rt f shared key_hash key now v bytes unpickles sized made fit_k
            fit_v in
        let run = set_run f now v ∙ stored.result in
        let after = ap (λ (x : SharedCachedFunction × Outcome Unit). x.0) run in
        let (f'', found) = stored.found later life in
        (
          ap (λ (x : SharedCachedFunction × Outcome Unit). x.1) run,
          ap (λ x. (get rt x later args kwargs).1) after
              ∙ ap (λ (x : SharedCachedFunction × Outcome (Option Value)). x.1)
                  (get_run f' later ∙ found),
        )

    -- On a well-formed function, if pickle restores what it has pickled, the sizes in the value fit the format's fields,
    -- the bytes of the key and the value are within the limits, and the wrapped function, whatever it does with the
    -- cache, leaves a well-formed one well-formed, with its limits and its lifetime: a call that misses returns what the
    -- wrapped function returned, and a second call with the same arguments returns that value, up to derived classes,
    -- whatever the function would do now, as long as the value has not outlived the lifetime.
    pub call-call :
        (function : SharedCachedFunction → SharedCachedFunction × Option Value)
        (now stored_at later again : ℕ)
        (function' : SharedCachedFunction → SharedCachedFunction × Option Value)
        → Keeps capacity n space function
        → (get rt f now args kwargs).1 ≡ Outcome.returned none
        → (function (get rt f now args kwargs).0).1 ≡ some v
        → InLifetime f stored_at later
        → ((call rt function f now stored_at args kwargs).1 ≡ Outcome.returned v)
          × ((call rt function'
                (call rt function f now stored_at args kwargs).0
                later
                again
                args
                kwargs).1
              ≡ Outcome.returned (restored (Serde.serialize rt.utf8 v) v))
    call-call function now stored_at later again function' keeps miss returns life =
        let small : length key < 2 ^ 32 = omega (arith, space_small shared.cache, shared.room) in
        let x = look_up rt f now key_hash key in
        let (shared', same_k, same_v, same_t) =
          look_up-IsShared rt f shared key_hash key now small in
        let same = get_run f now in
        let miss' : x.1 ≡ Outcome.returned none =
          sym (ap (λ (y : SharedCachedFunction × Outcome (Option Value)). y.1) same) ∙ miss in
        let returns' : (function x.0).1 ≡ some v =
          sym (ap (λ (y : SharedCachedFunction × Outcome (Option Value)). (function y.0).1) same)
          ∙ returns in
        let kept = keeps x.0 shared' in
        let (f', stored) =
          store_result-Stores rt (function x.0).0 kept.valid key_hash key stored_at v bytes
            unpickles sized made (omega (arith, same_k, kept.same_key_size))
            (omega (arith, same_v, kept.same_value_size)) in
        let run : call rt function f now stored_at args kwargs ≡ (f', Outcome.returned v) =
          call_run function f now stored_at fit_k
          ∙ miss_run function x f' stored_at v miss' returns' stored.result in
        let after = ap (λ (y : SharedCachedFunction × Outcome Value). y.0) run in
        let (f'', found) =
          stored.found later
            (subst (λ k. (k ≡ 0) ⊎ (later - stored_at ≤ k)) (sym (kept.same_ttl ∙ same_t)) life) in
        (
          ap (λ (y : SharedCachedFunction × Outcome Value). y.1) run,
          ap (λ y. (call rt function' y later again args kwargs).1) after
              ∙ (ap (λ (y : SharedCachedFunction × Outcome Value). y.1)
                    (call_run function' f' later again
                      (omega (arith, stored.sizes.0, same_k, kept.same_key_size)))
                  ∙ hit_run function' (look_up rt f' later key_hash key) again _
                      (ap (λ (y : SharedCachedFunction × Outcome (Option Value)). y.1) found)),
        )
