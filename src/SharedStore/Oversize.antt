-- ===== src/SharedStore/Oversize.antt =====
-- Keys and values beyond the size limits of src/shared_store.rs.
use warp_cache.Base.{
  ℕ, ◌+◌, ◌%◌, ◌^◌, ◌<◌, ◌≡◌, ◌⊎◌, refl, sym, ap, ◌∙◌, arith, ltb, ◌||◌, true, Option, none, some,
  List, length,
}
use warp_cache.Serde.{Value, Items}
use warp_cache.Shm.Region.{Region}
use warp_cache.Shm.Cache.{record_oversize_skip, shm_info, ShmGetResult, shm_get}
use warp_cache.Shm.Cache.Insert.{Binds-frame}
use warp_cache.Shm.Cache.Get.{Gets, shm_get-Gets}
use warp_cache.SharedStore.{
  Runtime, Outcome, returned, raised, panicked, endless, SharedCachedFunction, skip, to_bytes,
  make_key, store_bytes, deserialize_value, look_up, get, set, cache_info,
}
use warp_cache.SharedStore.Invariant.{IsShared, result_run}
use warp_cache.SharedStore.Memo.{set_run, get_run}
use warp_cache.SharedStore.Ends.{record_oversize_skip-IsCache}

module _ (rt : Runtime) where
  answer_outcome : ShmGetResult → Outcome (Option Value)
  answer_outcome ShmGetResult.miss = returned none
  answer_outcome (ShmGetResult.hit bytes) = elim (deserialize_value rt bytes) [
    | returned v ↦ returned (some v)
    | raised ↦ raised
    | panicked ↦ panicked
    | endless ↦ endless
  ]

  look_up-answer :
      (f : SharedCachedFunction) (now key_hash : ℕ) (key : List ℕ) (r : Region)
      (answer : ShmGetResult)
      → shm_get f.cache.region now key_hash key ≡ some (r, answer)
      → (look_up rt f now key_hash key).1 ≡ answer_outcome answer
  unfolding look_up answer_outcome
  look_up-answer f now key_hash key r ShmGetResult.miss run = rw (look_up, run) refl
  look_up-answer f now key_hash key r (ShmGetResult.hit bytes) run = rw (look_up, run) refl

  module _ {capacity n space : ℕ} (f : SharedCachedFunction)
      (shared : IsShared capacity n space f) where
    -- The counter of skips does not matter to a lookup.
    same_answer :
        (now key_hash : ℕ) (key : List ℕ) (r r' : Region) (a a' : ShmGetResult)
        → Gets capacity n space f.cache.region shared.list now key_hash key r a
        → Gets capacity n space
            (record_oversize_skip f.cache.region)
            shared.list
            now
            key_hash
            key
            r'
            a'
        → a' ≡ a
    unfolding record_oversize_skip
    same_answer now key_hash key r r' (ShmGetResult.hit v) a' got got' =
        let (i, b, fresh) = (got.live v).0 refl in
        (got'.live v).1 (i, Binds-frame refl b.on b, fresh)
    same_answer now key_hash key r r' ShmGetResult.miss ShmGetResult.miss got got' = refl
    same_answer now key_hash key r r' ShmGetResult.miss (ShmGetResult.hit v) got got' =
        let (i, b, fresh) = (got'.live v).0 refl in
        sym ((got.live v).1 (i, Binds-frame refl b.on b, fresh))

    look_up-skip :
        (now key_hash : ℕ) (key : List ℕ)
        → length key < 2 ^ 32
        → (look_up rt (skip f) now key_hash key).1 ≡ (look_up rt f now key_hash key).1
    look_up-skip now key_hash key small =
        let (r, a, got) = shm_get-Gets f.cache.region now key_hash key shared.cache small in
        let (r', a', got') =
          shm_get-Gets (skip f).cache.region now key_hash key
            (record_oversize_skip-IsCache f.cache.region shared.cache) small in
        look_up-answer (skip f) now key_hash key r' a' got'.result
        ∙ (ap answer_outcome (same_answer now key_hash key r r' a a' got got')
            ∙ sym (look_up-answer f now key_hash key r a got.result))

    store_skip :
        (now key_hash : ℕ) (key bytes : List ℕ)
        → (f.max_key_size < length key) ⊎ (f.max_value_size < length bytes)
        → store_bytes rt f now key_hash key bytes ≡ (skip f, returned tt)
    unfolding store_bytes
    store_skip now key_hash key bytes big =
        let e : (ltb f.max_key_size (length key) || ltb f.max_value_size (length bytes)) ≡ true =
          ground arith in
        rw (store_bytes, e) refl

    -- On a well-formed function, if the key or the value is too long, then `set` returns, one more skip is
    -- counted, and for all arguments, the same or others, whose key is shorter than 2^32 bytes, `get`
    -- returns what it would have returned without the `set`.
    pub get-set_oversize :
        (now later : ℕ) (v : Value) (args args' : Items) (kwargs kwargs' : Option Items)
        (key_hash key_hash' : ℕ) (key key' bytes : List ℕ)
        → make_key rt args kwargs ≡ some (key_hash, key)
        → to_bytes rt v ≡ some bytes
        → (f.max_key_size < length key) ⊎ (f.max_value_size < length bytes)
        → make_key rt args' kwargs' ≡ some (key_hash', key')
        → length key' < 2 ^ 32
        → ((set rt f now v args kwargs).1 ≡ returned tt)
          × ((cache_info (set rt f now v args kwargs).0).oversize_skips
              ≡ ((cache_info f).oversize_skips + 1) % 2 ^ 64)
          × ((get rt (set rt f now v args kwargs).0 later args' kwargs').1
              ≡ (get rt f later args' kwargs').1)
    unfolding cache_info shm_info record_oversize_skip
    get-set_oversize now later v args args' kwargs kwargs' key_hash key_hash' key key' bytes keyed
          made big keyed' small =
        let run : set rt f now v args kwargs ≡ (skip f, returned tt) =
          set_run rt args kwargs key_hash key keyed f now v
          ∙ (result_run rt f shared key_hash key now v bytes made
              ∙ store_skip now key_hash key bytes big) in
        let after = ap (λ (x : SharedCachedFunction × Outcome Unit). x.0) run in
        (
          ap (λ (x : SharedCachedFunction × Outcome Unit). x.1) run,
          ap (λ x. (cache_info x).oversize_skips) after,
          ap (λ x. (get rt x later args' kwargs').1) after
              ∙ (ap (λ (x : SharedCachedFunction × Outcome (Option Value)). x.1)
                    (get_run rt args' kwargs' key_hash' key' keyed' (skip f) later)
                  ∙ (look_up-skip later key_hash' key' small
                      ∙ sym (
                          ap (λ (x : SharedCachedFunction × Outcome (Option Value)). x.1)
                            (get_run rt args' kwargs' key_hash' key' keyed' f later)))),
        )
