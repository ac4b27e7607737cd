-- ===== src/Shm/Cache/Fetch.antt =====
-- An insertion, and then a read of the key by any process, src/shm/mod.rs.
use warp_cache.Base.{
  ℕ, ◌+◌, ◌-◌, ◌≤◌, ◌≡◌, ◌⊎◌, ap, subst, ◌∙◌, arith, false, Option, some, List, [], length,
}
use warp_cache.Shm.Region.{Region}
use warp_cache.Shm.Cache.{ShmCache, is_expired, ShmGetResult, shm_get, insert_inner}
use warp_cache.Shm.Cache.Invariant.{IsCache}
use warp_cache.Shm.Cache.Stages.{space_small}
use warp_cache.Shm.Cache.Insert.{insert_inner-Inserts}
use warp_cache.Shm.Cache.Get.{shm_get-Gets}

same_result : {A : Type 0} {o : Option A} {a b : A} → o ≡ some a → o ≡ some b → a ≡ b
same_result {o} {a} e e' = ground arith

-- After an insertion into a well-formed cache of a key and a value that fit, `get` of the key is a hit
-- with that value, as long as the lifetime, if there is one, has not passed since.
pub insert_inner-shm_get :
    {capacity n space : ℕ} {xs ys : List ℕ} (c c' : ShmCache) (now later key_hash : ℕ)
    (key value : List ℕ)
    → IsCache capacity n space c.region xs ys []
    → length key + length value ≤ space
    → insert_inner c now key_hash key value ≡ some c'
    → (c.region.header.ttl_nanos ≡ 0) ⊎ (later - now ≤ c.region.header.ttl_nanos)
    → (r : Region) × (shm_get c'.region later key_hash key ≡ some (r, ShmGetResult.hit value))
insert_inner-shm_get c c' now later key_hash key value cache sized run life =
    let (c'', done) = insert_inner-Inserts c now key_hash key value cache sized in
    let same : c'' ≡ c' = same_result done.result run in
    let (r, answer, got) =
      shm_get-Gets c''.region later key_hash key done.cache (omega (arith, space_small cache)) in
    let fresh : is_expired c''.region.header (c''.region.slots done.index) later ≡ false =
      ground (arith, done.ttl, done.created, life) in
    let e : answer ≡ ShmGetResult.hit value = (got.live value).1 (done.index, done.binds, fresh) in
    (
      r,
      subst
          (λ (k : ShmCache). shm_get k.region later key_hash key ≡ some (r, ShmGetResult.hit value))
          same (got.result ∙ ap (λ a. some (r, a)) e),
    )
