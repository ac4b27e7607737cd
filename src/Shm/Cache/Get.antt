-- ===== src/Shm/Cache/Get.antt =====
-- `get` of src/shm/mod.rs on a well-formed cache: what it returns, and what it leaves.
use warp_cache.Base.{
  ℕ, ◌+◌, ◌%◌, ◌^◌, ◌<◌, ◌≡◌, ◌≢◌, ◌↔◌, inl, inr, refl, sym, ap, subst, ◌∙◌, arith, Bool, true,
  false, Bool-cases, if◌then◌else◌, ℕ_discrete, Option-cases, Option, none, some, List, [], ◌∷◌, ℤ,
  pos, length, bytes_eq, bytes_eq_refl,
}
use warp_cache.Shm.HashTable.{ht_lookup}
use warp_cache.Shm.HashTable.Laws.{stored_key}
use warp_cache.Shm.Ordering.List.{On}
use warp_cache.Shm.Ordering.Frame.{body}
use warp_cache.Shm.Region.{Region}
use warp_cache.Shm.Cache.{
  set_slot, value_of, is_expired, expired, OptimisticResult, ShmGetResult, miss, add_hit, add_miss,
  expire, remove_slot, get_finish, shm_get,
}
use warp_cache.Shm.Cache.Table.{lookup_slot, slot_of_lookup}
use warp_cache.Shm.Cache.Invariant.{IsCache}
use warp_cache.Shm.Cache.Entries.{rewrite_entry}
use warp_cache.Shm.Cache.Insert.{Binds, Binds-frame}
use warp_cache.Shm.Cache.Remove.{Removes, remove_slot-Removes}
use warp_cache.Shm.Cache.Lookup.{read_slot, ht_lookup_checked-ht_lookup}

-- What `get` of the hash and the key does: it ends, with the value of the entry and the time that the
-- entry has not outlived, or with a miss, and in both cases the cache is well-formed and binds nothing new.
pub record Gets (capacity n space : ℕ) (r : Region) (xs : List ℕ) (now key_hash : ℕ) (key : List ℕ)
    (r' : Region) (answer : ShmGetResult) : Type 0 where
  pub result : shm_get r now key_hash key ≡ some (r', answer)
  pub list : List ℕ
  pub free : List ℕ
  pub cache : IsCache capacity n space r' list free []
  pub ttl : r'.header.ttl_nanos ≡ r.header.ttl_nanos
  pub kept : (h : ℕ) (k v : List ℕ) (i : ℕ) → Binds r' list h k v i → Binds r xs h k v i
  pub live :
      (v : List ℕ)
      → (answer ≡ ShmGetResult.hit v)
        ↔ ((i : ℕ) × Binds r xs key_hash key v i × (is_expired r.header (r.slots i) now ≡ false))

-- The counters of hits and misses do not matter to a cache.
pub tally :
    {capacity n space : ℕ} (r : Region) {xs ys zs : List ℕ} (hits misses : ℕ)
    → IsCache capacity n space r xs ys zs
    → IsCache capacity n space
        (record r { header = record r.header { hits = hits; misses = misses } })
        xs
        ys
        zs
tally r hits misses c = record {
  positive = c.positive;
  bounded = c.bounded;
  shape = record {
    capacity = c.shape.capacity;
    ht_capacity = c.shape.ht_capacity;
    space = c.shape.space;
  };
  table = c.table;
  list = c.list;
  free = c.free;
  placed = c.placed;
  size = c.size;
  fits = c.fits;
  hand = c.hand;
  unused = c.unused;
}

module _ (r : Region) (now key_hash : ℕ) (key : List ℕ) where
  abbrev found : Option ℤ
  found = ht_lookup r.buckets r.header.ht_capacity r.slots key_hash key

  abbrev visited : ℕ → Region
  visited i = set_slot r (pos i) (record (r.slots i) { visited = 1 })

  module _ {capacity n space : ℕ} {xs ys : List ℕ} (c : IsCache capacity n space r xs ys [])
      (small : length key < 2 ^ 32) where
    get_run :
        (o : Option ℤ)
        → found ≡ o
        → shm_get r now key_hash key ≡ get_finish r key_hash key (read_slot r now o)
    unfolding shm_get
    get_run o e =
        ap (λ x. get_finish r key_hash key x)
          (ht_lookup_checked-ht_lookup now key_hash key c ∙ ap (λ x. read_slot r now x) e)

    bound_found : (v : List ℕ) (i : ℕ) → Binds r xs key_hash key v i → found ≡ some (pos i)
    bound_found v i b =
        subst (λ k. ht_lookup r.buckets k r.slots key_hash key ≡ some (pos i))
          (sym c.shape.ht_capacity)
          (lookup_slot c.table i key_hash key small b.on b.hash b.key_bytes)

    absent-Gets : found ≡ none → Gets capacity n space r xs now key_hash key (add_miss r) miss
    unfolding read_slot get_finish
    absent-Gets e = record {
      result = get_run none e;
      list = xs;
      free = ys;
      cache = tally r r.header.hits ((r.header.misses + 1) % 2 ^ 64) c;
      ttl = refl;
      kept = λ h k v i b. Binds-frame refl b.on b;
      live =
          λ v. ((λ d. ground arith), (λ (i, b, fresh). let f = bound_found v i b in ground arith));
    }

    module _ (i : ℕ) (on : On i xs) (hash : (r.slots i).key_hash ≡ key_hash)
        (same : stored_key (r.slots i) ≡ key) (e : found ≡ some (pos i)) where
      the_slot : (v : List ℕ) (j : ℕ) → Binds r xs key_hash key v j → i ≡ j
      the_slot v j b = ground (arith, bound_found v j b, e)

      same_body : (j : ℕ) → body ((visited i).slots j) ≡ body (r.slots j)
      same_body j = elim (ℕ_discrete i j) [
        | yes d ↦
            ap body (
              let at : (visited i).slots j ≡ record (r.slots i) { visited = 1 } = ground arith in
              at)
            ∙ ap (λ k. body (r.slots k)) d
        | no ne ↦ ap body (let at : (visited i).slots j ≡ r.slots j = ground arith in at)
      ]

      abbrev reads : Bool → OptimisticResult
      reads old =
          if old then expired (pos i) else OptimisticResult.hit (value_of (r.slots i)) (pos i)

      read_slot-reads :
          {b : Bool}
          → is_expired r.header (r.slots i) now ≡ b
          → read_slot r now (some (pos i)) ≡ reads b
      unfolding read_slot
      read_slot-reads e = ap reads e

      fresh-Gets :
          is_expired r.header (r.slots i) now ≡ false
          → Gets capacity n space r xs now key_hash key
              (add_hit (visited i))
              (ShmGetResult.hit (value_of (r.slots i)))
      unfolding read_slot get_finish
      fresh-Gets fresh = record {
        result =
            get_run (some (pos i)) e
            ∙ ap (λ x. get_finish r key_hash key x) (read_slot-reads fresh);
        list = xs;
        free = ys;
        cache = tally (visited i) ((r.header.hits + 1) % 2 ^ 64) r.header.misses (
            rewrite_entry i (record (r.slots i) { visited = 1 }) c
              (record { hash = refl; key = refl; occupied = refl }) refl refl (c.fits i on));
        ttl = refl;
        kept = λ h k v j b. Binds-frame (same_body j) b.on b;
        live = λ v. (
          (λ d. (
            i,
            record { on = on; hash = hash; key_bytes = same; value_bytes = ground arith },
            fresh,
          )),
          (λ (j, b, _).
              ap (λ x. ShmGetResult.hit x)
                (ap (λ k. value_of (r.slots k)) (the_slot v j b) ∙ b.value_bytes)),
        );
      }

      expire_run :
          (x : Removes capacity n space r xs ys i) → expire r (pos i) key_hash key ≡ some x.after
      unfolding expire
      expire_run x =
          let run : remove_slot r (pos i) key ≡ some x.after =
            subst (λ k. remove_slot r (pos i) k ≡ some x.after) same x.result in
          let test : bytes_eq (stored_key (r.slots i)) key ≡ true =
            subst (λ k. bytes_eq (stored_key (r.slots i)) k ≡ true) same
              (bytes_eq_refl (stored_key (r.slots i))) in
          let used = c.table.live i on in ground arith

      expired-Gets :
          is_expired r.header (r.slots i) now ≡ true
          → (x : Removes capacity n space r xs ys i)
          → Gets capacity n space r xs now key_hash key (add_miss x.after) miss
      unfolding read_slot get_finish On
      expired-Gets old x =
          let gone : (j : ℕ) → On j x.list → i ≢ j =
            λ j o d. x.taken.fresh (subst (λ k. On k x.list) (sym d) o) in
          record {
            result =
                get_run (some (pos i)) e
                ∙ (ap (λ o. get_finish r key_hash key o) (read_slot-reads old)
                    ∙ rw (get_finish, expire_run x) refl);
            list = x.list;
            free = i ∷ ys;
            cache =
                tally x.after x.after.header.hits ((x.after.header.misses + 1) % 2 ^ 64) x.cache;
            ttl = x.ttl;
            kept = λ h k v j b.
                Binds-frame (x.bodies j (gone j b.on)) ((x.taken.there j).1 (inr b.on)) b;
            live = λ v. (
              (λ d. ground arith),
              (λ (j, b, fresh).
                  let d = the_slot v j b in
                  ground (arith, subst (λ k. is_expired r.header (r.slots k) now ≡ true) d old)),
            );
          }

    -- On a well-formed cache and for a key shorter than 2^32 bytes, `get` ends, with a well-formed cache
    -- that binds nothing new. It is a hit with the value `v` exactly if an entry held `v` under the hash and the key and was not expired.
    pub shm_get-Gets :
        (r' : Region) × (answer : ShmGetResult) × Gets capacity n space r xs now key_hash key r'
          answer
    shm_get-Gets = elim (Option-cases found) [
      | inl none_found ↦ (_, _, absent-Gets none_found)
      | inr (index, f) ↦
          let (i, on, e, hash, same) = slot_of_lookup c.table index key_hash key small (
            subst (λ k. ht_lookup r.buckets k r.slots key_hash key ≡ some index) c.shape.ht_capacity
              f) in
          let at = f ∙ ap some e in
          elim (Bool-cases (is_expired r.header (r.slots i) now)) [
            | inl old ↦ (_, _, expired-Gets i on hash same at old (remove_slot-Removes i c on))
            | inr fresh ↦ (_, _, fresh-Gets i on hash same at fresh)
          ]
    ]
