-- ===== src/Shm/Cache/Finish.antt =====
-- The end of a `get` of src/shm/mod.rs whose lookup was validated earlier.
use warp_cache.Base.{
  ℕ, ◌+◌, ◌%◌, ◌^◌, ◌<◌, ◌≡◌, ◌≢◌, inl, inr, refl, sym, ap, subst, ◌∙◌, arith, ◌==◌, ◌&&◌, not,
  Bool, true, false, Bool-cases, Option-cases, ℕ_discrete, some, List, [], ◌∷◌, ℤ, pos, length,
  bytes_eq, eq_of_bytes_eq,
}
use warp_cache.Shm.Layout.{Slot, slot_none}
use warp_cache.Shm.HashTable.{ht_lookup}
use warp_cache.Shm.HashTable.Laws.{stored_key}
use warp_cache.Shm.Ordering.List.{On}
use warp_cache.Shm.Ordering.Unlink.{Linked-frame}
use warp_cache.Shm.Ordering.Frame.{body}
use warp_cache.Shm.Region.{Region}
use warp_cache.Shm.Cache.{
  arena_of, set_slot, value_of, is_expired, OptimisticResult, not_found, expired, ShmGetResult,
  miss, add_hit, add_miss, remove_slot, expire, get_finish, ht_lookup_checked,
}
use warp_cache.Shm.Cache.Table.{slot_of_lookup}
use warp_cache.Shm.Cache.Invariant.{IsCache}
use warp_cache.Shm.Cache.Stages.{rearena}
use warp_cache.Shm.Cache.Insert.{Binds, Binds-frame}
use warp_cache.Shm.Cache.Remove.{Removes, remove_slot-Removes}
use warp_cache.Shm.Cache.Lookup.{read_slot, ht_lookup_checked-ht_lookup}
use warp_cache.Shm.Cache.Get.{tally}

-- The index of a result is below the capacity.
unfoldable pub Indexed : ℕ → OptimisticResult → Type 0
Indexed capacity (OptimisticResult.hit v index) = (i : ℕ) × (index ≡ pos i) × (i < capacity)
Indexed capacity not_found = Unit
Indexed capacity (expired index) = (i : ℕ) × (index ≡ pos i) × (i < capacity)

-- What the end of a `get` leaves.
pub record Finishes (capacity n space : ℕ) (r : Region) (xs : List ℕ) (key_hash : ℕ) (key : List ℕ)
    (result : OptimisticResult) (r' : Region) (answer : ShmGetResult) : Type 0 where
  pub run : get_finish r key_hash key result ≡ some (r', answer)
  pub list : List ℕ
  pub free : List ℕ
  pub cache : IsCache capacity n space r' list free []
  pub kept : (h : ℕ) (k v : List ℕ) (i : ℕ) → Binds r' list h k v i → Binds r xs h k v i

module _ {capacity n space : ℕ} (r : Region) {xs ys : List ℕ} (key_hash : ℕ) (key : List ℕ)
    (c : IsCache capacity n space r xs ys []) where
  module _ (i : ℕ) (low : i < capacity) where
    abbrev marked : Region
    marked = set_slot r (pos i) (record (r.slots i) { visited = 1 })

    abbrev Same : Slot → Slot → Type 0
    Same s s' = (body s' ≡ body s) × (s'.prev ≡ s.prev) × (s'.next ≡ s.next)

    marked-Same : (j : ℕ) → Same (r.slots j) (marked.slots j)
    marked-Same j = elim (ℕ_discrete i j) [
      | yes d ↦
          subst (λ x. Same (r.slots x) (marked.slots x)) d
            (let at : marked.slots i ≡ record (r.slots i) { visited = 1 } = ground arith in
              subst (λ s. Same (r.slots i) s) (sym at) (refl, refl, refl))
      | no ne ↦
          let at : marked.slots j ≡ r.slots j = ground arith in
          subst (λ s. Same (r.slots j) s) (sym at) (refl, refl, refl)
    ]

    marked-IsCache : IsCache capacity n space marked xs ys []
    marked-IsCache =
        rearena (arena_of marked) c (record { slots = λ j. (marked-Same j).0; header = refl })
          (Linked-frame r.slots marked.slots slot_none xs r.header.list_head r.header.list_tail
            (λ j o. ((marked-Same j).1, (marked-Same j).2)) c.list)
          (λ j o. (marked-Same j).2) c.hand

    hit-Finishes :
        (v : List ℕ)
        → Finishes capacity n space r xs key_hash key
            (OptimisticResult.hit v (pos i))
            (add_hit marked)
            (ShmGetResult.hit v)
    unfolding get_finish
    hit-Finishes v = record {
      run = refl;
      list = xs;
      free = ys;
      cache = tally marked ((r.header.hits + 1) % 2 ^ 64) r.header.misses marked-IsCache;
      kept = λ h k w j b. Binds-frame (marked-Same j).0 b.on b;
    }

    miss_run :
        (r' : Region)
        → expire r (pos i) key_hash key ≡ some r'
        → get_finish r key_hash key (expired (pos i)) ≡ some (add_miss r', miss)
    unfolding get_finish
    miss_run r' e = rw (get_finish, e) refl

    abbrev verified : Bool
    verified =
        let s = r.slots i in
        not (s.occupied == 0) && (s.key_hash == key_hash && bytes_eq (stored_key s) key)

    skip_run : verified ≡ false → expire r (pos i) key_hash key ≡ some r
    unfolding expire
    skip_run e = ground arith

    remove_run :
        verified ≡ true
        → (x : Removes capacity n space r xs ys i) → expire r (pos i) key_hash key ≡ some x.after
    unfolding expire
    remove_run e x =
        let same : stored_key (r.slots i) ≡ key =
          eq_of_bytes_eq (stored_key (r.slots i)) key
            (let b : bytes_eq (stored_key (r.slots i)) key ≡ true = ground arith in b) in
        let run : remove_slot r (pos i) key ≡ some x.after =
          subst (λ k. remove_slot r (pos i) k ≡ some x.after) same x.result in
        ground arith

    -- an occupied slot is on the list
    on_list : verified ≡ true → On i xs
    unfolding On
    on_list e = elim (c.placed.cover i low) [
      | inl o ↦ o
      | inr (inl o) ↦ absurd (ground (arith, c.unused i o))
      | inr (inr b) ↦ absurd b
    ]

    expired-Finishes :
        (r' : Region) × Finishes capacity n space r xs key_hash key (expired (pos i)) r' miss
    unfolding On
    expired-Finishes = elim (Bool-cases verified) [
      | inr e ↦ (
        add_miss r,
        record {
          run = miss_run r (skip_run e);
          list = xs;
          free = ys;
          cache = tally r r.header.hits ((r.header.misses + 1) % 2 ^ 64) c;
          kept = λ h k v j b. Binds-frame refl b.on b;
        },
      )
      | inl e ↦
          let x = remove_slot-Removes i c (on_list e) in
          let gone : (j : ℕ) → On j x.list → i ≢ j =
            λ j o d. x.taken.fresh (subst (λ k. On k x.list) (sym d) o) in
          (
            add_miss x.after,
            record {
              run = miss_run x.after (remove_run e x);
              list = x.list;
              free = i ∷ ys;
              cache =
                  tally x.after x.after.header.hits ((x.after.header.misses + 1) % 2 ^ 64) x.cache;
              kept = λ h k v j b.
                  Binds-frame (x.bodies j (gone j b.on)) ((x.taken.there j).1 (inr b.on)) b;
            },
          )
    ]

  -- On a well-formed cache the end of a `get` with any result whose index is below the capacity leaves a
  -- well-formed cache that binds nothing new.
  pub get_finish-Finishes :
      (result : OptimisticResult)
      → Indexed capacity result
      → (r' : Region) × (answer : ShmGetResult) × Finishes capacity n space r xs key_hash key result
          r' answer
  unfolding Indexed get_finish
  get_finish-Finishes (OptimisticResult.hit v index) (i, e, low) = (
    _,
    _,
    subst
        (λ k.
          Finishes capacity n space r xs key_hash key (OptimisticResult.hit v k)
            (add_hit (marked i low)) (ShmGetResult.hit v))
        (sym e) (hit-Finishes i low v),
  )
  get_finish-Finishes not_found h = (
    add_miss r,
    miss,
    record {
      run = refl;
      list = xs;
      free = ys;
      cache = tally r r.header.hits ((r.header.misses + 1) % 2 ^ 64) c;
      kept = λ h k v j b. Binds-frame refl b.on b;
    },
  )
  get_finish-Finishes (expired index) (i, e, low) =
      let (r', done) = expired-Finishes i low in
      (
        r',
        miss,
        subst (λ k. Finishes capacity n space r xs key_hash key (expired k) r' miss) (sym e) done,
      )

  read_slot-cases :
      (now i : ℕ)
      → i < capacity
      → Indexed capacity (read_slot r now (some (pos i)))
        × ((v : List ℕ) (index : ℤ)
            → read_slot r now (some (pos i)) ≡ OptimisticResult.hit v index
            → value_of (r.slots i) ≡ v)
  unfolding read_slot Indexed
  read_slot-cases now i low = elim (Bool-cases (is_expired r.header (r.slots i) now)) [
    | inl old ↦ rw old ((i, refl, low), λ v index e. ground arith)
    | inr fresh ↦ rw fresh ((i, refl, low), λ v index e. ground arith)
  ]

  -- On a well-formed cache the index of a lookup is below the capacity, and the value of a hit is bound to
  -- the key.
  pub ht_lookup_checked-Indexed :
      (now : ℕ)
      → length key < 2 ^ 32
      → Indexed capacity (ht_lookup_checked r now key_hash key)
        × ((v : List ℕ) (index : ℤ)
            → ht_lookup_checked r now key_hash key ≡ OptimisticResult.hit v index
            → (i : ℕ) × Binds r xs key_hash key v i)
  unfolding Indexed read_slot
  ht_lookup_checked-Indexed now small =
      let looked = ht_lookup_checked-ht_lookup now key_hash key c in
      elim (Option-cases (ht_lookup r.buckets r.header.ht_capacity r.slots key_hash key)) [
        | inl e ↦
            let nothing = looked ∙ ap (λ o. read_slot r now o) e in
            (subst (λ x. Indexed capacity x) (sym nothing) tt, λ v index d. ground arith)
        | inr (s, e) ↦
            let (i, on, d, hash, same) = slot_of_lookup c.table s key_hash key small (
              subst (λ k. ht_lookup r.buckets k r.slots key_hash key ≡ some s) c.shape.ht_capacity
                e) in
            let found = looked ∙ ap (λ o. read_slot r now o) (e ∙ ap some d) in
            let (low, value) = read_slot-cases now i (c.placed.low_x i on) in
            (
              subst (λ x. Indexed capacity x) (sym found) low,
              λ v index h. (
                i,
                record {
                  on = on;
                  hash = hash;
                  key_bytes = same;
                  value_bytes = value v index (sym found ∙ h);
                },
              ),
            )
      ]
