-- ===== src/Shm/Cache/Insert.antt =====
-- `insert_inner` of src/shm/mod.rs on a well-formed cache.
use warp_cache.Base.{
  ℕ, ◌+◌, ◌%◌, ◌^◌, ◌≤◌, ◌<◌, ◌≡◌, ◌≢◌, inl, inr, refl, sym, ap, subst, ◌∙◌, arith, ℕ_discrete,
  Option-cases, none, some, List, [], ◌∷◌, ◌++◌, ℤ, pos, length, slice, copy_to, slice-copy_to,
}
use native.Mathlib.Nat.{mod-eq_of_lt}
use warp_cache.Shm.Layout.{Header, Slot, slot_none}
use warp_cache.Shm.HashTable.{ht_lookup}
use warp_cache.Shm.HashTable.Laws.{stored_key, length-slice}
use warp_cache.Shm.Ordering.List.{On}
use warp_cache.Shm.Ordering.Members.{snoc-Taken}
use warp_cache.Shm.Ordering.Frame.{body}
use warp_cache.Shm.Region.{Region}
use warp_cache.Shm.Cache.{
  ShmCache, set_slot, value_of, update_entry, allocated, allocate, write_entry, link_entry,
  insert_entry, insert_inner,
}
use warp_cache.Shm.Cache.Table.{lookup_slot, slot_of_lookup}
use warp_cache.Shm.Cache.Invariant.{IsCache}
use warp_cache.Shm.Cache.Stages.{touch, space_small}
use warp_cache.Shm.Cache.Entries.{link, rewrite_entry, key_kept}
use warp_cache.Shm.Cache.Allocate.{Allocates, allocate-Allocates}

-- The slot `i` of the list holds the value under the hash and the key.
pub record Binds (r : Region) (xs : List ℕ) (key_hash : ℕ) (key value : List ℕ) (i : ℕ)
    : Type 0 where
  pub on : On i xs
  pub hash : (r.slots i).key_hash ≡ key_hash
  pub key_bytes : stored_key (r.slots i) ≡ key
  pub value_bytes : value_of (r.slots i) ≡ value

-- What an insertion leaves: the new value, at the time `now`, and of the other entries some or all.
pub record Inserts (capacity n space : ℕ) (c : ShmCache) (xs : List ℕ) (now key_hash : ℕ)
    (key value : List ℕ) (c' : ShmCache) : Type 0 where
  pub result : insert_inner c now key_hash key value ≡ some c'
  pub list : List ℕ
  pub free : List ℕ
  pub cache : IsCache capacity n space c'.region list free []
  pub index : ℕ
  pub binds : Binds c'.region list key_hash key value index
  pub created : (c'.region.slots index).created_at_nanos ≡ now
  pub ttl : c'.region.header.ttl_nanos ≡ c.region.header.ttl_nanos
  pub others :
      (h : ℕ) (k v : List ℕ) (i : ℕ)
      → ¬ ((h ≡ key_hash) × (k ≡ key))
      → Binds c'.region list h k v i
      → Binds c.region xs h k v i

entry_key :
    (b : ℕ → ℕ) (key value : List ℕ)
    → length key < 2 ^ 32
    → slice (copy_to (copy_to b 0 key) (length key) value) 0 (length key % 2 ^ 32) ≡ key
entry_key b key value small =
    ap (λ z. slice (copy_to (copy_to b 0 key) (length key) value) 0 z) (mod-eq_of_lt small)
    ∙ (key_kept (copy_to b 0 key) (length key) value ∙ slice-copy_to b 0 key)

entry_value :
    (b : ℕ → ℕ) (at : ℕ) (value : List ℕ)
    → at < 2 ^ 32
    → length value < 2 ^ 32
    → slice (copy_to b at value) (at % 2 ^ 32) (length value % 2 ^ 32) ≡ value
entry_value b at value low small =
    ap (λ z. slice (copy_to b at value) z (length value % 2 ^ 32)) (mod-eq_of_lt low)
    ∙ (ap (λ z. slice (copy_to b at value) at z) (mod-eq_of_lt small) ∙ slice-copy_to b at value)

-- Bindings carry over between slots of equal body.
pub Binds-frame :
    {r r' : Region} {xs xs' : List ℕ} {h : ℕ} {k v : List ℕ} {i : ℕ}
    → body (r'.slots i) ≡ body (r.slots i)
    → On i xs
    → Binds r' xs' h k v i
    → Binds r xs h k v i
Binds-frame e on b = record {
  on = on;
  hash = sym (ap (λ (s : Slot). s.key_hash) e) ∙ b.hash;
  key_bytes = sym (ap (λ (s : Slot). stored_key s) e) ∙ b.key_bytes;
  value_bytes = sym (ap (λ (s : Slot). value_of s) e) ∙ b.value_bytes;
}

module _ (c : ShmCache) (now key_hash : ℕ) (key value : List ℕ) where
  abbrev new_slot : Slot → Slot
  new_slot s = record {
    key_hash = key_hash;
    created_at_nanos = now;
    visited = 0;
    unique_id = c.next_unique_id;
    occupied = 1;
    key_len = length key % 2 ^ 32;
    value_len = length value % 2 ^ 32;
    prev = slot_none;
    next = slot_none;
    bytes = copy_to (copy_to s.bytes 0 key) (length key) value;
  }

  -- the slot in hand with the new entry, and the cache with it on the list
  abbrev written : Region → ℕ → Region
  written r i = set_slot r (pos i) (new_slot (r.slots i))

  abbrev entered : Region → ℕ → ShmCache
  entered r i = record {
    region = link_entry (written r i) (pos i) key_hash;
    next_unique_id = (c.next_unique_id + 1) % 2 ^ 64;
  }

  insert_entry_run :
      (r : Region) (i : ℕ)
      → allocate c.region ≡ some (allocated r (pos i))
      → insert_entry c now key_hash key value ≡ some (entered r i)
  unfolding insert_entry write_entry
  insert_entry_run r i run = rw (insert_entry, run) refl

  absent_run :
      ht_lookup c.region.buckets c.region.header.ht_capacity c.region.slots key_hash key ≡ none
      → insert_inner c now key_hash key value ≡ insert_entry c now key_hash key value
  unfolding insert_inner
  absent_run miss = rw (insert_inner, miss) refl

  present_run :
      (index : ℤ)
      → ht_lookup c.region.buckets c.region.header.ht_capacity c.region.slots key_hash key
        ≡ some index
      → insert_inner c now key_hash key value
        ≡ some (record c { region = update_entry c.region index now value })
  unfolding insert_inner
  present_run index found = rw (insert_inner, found) refl

  module _ {capacity n space : ℕ} {xs ys : List ℕ}
      (cache : IsCache capacity n space c.region xs ys [])
      (sized : length key + length value ≤ space) where
    small : (length key < 2 ^ 32) × (length value < 2 ^ 32)
    small = (omega (arith, space_small cache), omega (arith, space_small cache))

    -- a slot in hand of a cache that does not hold the key
    entered-Inserts :
        (a : Allocates capacity n space c.region xs)
        → ht_lookup c.region.buckets c.region.header.ht_capacity c.region.slots key_hash key ≡ none
        → Inserts capacity n space c xs now key_hash key value (entered a.after a.index)
    unfolding link_entry On
    entered-Inserts a miss =
        let i = a.index in
        let s = new_slot (a.after.slots i) in
        let r = written a.after i in
        let at_i : r.slots i ≡ s = ground arith in
        let other : (j : ℕ) → i ≢ j → r.slots j ≡ a.after.slots j = λ j ne. ground arith in
        let off : ¬ On i a.list = a.cache.placed.apart_zx i (inl refl) in
        let ne_of : (j : ℕ) → On j a.list → i ≢ j =
          λ j o d. off (subst (λ k. On k a.list) (sym d) o) in
        let key_i : stored_key (r.slots i) ≡ key =
          ap (λ (x : Slot). stored_key x) at_i
          ∙ entry_key (a.after.slots i).bytes key value small.0 in
        let new : (j : ℕ)
            → On j a.list
            → (r.slots j).key_hash ≡ (r.slots i).key_hash
            → ¬ (stored_key (r.slots j) ≡ stored_key (r.slots i)) =
          λ j o h k.
            let e = ap body (other j (ne_of j o)) ∙ a.bodies j in
            let hash : (c.region.slots j).key_hash ≡ key_hash =
              sym (ap (λ (x : Slot). x.key_hash) e) ∙ (h ∙ ap (λ (x : Slot). x.key_hash) at_i) in
            let same : stored_key (c.region.slots j) ≡ key =
              sym (ap (λ (x : Slot). stored_key x) e) ∙ (k ∙ key_i) in
            let found =
              subst (λ z. ht_lookup c.region.buckets z c.region.slots key_hash key ≡ some (pos j))
                (sym cache.shape.ht_capacity)
                (lookup_slot cache.table j key_hash key small.0 (a.old j o) hash same) in
            ground arith in
        let linked =
          link i (touch i s a.cache) (subst (λ (x : Slot). x.occupied ≢ 0) (sym at_i) (omega arith))
            (subst (λ (x : Slot). x.key_len + x.value_len ≤ space) (sym at_i)
              (omega (arith, small.0, small.1)))
            new in
        let taken = snoc-Taken i a.list off a.cache.placed.unique_x in
        let r' = link_entry r (pos i) key_hash in
        let bodies : (j : ℕ) → body (r'.slots j) ≡ body (r.slots j) = linked.1.slots in
        record {
          result = absent_run miss ∙ insert_entry_run a.after i a.result;
          list = a.list ++ i ∷ [];
          free = a.free;
          cache =
              subst
                (λ z.
                  IsCache capacity n space (link_entry r (pos i) z) (a.list ++ i ∷ []) a.free [])
                (ap (λ (x : Slot). x.key_hash) at_i) linked.0;
          index = i;
          binds = record {
            on = (taken.there i).1 (inl refl);
            hash = ap (λ (x : Slot). x.key_hash) (bodies i) ∙ ap (λ (x : Slot). x.key_hash) at_i;
            key_bytes = ap (λ (x : Slot). stored_key x) (bodies i) ∙ key_i;
            value_bytes =
                ap (λ (x : Slot). value_of x) (bodies i)
                ∙ (ap (λ (x : Slot). value_of x) at_i
                    ∙ entry_value (copy_to (a.after.slots i).bytes 0 key) (length key) value small.0
                        small.1);
          };
          created =
              ap (λ (x : Slot). x.created_at_nanos) (bodies i)
              ∙ ap (λ (x : Slot). x.created_at_nanos) at_i;
          ttl = ap (λ (x : Header). x.ttl_nanos) linked.1.header ∙ a.ttl;
          others = λ h k v j apart b. elim ((taken.there j).0 b.on) [
            | inl d ↦
                let e = ap (λ z. r.slots z) d ∙ at_i in
                absurd (
                  apart (
                    sym b.hash
                        ∙ (ap (λ (x : Slot). x.key_hash) (bodies j)
                            ∙ ap (λ (x : Slot). x.key_hash) e),
                    sym b.key_bytes
                        ∙ (ap (λ (x : Slot). stored_key x) (bodies j)
                            ∙ (ap (λ z. stored_key (r.slots z)) d ∙ key_i)),
                  ))
            | inr o ↦
                Binds-frame (bodies j ∙ (ap body (other j (ne_of j o)) ∙ a.bodies j)) (a.old j o) b
          ];
        }

    -- the key is there: its entry is overwritten
    updated-Inserts :
        (i : ℕ)
        → On i xs
        → (c.region.slots i).key_hash ≡ key_hash
        → stored_key (c.region.slots i) ≡ key
        → ht_lookup c.region.buckets c.region.header.ht_capacity c.region.slots key_hash key
          ≡ some (pos i)
        → Inserts capacity n space c xs now key_hash key value
            (record c { region = update_entry c.region (pos i) now value })
    updated-Inserts i on hash same found =
        let old = c.region.slots i in
        let s : Slot = record old {
          value_len = length value % 2 ^ 32;
          created_at_nanos = now;
          visited = 1;
          bytes = copy_to old.bytes old.key_len value;
        } in
        let r' = set_slot c.region (pos i) s in
        let at_i : r'.slots i ≡ s = ground arith in
        let other : (j : ℕ) → i ≢ j → r'.slots j ≡ c.region.slots j = λ j ne. ground arith in
        let len : old.key_len ≡ length key =
          sym (length-slice old.bytes 0 old.key_len) ∙ ap length same in
        let kept : stored_key s ≡ stored_key old = key_kept old.bytes old.key_len value in
        let low : length value % 2 ^ 32 ≡ length value = mod-eq_of_lt small.1 in
        record {
          result = present_run (pos i) found;
          list = xs;
          free = ys;
          cache =
              rewrite_entry i s cache (record { hash = refl; key = kept; occupied = refl }) refl
                refl (omega (arith, len, low));
          index = i;
          binds = record {
            on = on;
            hash = ap (λ (x : Slot). x.key_hash) at_i ∙ hash;
            key_bytes = ap (λ (x : Slot). stored_key x) at_i ∙ (kept ∙ same);
            value_bytes =
                ap (λ (x : Slot). value_of x) at_i
                ∙ (ap (λ z. slice (copy_to old.bytes old.key_len value) old.key_len z) low
                    ∙ slice-copy_to old.bytes old.key_len value);
          };
          created = ap (λ (x : Slot). x.created_at_nanos) at_i;
          ttl = refl;
          others = λ h k v j apart b. elim (ℕ_discrete i j) [
            | yes d ↦
                let e = ap (λ z. r'.slots z) (sym d) ∙ at_i in
                absurd (
                  apart (
                    sym b.hash ∙ (ap (λ (x : Slot). x.key_hash) e ∙ hash),
                    sym b.key_bytes ∙ (ap (λ (x : Slot). stored_key x) e ∙ (kept ∙ same)),
                  ))
            | no ne ↦ Binds-frame (ap body (other j ne)) b.on b
          ];
        }

    -- On a well-formed cache and for a key and a value that fit, `insert_inner` ends with a
    -- well-formed cache in which the key holds the value, stamped with the time of the call; what
    -- any other key holds afterwards it held before.
    pub insert_inner-Inserts :
        (c' : ShmCache) × Inserts capacity n space c xs now key_hash key value c'
    insert_inner-Inserts =
        elim (Option-cases
          (ht_lookup c.region.buckets c.region.header.ht_capacity c.region.slots key_hash key)) [
            | inl miss ↦ (_, entered-Inserts (allocate-Allocates ys cache) miss)
            | inr (index, found) ↦
                let (i, on, e, hash, same) = slot_of_lookup cache.table index key_hash key small.0 (
                  subst (λ z. ht_lookup c.region.buckets z c.region.slots key_hash key ≡ some index)
                    cache.shape.ht_capacity found) in
                (_, updated-Inserts i on hash same (found ∙ ap some e))
          ]
