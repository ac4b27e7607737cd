-- ===== src/Shm/Cache/Remove.antt =====
-- `remove_slot` of src/shm/mod.rs on a well-formed cache.
use warp_cache.Base.{ℕ, ◌≡◌, ◌≢◌, refl, sym, ap, subst, ◌∙◌, arith, true, some, List, [], ◌∷◌, pos}
use warp_cache.Shm.Layout.{Header, Bucket, Slot, slot_none}
use warp_cache.Shm.HashTable.{ht_remove}
use warp_cache.Shm.HashTable.Laws.{stored_key}
use warp_cache.Shm.Ordering.{list_remove}
use warp_cache.Shm.Ordering.List.{On}
use warp_cache.Shm.Ordering.Members.{Taken}
use warp_cache.Shm.Ordering.Frame.{body}
use warp_cache.Shm.Region.{Region}
use warp_cache.Shm.Cache.{arena_of, with_arena, set_slot, free_at, remove_slot}
use warp_cache.Shm.Cache.Invariant.{IsCache}
use warp_cache.Shm.Cache.Stages.{detached, detach, touch, put_free}

-- What `remove_slot` leaves.
pub record Removes (capacity n space : ℕ) (r : Region) (xs ys : List ℕ) (i : ℕ) : Type 0 where
  pub after : Region
  pub list : List ℕ
  pub result : remove_slot r (pos i) (stored_key (r.slots i)) ≡ some after
  pub taken : Taken i xs list
  pub cache : IsCache capacity n space after list (i ∷ ys) []
  pub bodies : (j : ℕ) → i ≢ j → body (after.slots j) ≡ body (r.slots j)
  pub ttl : after.header.ttl_nanos ≡ r.header.ttl_nanos

abbrev removed : Region → (ℕ → Bucket) → ℕ → Region
removed r ht i =
    free_at (with_arena (record r { buckets = ht }) (list_remove (arena_of r) (pos i))) (pos i)

remove_run :
    (r : Region) (ht : ℕ → Bucket) (i : ℕ) (key : List ℕ)
    → ht_remove r.buckets r.header.ht_capacity r.slots (r.slots i).key_hash key ≡ some (true, ht)
    → remove_slot r (pos i) key ≡ some (removed r ht i)
unfolding remove_slot
remove_run r ht i key run = rw (remove_slot, run) refl

-- Removing the slot of an entry of a well-formed cache ends; the entry is gone, its slot is free, and
-- every other entry is as before.
pub remove_slot-Removes :
    {capacity n space : ℕ} {r : Region} {xs ys : List ℕ} (i : ℕ)
    → IsCache capacity n space r xs ys []
    → On i xs
    → Removes capacity n space r xs ys i
remove_slot-Removes {capacity} {n} {space} {r} {xs} {ys} i c on =
    let (xs', ht, taken, run, cache, same) = detach i c on in
    let d = detached r ht i in
    let s : Slot = record (d.slots i) {
      occupied = 0;
      next = d.header.free_head;
      prev = slot_none;
    } in
    let at_i : (set_slot d (pos i) s).slots i ≡ s = ground arith in
    let freed =
      put_free i (touch i s cache) (ap (λ (x : Slot). x.next) at_i)
        (ap (λ (x : Slot). x.occupied) at_i) in
    record {
      after = removed r ht i;
      list = xs';
      result = remove_run r ht i (stored_key (r.slots i)) (
          subst
            (λ k.
              ht_remove r.buckets k r.slots (r.slots i).key_hash (stored_key (r.slots i))
              ≡ some (true, ht))
            (sym c.shape.ht_capacity) run);
      taken = taken;
      cache = freed;
      bodies = λ j ne.
          let e : (set_slot d (pos i) s).slots j ≡ d.slots j = ground arith in
          ap body e ∙ same.slots j;
      ttl = ap (λ (h : Header). h.ttl_nanos) same.header;
    }
