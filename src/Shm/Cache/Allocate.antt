-- ===== src/Shm/Cache/Allocate.antt =====
-- `insert_inner` finds a slot for a new entry: the head of the free list, or that of a victim.
use warp_cache.Base.{
  ℕ, ◌≤◌, ◌≡◌, inr, refl, sym, ap, subst, ◌∙◌, arith, true, some, List, [], ◌∷◌, pos,
}
use warp_cache.Shm.Layout.{Header, Bucket, slot_none}
use warp_cache.Shm.HashTable.{ht_remove}
use warp_cache.Shm.HashTable.Laws.{stored_key}
use warp_cache.Shm.Ordering.{Arena, sieve_evict}
use warp_cache.Shm.Ordering.List.{On}
use warp_cache.Shm.Ordering.Frame.{body}
use warp_cache.Shm.Region.{Region}
use warp_cache.Shm.Cache.{arena_of, with_arena, allocated, take_victim, evict_slot, allocate}
use warp_cache.Shm.Cache.Invariant.{Free, IsCache}
use warp_cache.Shm.Cache.Stages.{detached, detach, pop_free}
use warp_cache.Shm.Cache.Entries.{sweep}

-- A slot in hand: the list keeps its other entries as they were.
pub record Allocates (capacity n space : ℕ) (r : Region) (xs : List ℕ) : Type 0 where
  pub after : Region
  pub index : ℕ
  pub list : List ℕ
  pub free : List ℕ
  pub result : allocate r ≡ some (allocated after (pos index))
  pub cache : IsCache capacity n space after list free (index ∷ [])
  pub old : (j : ℕ) → On j list → On j xs
  pub bodies : (j : ℕ) → body (after.slots j) ≡ body (r.slots j)
  pub ttl : after.header.ttl_nanos ≡ r.header.ttl_nanos

take_run :
    (r : Region) (a : Arena) (v : ℕ) (ht : ℕ → Bucket)
    → ht_remove r.buckets r.header.ht_capacity a.slots (a.slots v).key_hash (stored_key (a.slots v))
      ≡ some (true, ht)
    → take_victim r (pos v) a ≡ some (allocated (detached (with_arena r a) ht v) (pos v))
unfolding take_victim
take_run r a v ht run = rw (take_victim, run) refl

evict_run :
    (r : Region) (v : ℕ) (ht : ℕ → Bucket)
    → (sieve_evict (arena_of r)).0 ≡ pos v
    → ht_remove r.buckets r.header.ht_capacity
        (sieve_evict (arena_of r)).1.slots
        ((sieve_evict (arena_of r)).1.slots v).key_hash
        (stored_key ((sieve_evict (arena_of r)).1.slots v))
      ≡ some (true, ht)
    → evict_slot r
      ≡ some (allocated (detached (with_arena r (sieve_evict (arena_of r)).1) ht v) (pos v))
unfolding evict_slot
evict_run r v ht e run =
    ap (λ k. take_victim r k (sieve_evict (arena_of r)).1) e
    ∙ take_run r (sieve_evict (arena_of r)).1 v ht run

allocate_evict :
    (r : Region)
    → r.header.free_head ≡ slot_none
    → r.header.capacity ≤ r.header.current_size
    → allocate r ≡ evict_slot r
unfolding allocate
allocate_evict r e full = ground arith

allocate_pop :
    (r : Region) (i : ℕ)
    → r.header.free_head ≡ pos i
    → allocate r
      ≡ some (
          allocated
            (record r { header = record r.header { free_head = (r.slots i).next } })
            (pos i))
unfolding allocate
allocate_pop r i e = ground arith

module _ {capacity n space : ℕ} {r : Region} where
  pub allocate-Allocates :
      {xs : List ℕ} (ys : List ℕ)
      → IsCache capacity n space r xs ys []
      → Allocates capacity n space r xs
  unfolding Free
  allocate-Allocates {xs} (y ∷ ys) c =
      let (head, cache) = pop_free y c in
      record {
        after = record r { header = record r.header { free_head = (r.slots y).next } };
        index = y;
        list = xs;
        free = ys;
        result = allocate_pop r y head;
        cache = cache;
        old = λ j o. o;
        bodies = λ j. refl;
        ttl = refl;
      }
  allocate-Allocates {xs} [] c =
      let (v, picked, on, swept, same) = sweep c in
      let (xs', ht, taken, run, cache, same') = detach v swept on in
      let run' =
        subst
          (λ k.
            ht_remove r.buckets k (sieve_evict (arena_of r)).1.slots
              ((sieve_evict (arena_of r)).1.slots v).key_hash
              (stored_key ((sieve_evict (arena_of r)).1.slots v))
            ≡ some (true, ht))
          (sym c.shape.ht_capacity) run in
      record {
        after = detached (with_arena r (sieve_evict (arena_of r)).1) ht v;
        index = v;
        list = xs';
        free = [];
        result =
            allocate_evict r c.free (omega (arith, c.size, c.shape.capacity, c.placed.count))
            ∙ evict_run r v ht picked run';
        cache = cache;
        old = λ j o. (taken.there j).1 (inr o);
        bodies = λ j. same'.slots j ∙ same.slots j;
        ttl =
            ap (λ (h : Header). h.ttl_nanos) same'.header
            ∙ ap (λ (h : Header). h.ttl_nanos) same.header;
      }
