-- ===== src/Shm/Cache/Clear.antt =====
-- A cache with every slot free: `create_or_open` and `clear_inner` of src/shm/mod.rs.
use warp_cache.Base.{
  ℕ, zero, suc, ◌+◌, ◌%◌, ◌^◌, ◌≤◌, ◌<◌, ◌≡◌, inl, inr, refl, sym, ap, subst, ◌∙◌, arith, ltb,
  if◌then◌else◌, ℕ_discrete, Option, none, List, [], pos, length,
}
use warp_cache.Shm.Layout.{Header, Slot, slot_none}
use warp_cache.Shm.HashTable.{empty_bucket}
use warp_cache.Shm.HashTable.Ring.{IsPow2}
use warp_cache.Shm.HashTable.Laws.{ht_clear_lem}
use warp_cache.Shm.Ordering.List.{On, Linked, Unique}
use warp_cache.Shm.Region
use warp_cache.Shm.Region.{Region, Config, Result, init_slots, init_header, table_size}
use warp_cache.Shm.Region.Fresh.{upto, init_slots-next, create-IsFresh}
use warp_cache.Shm.Cache.{ShmCache, max_data_size, shm_config, shm_create_or_open, clear_inner}
use warp_cache.Shm.Cache.Table.Changes.{empty-IsTableOf}
use warp_cache.Shm.Cache.Invariant.{Free, IsPlaced, Shape, IsCache}

On-upto :
    (k n i : ℕ) → (On i (upto k n) → (k ≤ i) × (i < k + n)) × (k ≤ i → i < k + n → On i (upto k n))
unfolding On upto
On-upto k zero i = ((λ b. absurd b), (λ lo hi. absurd (omega arith)))
On-upto k (suc n) i =
    let rest = On-upto (suc k) n i in
    (
      (λ o. elim o [
        | inl e ↦ (omega arith, omega arith)
        | inr o' ↦ let (lo, hi) = rest.0 o' in (omega arith, omega arith)
      ]),
      (λ lo hi. elim (ℕ_discrete i k) [
        | yes e ↦ inl e
        | no ne ↦ inr (rest.1 (omega arith) (omega arith))
      ]),
    )

upto-Unique : (k n : ℕ) → Unique (upto k n)
unfolding Unique upto
upto-Unique k zero = tt
upto-Unique k (suc n) =
    ((λ o. let (lo, hi) = (On-upto (suc k) n k).0 o in absurd (omega arith)), upto-Unique (suc k) n)

length-upto : (k n : ℕ) → length (upto k n) ≡ n
unfolding upto
length-upto k zero = refl
length-upto k (suc n) = ap suc (length-upto (suc k) n)

-- the field `next` of the slots of a free list of all slots in order
abbrev Chained : ℕ → (ℕ → Slot) → Type 0
Chained capacity slots =
    (i : ℕ)
    → i < capacity
    → (slots i).next ≡ (if ltb (i + 1) capacity then pos (i + 1) else slot_none)

upto-Free :
    (slots : ℕ → Slot) (capacity k n : ℕ)
    → Chained capacity slots
    → suc (k + n) ≡ capacity
    → Free slots (upto k (suc n)) (pos k)
unfolding upto Free
upto-Free slots capacity k zero next total = (refl, next k (omega arith) ∙ ground arith)
upto-Free slots capacity k (suc n) next total =
    let more : (slots k).next ≡ pos (suc k) = next k (omega arith) ∙ ground arith in
    (
      refl,
      subst (λ x. Free slots (upto (suc k) (suc n)) x) (sym more)
          (upto-Free slots capacity (suc k) n next (omega arith)),
    )

all-Free :
    (slots : ℕ → Slot) (capacity : ℕ)
    → 1 ≤ capacity
    → Chained capacity slots
    → Free slots (upto 0 capacity) (pos 0)
all-Free slots zero low next = absurd (omega arith)
all-Free slots (suc n) low next = upto-Free slots (suc n) 0 n next (omega arith)

all-IsPlaced : (capacity : ℕ) → IsPlaced capacity [] (upto 0 capacity) []
unfolding On Unique
all-IsPlaced capacity = record {
  unique_x = tt;
  unique_y = upto-Unique 0 capacity;
  unique_z = tt;
  apart_xy = λ i b. absurd b;
  apart_zx = λ i b. absurd b;
  apart_zy = λ i b. absurd b;
  cover = λ i low. inr (inl ((On-upto 0 capacity i).1 (omega arith) (omega arith)));
  low_x = λ i b. absurd b;
  low_y = λ i o. omega (arith, ((On-upto 0 capacity i).0 o).1);
  low_z = λ i b. absurd b;
  count = omega (arith, length-upto 0 capacity);
}

-- An empty list, an empty table, and every slot on the free list.
reset-IsCache :
    {capacity n space : ℕ} (r : Region)
    → 1 ≤ capacity
    → capacity ≤ 2 ^ 30
    → IsPow2 n
    → capacity < n
    → Shape capacity n space r.header
    → ((p : ℕ) → p < n → r.buckets p ≡ empty_bucket)
    → Chained capacity r.slots
    → r.header.list_head ≡ slot_none
    → r.header.list_tail ≡ slot_none
    → r.header.free_head ≡ pos 0
    → r.header.current_size ≡ 0
    → r.header.sieve_hand ≡ slot_none
    → ((i : ℕ) → i < capacity → (r.slots i).occupied ≡ 0)
    → IsCache capacity n space r [] (upto 0 capacity) []
unfolding Linked On
reset-IsCache {capacity} {n} r low high sized wide shape empty chained head tail free size hand
      idle =
    record {
      positive = low;
      bounded = high;
      shape = shape;
      table = empty-IsTableOf capacity n r.buckets r.slots sized wide empty;
      list = (head, tail);
      free =
          subst (λ k. Free r.slots (upto 0 capacity) k) (sym free)
            (all-Free r.slots capacity low chained);
      placed = all-IsPlaced capacity;
      size = size;
      fits = λ i b. absurd b;
      hand = inl hand;
      unused = λ i o. idle i (omega (arith, ((On-upto 0 capacity i).0 o).1));
    }

-- `clear_inner` empties a well-formed cache: no entry is left, every slot is free, and the cache is
-- well-formed with the parameters it had.
pub clear_inner-IsCache :
    {capacity n space : ℕ} {xs ys zs : List ℕ} (r : Region)
    → IsCache capacity n space r xs ys zs
    → IsCache capacity n space (clear_inner r) [] (upto 0 capacity) []
unfolding clear_inner
clear_inner-IsCache {capacity} {n} r c =
    reset-IsCache (clear_inner r) c.positive c.bounded c.table.sized c.table.wide
      (record {
        capacity = c.shape.capacity;
        ht_capacity = c.shape.ht_capacity;
        space = c.shape.space;
      })
      (λ p hp.
        (ht_clear_lem r.buckets r.header.ht_capacity p).0 (omega (arith, c.shape.ht_capacity)))
      (subst (λ k. Chained capacity (init_slots k r.slots k)) (sym c.shape.capacity)
        (λ i h. (init_slots-next capacity r.slots capacity i h).0))
      refl refl refl refl refl
      (subst (λ k. (i : ℕ) → i < capacity → (init_slots k r.slots k i).occupied ≡ 0)
        (sym c.shape.capacity) (λ i h. (init_slots-next capacity r.slots capacity i h).1))

-- A new cache, for a capacity from 1 to 2^30, is made, and it is well-formed, without an entry, with room
-- for the sizes that were asked for.
pub shm_create_or_open-IsCache :
    (capacity max_key_size max_value_size : ℕ) (ttl_nanos : Option ℕ)
    → 1 ≤ capacity
    → capacity ≤ 2 ^ 30
    → (c : ShmCache) × (n : ℕ) × (shm_create_or_open none capacity max_key_size max_value_size
          ttl_nanos
        ≡ Result.ok c)
      × IsCache capacity n
          ((max_key_size + max_value_size) % 2 ^ 32)
          c.region
          []
          (upto 0 capacity)
          []
unfolding shm_create_or_open shm_config Region.create_or_open
shm_create_or_open-IsCache capacity max_key_size max_value_size ttl_nanos low high =
    let config = shm_config capacity max_key_size max_value_size ttl_nanos in
    let (r, run, fresh) = create-IsFresh config low high in
    let h = fresh.header in
    (
      record { region = r; next_unique_id = 0 },
      r.header.ht_capacity,
      rw (shm_create_or_open, Region.create_or_open, run) refl,
      reset-IsCache r low high fresh.table.table.sized (omega (arith, fresh.roomy, low))
          (record {
            capacity = ap (λ (x : Header). x.capacity) h;
            ht_capacity = refl;
            space = ap (λ (x : Header). max_data_size x) h;
          })
          fresh.empty fresh.next (ap (λ (x : Header). x.list_head) h)
          (ap (λ (x : Header). x.list_tail) h) (ap (λ (x : Header). x.free_head) h)
          (ap (λ (x : Header). x.current_size) h) (ap (λ (x : Header). x.sieve_hand) h)
          fresh.unused,
    )
