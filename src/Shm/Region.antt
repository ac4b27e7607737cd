-- ===== src/Shm/Region.antt =====
-- src/shm/region.rs: `ShmRegion::create` and `create_or_open`. The two files of a region are one
-- value, its header, table and slab; the file system's own errors, the permissions and the seqlock
-- in the lock file are left out.
pub mod Fresh
pub mod Dir
pub mod Start
use warp_cache.Base.{
  ℕ, zero, suc, ◌+◌, ◌*◌, ◌^◌, Bool, true, false, ◌==◌, ◌&&◌, ltb, leb, if◌then◌else◌, Option, none,
  some, List, [], ℤ, pos, update, bytes_eq,
}
use warp_cache.Base.Pow2.{next_power_of_two}
use warp_cache.Shm.Layout.{Header, Bucket, Slot, magic, version, slot_none}
use warp_cache.Shm.HashTable.{empty_bucket, ht_clear}

pub record Region : Type 0 where
  pub header : Header
  pub buckets : ℕ → Bucket
  pub slots : ℕ → Slot

pub data Error : Type 0 where
  capacity_zero capacity_too_large bad_magic : Error

pub data Result (A : Type 0) : Type 0 where
  ok : A → Result A
  err : Error → Result A

-- `u32::checked_mul(2)`
unfoldable pub checked_double : ℕ → Option ℕ
checked_double n = if ltb (n * 2) (2 ^ 32) then some (n * 2) else none

-- `u32::checked_next_power_of_two`
unfoldable pub checked_next_power_of_two : ℕ → Option ℕ
checked_next_power_of_two n = let p = next_power_of_two n in if ltb p (2 ^ 32) then some p else none

unfoldable pub table_size : ℕ → Option ℕ
unfolding checked_double checked_next_power_of_two
table_size capacity = elim (checked_double capacity) [
  | none ↦ none
  | some twice ↦ checked_next_power_of_two twice
]

-- `mmap.fill(0)`, read as a bucket and as a slot
abbrev pub zero_bucket : Bucket
zero_bucket = record { hash = 0; slot_index = pos 0 }

abbrev pub zero_slot : Slot
zero_slot = record {
  key_hash = 0;
  created_at_nanos = 0;
  visited = 0;
  unique_id = 0;
  occupied = 0;
  key_len = 0;
  value_len = 0;
  prev = pos 0;
  next = pos 0;
  bytes = λ i. 0;
}

abbrev pub free_slot : ℕ → ℕ → Slot → Slot
free_slot capacity i s = record s {
  occupied = 0;
  prev = slot_none;
  next = if ltb (i + 1) capacity then pos (i + 1) else slot_none;
}

-- the loop over the first `n` slots, its last round outermost
unfoldable pub init_slots : ℕ → (ℕ → Slot) → ℕ → ℕ → Slot
init_slots capacity slots zero = slots
init_slots capacity slots (suc n) =
    update (init_slots capacity slots n) n (free_slot capacity n (init_slots capacity slots n n))

-- the loop over the buckets
unfoldable pub init_buckets : (ℕ → Bucket) → ℕ → ℕ → Bucket
init_buckets buckets zero = buckets
init_buckets buckets (suc n) = update (init_buckets buckets n) n empty_bucket

-- The parameters of a cache.
pub record Config : Type 0 where
  pub capacity : ℕ
  pub slot_size : ℕ
  pub max_key_size : ℕ
  pub max_value_size : ℕ
  pub ttl_nanos : ℕ

abbrev pub init_header : Config → ℕ → Header
init_header c ht_capacity = record {
  magic_bytes = magic;
  ttl_nanos = c.ttl_nanos;
  hits = 0;
  misses = 0;
  oversize_skips = 0;
  version_number = version;
  strategy = 0;
  capacity = c.capacity;
  ht_capacity = ht_capacity;
  slot_size = c.slot_size;
  max_key_size = c.max_key_size;
  max_value_size = c.max_value_size;
  current_size = 0;
  list_head = slot_none;
  list_tail = slot_none;
  free_head = pos 0;
  sieve_hand = slot_none;
}

unfoldable pub create : Config → Result Region
unfolding table_size init_slots init_buckets
create c =
    let built : Result Region = elim (table_size c.capacity) [
      | none ↦ err capacity_too_large
      | some ht_capacity ↦ ok (record {
        header = init_header c ht_capacity;
        buckets = init_buckets (λ i. zero_bucket) ht_capacity;
        slots = init_slots c.capacity (λ i. zero_slot) c.capacity;
      })
    ] in
    if c.capacity == 0 then err capacity_zero else built

unfoldable pub open_paths : Region → Result Region
open_paths r = if bytes_eq r.header.magic_bytes magic then ok r else err bad_magic

unfoldable pub params_match : Header → Config → Bool
params_match h c =
    h.version_number == version
    && (h.capacity == c.capacity
        && (h.max_key_size == c.max_key_size
            && (h.max_value_size == c.max_value_size && h.ttl_nanos == c.ttl_nanos)))

-- The first argument is the region of the two files, if both exist.
unfoldable pub create_or_open : Option Region → Config → Result Region
unfolding create open_paths params_match
create_or_open none c = create c
create_or_open (some r) c = elim (open_paths r) [
  | ok region ↦ if params_match region.header c then ok region else create c
  | err e ↦ create c
]
