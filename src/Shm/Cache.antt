-- ===== src/Shm/Cache.antt =====
-- src/shm/mod.rs: `ShmCache`, on the region: reads, insertion with eviction, removal, clearing. What
-- runs under the write lock is one function; a read is the lookup that the seqlock has validated, on
-- the region at that time, and what follows it, on the region then. `now` is `current_time_nanos()`.
pub mod Table
pub mod Invariant
pub mod Stages
pub mod Entries
pub mod Allocate
pub mod Insert
pub mod Remove
pub mod Lookup
pub mod Clear
pub mod Get
pub mod Fetch
pub mod Finish
pub mod History
use warp_cache.Base.{
  ℕ, zero, suc, ◌+◌, ◌-◌, ◌%◌, ◌^◌, Bool, true, false, ◌&&◌, not, ◌==◌, ltb, leb, if◌then◌else◌,
  Option, none, some, List, length, ℤ, pos, negsuc, is_none, as_usize, update, slice, copy_to,
  bytes_eq,
}
use warp_cache.Shm.Layout.{Header, Bucket, Slot, slot_none, slot_header_size}
use warp_cache.Shm.HashTable.{
  start_index, next_index, key_matches, ht_lookup, ht_insert, ht_remove, ht_clear,
}
use warp_cache.Shm.Ordering.{Arena, list_remove, list_push_tail, sieve_evict}
use warp_cache.Shm.Region
use warp_cache.Shm.Region.{Region, Config, Result, init_slots}

pub record ShmCache : Type 0 where
  pub region : Region
  pub next_unique_id : ℕ

abbrev pub arena_of : Region → Arena
arena_of r = record { header = r.header; slots = r.slots }

abbrev pub with_arena : Region → Arena → Region
with_arena r a = record r { header = a.header; slots = a.slots }

-- The sizes of a cache and its lifetime in nanoseconds; the region's own parameters.
unfoldable pub shm_config : ℕ → ℕ → ℕ → Option ℕ → Config
shm_config capacity max_key_size max_value_size ttl_nanos = record {
  capacity = capacity;
  slot_size = (slot_header_size + max_key_size + max_value_size) % 2 ^ 32;
  max_key_size = max_key_size;
  max_value_size = max_value_size;
  ttl_nanos = elim ttl_nanos [ none ↦ 0 | some t ↦ t ];
}

unfoldable pub shm_create_or_open : Option Region → ℕ → ℕ → ℕ → Option ℕ → Result ShmCache
unfolding shm_config
shm_create_or_open files capacity max_key_size max_value_size ttl_nanos =
    elim (Region.create_or_open files (shm_config capacity max_key_size max_value_size ttl_nanos)) [
      | Result.ok r ↦ Result.ok (record { region = r; next_unique_id = 0 })
      | Result.err e ↦ Result.err e
    ]

pub data OptimisticResult : Type 0 where
  hit : (value : List ℕ) → (slot_index : ℤ) → OptimisticResult
  not_found : OptimisticResult
  expired : (slot_index : ℤ) → OptimisticResult

-- `slot_index < 0 || slot_index as u32 >= capacity`, negated
abbrev pub in_range : ℤ → ℕ → Bool
in_range (pos i) capacity = ltb i capacity
in_range (negsuc i) capacity = false

abbrev pub max_data_size : Header → ℕ
max_data_size h = (h.max_key_size + h.max_value_size) % 2 ^ 32

abbrev pub value_of : Slot → List ℕ
value_of s = slice s.bytes s.key_len s.value_len

-- `now.saturating_sub(created_at_nanos) > ttl_nanos`, if there is a lifetime
abbrev pub is_expired : Header → Slot → ℕ → Bool
is_expired h s now = ltb 0 h.ttl_nanos && ltb h.ttl_nanos (now - s.created_at_nanos)

-- What the lookup returns at a full bucket; `none` if it goes on to the next one.
unfoldable pub read_bucket : Region → ℕ → ℕ → List ℕ → Bucket → Option OptimisticResult
read_bucket r now key_hash key_bytes bucket =
    let index = bucket.slot_index in
    let s = r.slots (as_usize index) in
    let read = if is_expired r.header s now then expired index else hit (value_of s) index in
    let compared = if bytes_eq (slice s.bytes 0 s.key_len) key_bytes then some read else none in
    let sized =
      if ltb (max_data_size r.header) (s.key_len + s.value_len) then some not_found else compared in
    let matched =
      if not (s.occupied == 0) && (s.key_len == length key_bytes % 2 ^ 32) then sized else none in
    let ranged = if in_range index r.header.capacity then matched else some not_found in
    if bucket.hash == key_hash then ranged else none

-- The loop of `ht_lookup_checked`.
unfoldable pub checked_from : ℕ → Region → ℕ → ℕ → List ℕ → ℕ → OptimisticResult
unfolding read_bucket
checked_from zero r now key_hash key_bytes idx = not_found
checked_from (suc rounds) r now key_hash key_bytes idx =
    let rest = checked_from rounds r now key_hash key_bytes (next_index r.header.ht_capacity idx) in
    let here : OptimisticResult = elim (read_bucket r now key_hash key_bytes (r.buckets idx)) [
      | none ↦ rest
      | some result ↦ result
    ] in
    if is_none (r.buckets idx).slot_index then not_found else here

unfoldable pub ht_lookup_checked : Region → ℕ → ℕ → List ℕ → OptimisticResult
unfolding checked_from start_index
ht_lookup_checked r now key_hash key_bytes =
    checked_from r.header.ht_capacity r now key_hash key_bytes
      (start_index r.header.ht_capacity key_hash)

abbrev pub set_slot : Region → ℤ → Slot → Region
set_slot r index s = record r { slots = update r.slots (as_usize index) s }

abbrev pub slot_at : Region → ℤ → Slot
slot_at r index = r.slots (as_usize index)

-- `header.current_size -= 1` and `+= 1`
abbrev pub shrink : Header → Header
shrink h = record h { current_size = (h.current_size + 2 ^ 32 - 1) % 2 ^ 32 }

abbrev pub grow : Header → Header
grow h = record h { current_size = (h.current_size + 1) % 2 ^ 32 }

-- The slot goes to the head of the free list.
abbrev pub free_at : Region → ℤ → Region
free_at r index = record r {
  header = shrink (record r.header { free_head = index });
  slots =
      update r.slots (as_usize index)
        (record (slot_at r index) { occupied = 0; next = r.header.free_head; prev = slot_none });
}

-- `none` stands for a shift loop of `ht_remove` that does not end, here and below.
unfoldable pub remove_slot : Region → ℤ → List ℕ → Option Region
remove_slot r index key_bytes =
    elim (ht_remove r.buckets r.header.ht_capacity r.slots (slot_at r index).key_hash key_bytes) [
      | none ↦ none
      | some (found, ht) ↦
          some (
            free_at (with_arena (record r { buckets = ht }) (list_remove (arena_of r) index)) index)
    ]

pub data ShmGetResult : Type 0 where
  hit : (value : List ℕ) → ShmGetResult
  miss : ShmGetResult

abbrev pub add_hit : Region → Region
add_hit r = record r { header = record r.header { hits = (r.header.hits + 1) % 2 ^ 64 } }

abbrev pub add_miss : Region → Region
add_miss r = record r { header = record r.header { misses = (r.header.misses + 1) % 2 ^ 64 } }

-- The part of `get` under the write lock, for an entry that was seen to be expired.
unfoldable pub expire : Region → ℤ → ℕ → List ℕ → Option Region
unfolding remove_slot
expire r index key_hash key_bytes =
    let s = slot_at r index in
    let removed = remove_slot r index key_bytes in
    if not (s.occupied == 0)
      && (s.key_hash == key_hash && bytes_eq (slice s.bytes 0 s.key_len) key_bytes)
    then removed
    else some r

-- `get` behind the validated lookup.
unfoldable pub get_finish : Region → ℕ → List ℕ → OptimisticResult → Option (Region × ShmGetResult)
unfolding expire
get_finish r key_hash key_bytes (hit value index) =
    some (
      add_hit (set_slot r index (record (slot_at r index) { visited = 1 })),
      ShmGetResult.hit value,
    )
get_finish r key_hash key_bytes not_found = some (add_miss r, miss)
get_finish r key_hash key_bytes (expired index) = elim (expire r index key_hash key_bytes) [
  | none ↦ none
  | some r' ↦ some (add_miss r', miss)
]

-- `get` with no other process in between.
unfoldable pub shm_get : Region → ℕ → ℕ → List ℕ → Option (Region × ShmGetResult)
unfolding ht_lookup_checked get_finish
shm_get r now key_hash key_bytes =
    get_finish r key_hash key_bytes (ht_lookup_checked r now key_hash key_bytes)

-- The entry is there: its value is overwritten.
abbrev pub update_entry : Region → ℤ → ℕ → List ℕ → Region
update_entry r index now value_bytes =
    let s = slot_at r index in
    set_slot r index (record s {
      value_len = length value_bytes % 2 ^ 32;
      created_at_nanos = now;
      visited = 1;
      bytes = copy_to s.bytes s.key_len value_bytes;
    })

-- A slot for a new entry, or the return of `insert_inner` without one.
pub data Allocated : Type 0 where
  allocated : Region → ℤ → Allocated
  no_slot : Region → Allocated

-- The victim leaves the table and the list; `a` is what the scan left.
unfoldable pub take_victim : Region → ℤ → Arena → Option Allocated
take_victim r victim a =
    let s = a.slots (as_usize victim) in
    let taken : Option Allocated =
      elim (ht_remove r.buckets r.header.ht_capacity a.slots s.key_hash
        (slice s.bytes 0 s.key_len)) [
          | none ↦ none
          | some (found, ht) ↦
              let b = list_remove a victim in
              some (
                allocated (record { header = shrink b.header; buckets = ht; slots = b.slots })
                  victim)
        ] in
    if is_none victim then some (no_slot (with_arena r a)) else taken

-- SIEVE picks a victim.
unfoldable pub evict_slot : Region → Option Allocated
unfolding take_victim
evict_slot r = take_victim r (sieve_evict (arena_of r)).0 (sieve_evict (arena_of r)).1

unfoldable pub allocate : Region → Option Allocated
unfolding evict_slot
allocate r =
    let index = r.header.free_head in
    let popped = record r { header = record r.header { free_head = (slot_at r index).next } } in
    if is_none index
    then (if leb r.header.capacity r.header.current_size then evict_slot r else some (no_slot r))
    else some (allocated popped index)

-- The new entry is written into its slot.
unfoldable pub write_entry : Region → ℤ → ℕ → ℕ → ℕ → List ℕ → List ℕ → Region
write_entry r index unique_id now key_hash key_bytes value_bytes =
    let s = slot_at r index in
    set_slot r index (record {
      key_hash = key_hash;
      created_at_nanos = now;
      visited = 0;
      unique_id = unique_id;
      occupied = 1;
      key_len = length key_bytes % 2 ^ 32;
      value_len = length value_bytes % 2 ^ 32;
      prev = slot_none;
      next = slot_none;
      bytes = copy_to (copy_to s.bytes 0 key_bytes) (length key_bytes) value_bytes;
    })

-- The entry enters the table and the tail of the list.
unfoldable pub link_entry : Region → ℤ → ℕ → Region
link_entry r index key_hash =
    let ht = ht_insert r.buckets r.header.ht_capacity key_hash index in
    let a = list_push_tail (arena_of r) index in
    record { header = grow a.header; buckets = ht; slots = a.slots }

unfoldable pub insert_entry : ShmCache → ℕ → ℕ → List ℕ → List ℕ → Option ShmCache
unfolding allocate write_entry link_entry
insert_entry c now key_hash key_bytes value_bytes = elim (allocate c.region) [
  | none ↦ none
  | some (no_slot r) ↦ some (record c { region = r })
  | some (allocated r index) ↦ some (record {
    region =
        link_entry (write_entry r index c.next_unique_id now key_hash key_bytes value_bytes) index
          key_hash;
    next_unique_id = (c.next_unique_id + 1) % 2 ^ 64;
  })
]

unfoldable pub insert_inner : ShmCache → ℕ → ℕ → List ℕ → List ℕ → Option ShmCache
unfolding insert_entry
insert_inner c now key_hash key_bytes value_bytes =
    elim (ht_lookup c.region.buckets c.region.header.ht_capacity c.region.slots key_hash
      key_bytes) [
        | some index ↦ some (record c { region = update_entry c.region index now value_bytes })
        | none ↦ insert_entry c now key_hash key_bytes value_bytes
      ]

-- The loop over the slots is the one of `ShmRegion::create`.
unfoldable pub clear_inner : Region → Region
clear_inner r = record {
  header = record r.header {
    current_size = 0;
    hits = 0;
    misses = 0;
    oversize_skips = 0;
    list_head = slot_none;
    list_tail = slot_none;
    free_head = pos 0;
    sieve_hand = slot_none;
  };
  buckets = ht_clear r.buckets r.header.ht_capacity;
  slots = init_slots r.header.capacity r.slots r.header.capacity;
}

unfoldable pub record_oversize_skip : Region → Region
record_oversize_skip r = record r {
  header = record r.header { oversize_skips = (r.header.oversize_skips + 1) % 2 ^ 64 };
}

pub record ShmCacheInfo : Type 0 where
  pub hits : ℕ
  pub misses : ℕ
  pub max_size : ℕ
  pub current_size : ℕ
  pub oversize_skips : ℕ

unfoldable pub shm_info : Region → ShmCacheInfo
shm_info r = record {
  hits = r.header.hits;
  misses = r.header.misses;
  max_size = r.header.capacity;
  current_size = r.header.current_size;
  oversize_skips = r.header.oversize_skips;
}
