-- ===== src/Shm/HashTable.antt =====
-- src/shm/hashtable.rs: open addressing with linear probing over the buckets in shared memory.
-- The table and the slab are functions from an index; the multiplications by `Bucket::SIZE` and
-- `slot_size` that turn an index into an address are those of `Shm.Layout`.
pub mod Ring
pub mod Probe
pub mod Insert
pub mod Remove
pub mod Laws
use warp_cache.Base.{
  ℕ, zero, suc, ◌+◌, ◌-◌, ◌%◌, ◌^◌, bit_and, Bool, true, false, ◌&&◌, ◌||◌, not, Option, none, some,
  List, ℤ, is_none, as_usize, update, slice, length, bytes_eq, ltb, leb, ◌==◌, if◌then◌else◌,
}
use warp_cache.Shm.Layout.{Bucket, Slot, bucket_empty}

-- `ht_capacity.wrapping_sub(1)`
unfoldable pub mask : ℕ → ℕ
mask ht_capacity = (ht_capacity + 2 ^ 32 - 1) % 2 ^ 32

-- `(key_hash as u32) & mask`
unfoldable pub start_index : ℕ → ℕ → ℕ
unfolding mask
start_index ht_capacity key_hash = bit_and (key_hash % 2 ^ 32) (mask ht_capacity)

-- `(idx + 1) & mask`
unfoldable pub next_index : ℕ → ℕ → ℕ
unfolding mask
next_index ht_capacity idx = bit_and ((idx + 1) % 2 ^ 32) (mask ht_capacity)

-- The stored key of a slot against `key_bytes`: first the lengths, then the bytes.
unfoldable pub key_matches : Slot → List ℕ → Bool
key_matches slot key_bytes =
    slot.key_len == length key_bytes % 2 ^ 32
    && bytes_eq (slice slot.bytes 0 slot.key_len) key_bytes

-- The test of `ht_lookup` on a bucket.
unfoldable pub lookup_test : (ℕ → Slot) → ℕ → List ℕ → Bucket → Bool
unfolding key_matches
lookup_test slab key_hash key_bytes bucket =
    let slot = slab (as_usize bucket.slot_index) in
    bucket.hash == key_hash && (not (slot.occupied == 0) && key_matches slot key_bytes)

-- The test of `ht_remove`, which does not look at `occupied`.
unfoldable pub remove_test : (ℕ → Slot) → ℕ → List ℕ → Bucket → Bool
unfolding key_matches
remove_test slab key_hash key_bytes bucket =
    bucket.hash == key_hash && key_matches (slab (as_usize bucket.slot_index)) key_bytes

-- The loop `for _ in 0..ht_capacity` of `ht_lookup` and of `ht_remove`: it stops at an empty bucket
-- or at one that passes the test. The first argument counts the rounds that are left.
unfoldable pub probe : ℕ → ℕ → (ℕ → Bucket) → (Bucket → Bool) → ℕ → Option ℕ
probe zero ht_capacity ht test idx = none
probe (suc rounds) ht_capacity ht test idx =
    let rest = probe rounds ht_capacity ht test (next_index ht_capacity idx) in
    if is_none (ht idx).slot_index then none else (if test (ht idx) then some idx else rest)

unfoldable pub ht_lookup : (ℕ → Bucket) → ℕ → (ℕ → Slot) → ℕ → List ℕ → Option ℤ
unfolding probe lookup_test start_index
ht_lookup ht ht_capacity slab key_hash key_bytes =
    elim (probe ht_capacity ht_capacity ht (lookup_test slab key_hash key_bytes)
      (start_index ht_capacity key_hash)) [ none ↦ none | some idx ↦ some (ht idx).slot_index ]

-- The loop of `ht_insert`. A full table stays as it is.
unfoldable pub insert_from : ℕ → ℕ → (ℕ → Bucket) → ℕ → ℤ → ℕ → ℕ → Bucket
insert_from zero ht_capacity ht key_hash slot_index idx = ht
insert_from (suc rounds) ht_capacity ht key_hash slot_index idx =
    let rest = insert_from rounds ht_capacity ht key_hash slot_index (next_index ht_capacity idx) in
    if is_none (ht idx).slot_index
    then update ht idx (record { hash = key_hash; slot_index = slot_index })
    else rest

unfoldable pub ht_insert : (ℕ → Bucket) → ℕ → ℕ → ℤ → ℕ → Bucket
unfolding insert_from start_index
ht_insert ht ht_capacity key_hash slot_index =
    insert_from ht_capacity ht_capacity ht key_hash slot_index (start_index ht_capacity key_hash)

-- Is the ideal position of the bucket at `j` at or before `empty`?
unfoldable pub should_move : ℕ → ℕ → ℕ → Bool
should_move empty j ideal =
    if leb empty j then leb ideal empty || ltb j ideal else (leb ideal empty && ltb j ideal)

-- The backward-shift loop, on fuel: the table and the last `empty`, or `none` if the fuel ran out
-- before an empty bucket was met.
unfoldable pub shift : ℕ → ℕ → (ℕ → Bucket) → ℕ → ℕ → Option ((ℕ → Bucket) × ℕ)
unfolding should_move start_index
shift zero ht_capacity ht empty j = none
shift (suc fuel) ht_capacity ht empty j =
    let bucket_j = ht j in
    let moved = should_move empty j (start_index ht_capacity bucket_j.hash) in
    let rest =
      shift fuel ht_capacity (if moved then update ht empty bucket_j else ht)
        (if moved then j else empty) (next_index ht_capacity j) in
    if is_none bucket_j.slot_index then some (ht, empty) else rest

abbrev pub empty_bucket : Bucket
empty_bucket = record { hash = 0; slot_index = bucket_empty }

-- The part of `ht_remove` behind the search, at the bucket that was found.
unfoldable pub remove_at : (ℕ → Bucket) → ℕ → ℕ → Option (Bool × (ℕ → Bucket))
unfolding shift
remove_at ht ht_capacity remove_idx =
    elim (shift ht_capacity ht_capacity ht remove_idx (next_index ht_capacity remove_idx)) [
      | none ↦ none
      | some (ht', empty) ↦ some (true, update ht' empty empty_bucket)
    ]

-- The result and the table, or `none` if the shift loop did not end.
unfoldable pub ht_remove : (ℕ → Bucket) → ℕ → (ℕ → Slot) → ℕ → List ℕ → Option (Bool × (ℕ → Bucket))
unfolding probe remove_test remove_at start_index
ht_remove ht ht_capacity slab key_hash key_bytes =
    elim (probe ht_capacity ht_capacity ht (remove_test slab key_hash key_bytes)
      (start_index ht_capacity key_hash)) [
        | none ↦ some (false, ht)
        | some idx ↦ remove_at ht ht_capacity idx
      ]

-- The loop over `i in 0..ht_capacity`, its last round outermost.
unfoldable pub ht_clear : (ℕ → Bucket) → ℕ → ℕ → Bucket
ht_clear ht zero = ht
ht_clear ht (suc n) = update (ht_clear ht n) n empty_bucket
