-- ===== src/Shm/Layout/Bounds.antt =====
-- The areas of the region lie behind one another and inside the mapped file.
use warp_cache.Base.{ℕ, ◌+◌, ◌*◌, ◌≤◌, ◌<◌, arith}
use warp_cache.Shm.Layout.{header_size, bucket_size, region_size, ht_offset, slab_offset}

-- The header, the buckets and the slots lie inside the mapped file and do not overlap: bucket `b`
-- starts behind the header and ends before the slab, and slot `i` starts behind the buckets, ends
-- inside the file, and ends before any later slot `j` starts.
pub areas_disjoint :
    (capacity ht_capacity slot_size b i j : ℕ)
    → b < ht_capacity
    → i < j
    → j < capacity
    → (header_size ≤ ht_offset + b * bucket_size)
      × (ht_offset + b * bucket_size + bucket_size ≤ slab_offset ht_capacity)
      × (slab_offset ht_capacity + i * slot_size + slot_size
          ≤ slab_offset ht_capacity + j * slot_size)
      × (slab_offset ht_capacity + j * slot_size + slot_size
          ≤ region_size capacity ht_capacity slot_size)
unfolding region_size ht_offset slab_offset
areas_disjoint capacity ht_capacity slot_size b i j hb hi hj =
    (omega arith, omega arith, grind arith, grind arith)
