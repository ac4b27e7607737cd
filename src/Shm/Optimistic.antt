-- ===== src/Shm/Optimistic.antt =====
-- `get_optimistic` and `ht_lookup_checked` of src/shm/mod.rs as a reader without a lock runs them: a program of
-- single loads from the mapped memory, each of which may see what a writer has left half done. A word stands at
-- the offset at which its field begins.
pub mod Eval
pub mod Linear
pub mod Solo
pub mod Agrees
pub mod Sections
use warp_cache.Base.{
  ℕ, zero, suc, ◌+◌, ◌-◌, ◌*◌, ◌%◌, ◌^◌, Bool, true, false, ◌==◌, ltb, if◌then◌else◌, List, [], ◌∷◌,
  length, ℤ, pos, negsuc, is_none, as_usize, slice, bytes_eq,
}
use warp_cache.Shm.Layout.{
  Header, Bucket, Slot, bucket_size, slot_header_size, ht_offset, slab_offset,
}
use warp_cache.Shm.HashTable.{start_index, next_index}
use warp_cache.Shm.Region.{Region}
use warp_cache.Shm.Cache.{OptimisticResult, hit, not_found, expired, in_range}

pub data Prog (A : Type 0) : Type 0 where
  ret : A → Prog A
  load : (address : ℕ) → (ℕ → Prog A) → Prog A

-- The result on a memory that nobody changes.
unfoldable pub eval : {A : Type 0} → (ℕ → ℕ) → Prog A → A
eval w (ret x) = x
eval w (load a k) = eval w (k (w a))

-- A run so far: the words that were loaded, the last one first, and what is left of the program.
pub data Runs {A : Type 0} (p : Prog A) : List (ℕ × ℕ) → Prog A → Type 0 where
  begin : Runs p [] p
  next :
      {seen : List (ℕ × ℕ)} {k : ℕ → Prog A} (a v : ℕ)
      → Runs p seen (load a k)
      → Runs p ((a, v) ∷ seen) (k v)

-- an `i32` from its bits
abbrev pub i32_value : ℕ → ℤ
i32_value w = if ltb w (2 ^ 31) then pos w else negsuc (2 ^ 32 - 1 - w)

-- `from_raw_parts(ptr, n)`, byte by byte
unfoldable pub load_bytes : {A : Type 0} → ℕ → ℕ → (List ℕ → Prog A) → Prog A
load_bytes a zero k = k []
load_bytes a (suc n) k = load a (λ b. load_bytes (suc a) n (λ bs. k (b ∷ bs)))

-- What `get_optimistic` has read from the header.
pub record Params : Type 0 where
  pub ht_capacity : ℕ
  pub slot_size : ℕ
  pub capacity : ℕ
  pub ttl_nanos : ℕ
  pub max_data_size : ℕ
  pub slab_base : ℕ

module _ (p : Params) (now : ℕ) where
  abbrev pub slot_ptr : ℤ → ℕ
  slot_ptr index = p.slab_base + as_usize index * p.slot_size

  -- the copy of the value of a slot
  abbrev pub copy_prog : ℤ → ℕ → ℕ → Prog OptimisticResult
  copy_prog index key_len value_len =
      load_bytes (slot_ptr index + (slot_header_size + key_len)) value_len
        (λ value. ret (hit value index))

  -- a slot whose key is equal: its age, and the copy
  unfoldable pub found_prog : ℤ → ℕ → ℕ → Prog OptimisticResult
  found_prog index key_len value_len =
      if ltb 0 p.ttl_nanos
      then load (slot_ptr index + 8) (λ created_at.
        if ltb p.ttl_nanos (now - created_at)
        then ret (expired index)
        else copy_prog index key_len value_len)
      else copy_prog index key_len value_len

  -- a slot of the same length: the bounds check, and the comparison of the keys
  unfoldable pub sized_prog : List ℕ → ℤ → ℕ → ℕ → Prog OptimisticResult → Prog OptimisticResult
  unfolding found_prog
  sized_prog key_bytes index key_len value_len rest =
      if ltb p.max_data_size (key_len + value_len)
      then ret not_found
      else load_bytes (slot_ptr index + slot_header_size) key_len (λ stored_key.
        if bytes_eq stored_key key_bytes then found_prog index key_len value_len else rest)

  unfoldable pub slot_prog : List ℕ → ℤ → Prog OptimisticResult → Prog OptimisticResult
  unfolding sized_prog
  slot_prog key_bytes index rest = load (slot_ptr index + 32) (λ occupied.
      if occupied == 0
      then rest
      else load (slot_ptr index + 36) (λ len.
        if len == length key_bytes % 2 ^ 32
        then load (slot_ptr index + 36) (λ key_len.
          load (slot_ptr index + 40)
            (λ value_len. sized_prog key_bytes index key_len value_len rest))
        else rest))

  unfoldable pub bucket_prog : ℕ → List ℕ → ℕ → Prog OptimisticResult → Prog OptimisticResult
  unfolding slot_prog
  bucket_prog key_hash key_bytes bucket rest = load (bucket + 8) (λ first.
      if is_none (i32_value first)
      then ret not_found
      else load bucket (λ hash.
        if hash == key_hash
        then load (bucket + 8) (λ again.
          if in_range (i32_value again) p.capacity
          then slot_prog key_bytes (i32_value again) rest
          else ret not_found)
        else rest))

  -- The loop of `ht_lookup_checked`.
  unfoldable pub lookup_prog : ℕ → ℕ → List ℕ → ℕ → Prog OptimisticResult
  unfolding bucket_prog ht_offset
  lookup_prog zero key_hash key_bytes idx = ret not_found
  lookup_prog (suc rounds) key_hash key_bytes idx =
      bucket_prog key_hash key_bytes (ht_offset + idx * bucket_size)
        (lookup_prog rounds key_hash key_bytes (next_index p.ht_capacity idx))

-- One round of the loop of `get_optimistic`, between `read_begin` and `read_validate`; `slab_base` loads
-- the size of the table once more.
unfoldable pub optimistic_prog : ℕ → ℕ → List ℕ → Prog OptimisticResult
unfolding lookup_prog start_index slab_offset
optimistic_prog now key_hash key_bytes = load 52 (λ ht_capacity. load 56 (λ slot_size.
    load 48 (λ capacity. load 8 (λ ttl_nanos. load 60 (λ max_key_size. load 64 (λ max_value_size.
      load 52 (λ ht_cap.
        let p : Params = record {
          ht_capacity = ht_capacity;
          slot_size = slot_size;
          capacity = capacity;
          ttl_nanos = ttl_nanos;
          max_data_size = (max_key_size + max_value_size) % 2 ^ 32;
          slab_base = slab_offset ht_cap;
        } in
        lookup_prog p now ht_capacity key_hash key_bytes (start_index ht_capacity key_hash))))))))

-- The region that the words are.
abbrev pub header_of : (ℕ → ℕ) → Header
header_of w = record {
  magic_bytes = slice w 0 8;
  ttl_nanos = w 8;
  hits = w 16;
  misses = w 24;
  oversize_skips = w 32;
  version_number = w 40;
  strategy = w 44;
  capacity = w 48;
  ht_capacity = w 52;
  slot_size = w 56;
  max_key_size = w 60;
  max_value_size = w 64;
  current_size = w 68;
  list_head = i32_value (w 72);
  list_tail = i32_value (w 76);
  free_head = i32_value (w 80);
  sieve_hand = i32_value (w 84);
}

abbrev pub bucket_of : (ℕ → ℕ) → ℕ → Bucket
bucket_of w at = record { hash = w at; slot_index = i32_value (w (at + 8)) }

abbrev pub slot_of : (ℕ → ℕ) → ℕ → Slot
slot_of w at = record {
  key_hash = w at;
  created_at_nanos = w (at + 8);
  visited = w (at + 16);
  unique_id = w (at + 24);
  occupied = w (at + 32);
  key_len = w (at + 36);
  value_len = w (at + 40);
  prev = i32_value (w (at + 44));
  next = i32_value (w (at + 48));
  bytes = λ j. w (at + (slot_header_size + j));
}

unfoldable pub region_of : (ℕ → ℕ) → Region
unfolding ht_offset slab_offset
region_of w = record {
  header = header_of w;
  buckets = λ i. bucket_of w (ht_offset + i * bucket_size);
  slots = λ i. slot_of w (slab_offset (w 52) + i * w 56);
}
