-- ===== src/Shm/Optimistic/Eval.antt =====
-- The program of loads on a memory that nobody changes, beside `ht_lookup_checked` on the region in it.
use warp_cache.Base.{
  ℕ, zero, suc, ◌+◌, ◌*◌, ◌%◌, ◌^◌, ◌≡◌, refl, ap, ◌∙◌, arith, Bool, true, false, ◌==◌, ◌&&◌, not,
  ltb, if◌then◌else◌, Option, none, some, List, ◌∷◌, length, ℤ, is_none, slice, bytes_eq,
}
use warp_cache.Shm.Layout.{Slot, bucket_size, slot_header_size, ht_offset, slab_offset}
use warp_cache.Shm.HashTable.{start_index, next_index}
use warp_cache.Shm.Cache.{
  OptimisticResult, hit, not_found, expired, max_data_size, value_of, is_expired, read_bucket,
  checked_from, ht_lookup_checked,
}
use warp_cache.Shm.Optimistic.{
  Prog, ret, eval, load_bytes, Params, slot_ptr, copy_prog, found_prog, sized_prog, slot_prog,
  bucket_prog, lookup_prog, optimistic_prog, bucket_of, slot_of, region_of,
}

load_bytes-slice :
    {A : Type 0} (w : ℕ → ℕ) (a n : ℕ) (k : List ℕ → Prog A)
    → eval w (load_bytes a n k) ≡ eval w (k (slice w a n))
unfolding eval load_bytes
load_bytes-slice w a zero k = refl
load_bytes-slice w a (suc n) k = load_bytes-slice w (suc a) n (λ bs. k (w a ∷ bs))

slice_shift : (w : ℕ → ℕ) (b h o n : ℕ) → slice w (b + (h + o)) n ≡ slice (λ j. w (b + (h + j))) o n
slice_shift w b h o zero = refl
slice_shift w b h o (suc n) =
    let e : suc (b + (h + o)) ≡ b + (h + suc o) = omega arith in
    ap (λ bs. w (b + (h + o)) ∷ bs) (ap (λ c. slice w c n) e ∙ slice_shift w b h (suc o) n)

module _ (w : ℕ → ℕ) (now : ℕ) where
  abbrev params : Params
  params = record {
    ht_capacity = w 52;
    slot_size = w 56;
    capacity = w 48;
    ttl_nanos = w 8;
    max_data_size = (w 60 + w 64) % 2 ^ 32;
    slab_base = slab_offset (w 52);
  }

  abbrev at : ℤ → Slot
  at index = slot_of w (slot_ptr params now index)

  copy-value :
      (index : ℤ)
      → eval w (copy_prog params now index (at index).key_len (at index).value_len)
        ≡ hit (value_of (at index)) index
  unfolding eval
  copy-value index =
      let s = at index in
      load_bytes-slice w (slot_ptr params now index + (slot_header_size + s.key_len)) s.value_len
        (λ value. ret (hit value index))
      ∙ ap (λ value. hit value index)
          (slice_shift w (slot_ptr params now index) slot_header_size s.key_len s.value_len)

  found-read :
      (index : ℤ)
      → eval w (found_prog params now index (at index).key_len (at index).value_len) ≡ (
          if is_expired (region_of w).header (at index) now
          then expired index
          else hit (value_of (at index)) index)
  unfolding eval found_prog region_of
  found-read index = ground (arith, copy-value index)

  eval-if :
      {A : Type 0} (b : Bool) (p q : Prog A)
      → eval w (if b then p else q) ≡ (if b then eval w p else eval w q)
  eval-if true p q = refl
  eval-if false p q = refl

  -- what `read_bucket` finds once it has come to the slot
  abbrev matched : List ℕ → ℤ → Option OptimisticResult
  matched key_bytes index =
      let s = at index in
      let r = region_of w in
      let read = if is_expired r.header s now then expired index else hit (value_of s) index in
      let compared = if bytes_eq (slice s.bytes 0 s.key_len) key_bytes then some read else none in
      if ltb (max_data_size r.header) (s.key_len + s.value_len) then some not_found else compared

  abbrev or_else : OptimisticResult → Option OptimisticResult → OptimisticResult
  or_else rest none = rest
  or_else rest (some x) = x

  sized-matched :
      (key_bytes : List ℕ) (index : ℤ) (rest : Prog OptimisticResult)
      → eval w (sized_prog params now key_bytes index (at index).key_len (at index).value_len rest)
        ≡ or_else (eval w rest) (matched key_bytes index)
  unfolding eval sized_prog region_of
  sized-matched key_bytes index rest =
      let s = at index in
      let stored : slice w (slot_ptr params now index + slot_header_size) s.key_len
          ≡ slice s.bytes 0 s.key_len =
        let e : slot_ptr params now index + slot_header_size
            ≡ slot_ptr params now index + (slot_header_size + 0) =
          omega arith in
        ap (λ c. slice w c s.key_len) e
        ∙ slice_shift w (slot_ptr params now index) slot_header_size 0 s.key_len in
      let k : List ℕ → Prog OptimisticResult = λ stored_key.
        if bytes_eq stored_key key_bytes
        then found_prog params now index s.key_len s.value_len
        else rest in
      let bytes =
        load_bytes-slice w (slot_ptr params now index + slot_header_size) s.key_len k
        ∙ ap (λ bs. eval w (k bs)) stored in
      let read = found-read index in ground arith

  abbrev of_length : List ℕ → ℤ → Option OptimisticResult
  of_length key_bytes index =
      let s = at index in
      if not (s.occupied == 0) && (s.key_len == length key_bytes % 2 ^ 32)
      then matched key_bytes index
      else none

  slot-of_length :
      (key_bytes : List ℕ) (index : ℤ) (rest : Prog OptimisticResult)
      → eval w (slot_prog params now key_bytes index rest)
        ≡ or_else (eval w rest) (of_length key_bytes index)
  unfolding eval slot_prog
  slot-of_length key_bytes index rest =
      let sized = sized-matched key_bytes index rest in ground arith

  bucket-read_bucket :
      (key_hash : ℕ) (key_bytes : List ℕ) (bucket : ℕ) (rest : Prog OptimisticResult)
      → eval w (bucket_prog params now key_hash key_bytes bucket rest) ≡ (
          if is_none (bucket_of w bucket).slot_index
          then not_found
          else or_else
              (eval w rest)
              (read_bucket (region_of w) now key_hash key_bytes (bucket_of w bucket)))
  unfolding eval bucket_prog read_bucket region_of
  bucket-read_bucket key_hash key_bytes bucket rest =
      let slot = slot-of_length key_bytes (bucket_of w bucket).slot_index rest in ground arith

  lookup-checked_from :
      (rounds key_hash : ℕ) (key_bytes : List ℕ) (idx : ℕ)
      → eval w (lookup_prog params now rounds key_hash key_bytes idx)
        ≡ checked_from rounds (region_of w) now key_hash key_bytes idx
  unfolding eval lookup_prog checked_from region_of
  lookup-checked_from zero key_hash key_bytes idx = refl
  lookup-checked_from (suc rounds) key_hash key_bytes idx =
      let rest = lookup-checked_from rounds key_hash key_bytes (next_index (w 52) idx) in
      let bucket =
        bucket-read_bucket key_hash key_bytes (ht_offset + idx * bucket_size)
          (lookup_prog params now rounds key_hash key_bytes (next_index (w 52) idx)) in
      ground arith

-- On memory that nobody changes, the loads of `get_optimistic` give what the lookup gives on the region in memory.
pub optimistic-ht_lookup_checked :
    (w : ℕ → ℕ) (now key_hash : ℕ) (key_bytes : List ℕ)
    → eval w (optimistic_prog now key_hash key_bytes)
      ≡ ht_lookup_checked (region_of w) now key_hash key_bytes
unfolding eval optimistic_prog ht_lookup_checked region_of
optimistic-ht_lookup_checked w now key_hash key_bytes =
    lookup-checked_from w now (w 52) key_hash key_bytes (start_index (w 52) key_hash)
