-- ===== src/Shm/Cache/Lookup.antt =====
-- `ht_lookup_checked` of src/shm/mod.rs, with its bounds checks, beside `ht_lookup`.
use warp_cache.Base.{
  ℕ, zero, suc, ◌+◌, ◌≤◌, ◌<◌, ◌≡◌, inl, inr, refl, sym, ap, subst, ◌∙◌, arith, Bool, Bool-cases,
  if◌then◌else◌, Option, none, some, List, ℤ, pos, is_none,
}
use warp_cache.Shm.Layout.{Bucket}
use warp_cache.Shm.HashTable.{start_index, next_index, key_matches, lookup_test, probe, ht_lookup}
use warp_cache.Shm.HashTable.Ring.{start_index-lt, next_index-eq, succ_on-lt}
use warp_cache.Shm.HashTable.Probe.{Full}
use warp_cache.Shm.Region.{Region}
use warp_cache.Shm.Cache.{
  OptimisticResult, hit, not_found, expired, max_data_size, value_of, is_expired, read_bucket,
  checked_from, ht_lookup_checked, slot_at,
}
use warp_cache.Shm.Cache.Table.{slot_behind}
use warp_cache.Shm.Cache.Invariant.{IsCache}

-- What is read at the slot that the lookup found.
unfoldable pub read_slot : Region → ℕ → Option ℤ → OptimisticResult
read_slot r now none = not_found
read_slot r now (some index) =
    if is_expired r.header (slot_at r index) now
    then expired index
    else hit (value_of (slot_at r index)) index

module _ {capacity n space : ℕ} {r : Region} {xs ys zs : List ℕ} (now key_hash : ℕ) (key : List ℕ)
    (c : IsCache capacity n space r xs ys zs) where
  abbrev test : Bucket → Bool
  test = lookup_test r.slots key_hash key

  abbrev read_at : Bucket → OptimisticResult
  read_at b = read_slot r now (some b.slot_index)

  read_hit :
      (b : Bucket) (i : ℕ)
      → b.slot_index ≡ pos i
      → i < r.header.capacity
      → (r.slots i).key_len + (r.slots i).value_len ≤ max_data_size r.header
      → read_bucket r now key_hash key b ≡ (if test b then some (read_at b) else none)
  unfolding read_bucket lookup_test key_matches read_slot
  read_hit b i e low fit = rw e (ground arith)

  read_agrees :
      (p : ℕ)
      → p < n
      → Full (r.buckets p)
      → read_bucket r now key_hash key (r.buckets p)
        ≡ (if test (r.buckets p) then some (read_at (r.buckets p)) else none)
  read_agrees p hp full =
      let (i, on, e) = slot_behind c.table p hp full in
      read_hit (r.buckets p) i (ap (λ (b : Bucket). b.slot_index) e)
        (omega (arith, c.placed.low_x i on, c.shape.capacity))
        (omega (arith, c.fits i on, c.shape.space))

  unfoldable read_probe : Option ℕ → OptimisticResult
  unfolding read_slot
  read_probe none = not_found
  read_probe (some p) = read_at (r.buckets p)

  checked_from-probe :
      (rounds idx : ℕ)
      → idx < n
      → checked_from rounds r now key_hash key idx
        ≡ read_probe (probe rounds r.header.ht_capacity r.buckets test idx)
  unfolding checked_from probe read_probe
  checked_from-probe zero idx h = refl
  checked_from-probe (suc rounds) idx h =
      let nx = next_index r.header.ht_capacity idx in
      let low : nx < n =
        subst (λ k. next_index k idx < n) (sym c.shape.ht_capacity)
          (subst (λ k. k < n) (sym (next_index-eq c.table.sized idx h))
            (succ_on-lt c.table.sized idx h)) in
      let rest = checked_from-probe rounds nx low in
      elim (Bool-cases (is_none (r.buckets idx).slot_index)) [
        | inl empty ↦ ground (arith)
        | inr used ↦
            let full : Full (r.buckets idx) = ground arith in
            let here = read_agrees idx h full in
            elim (Bool-cases (test (r.buckets idx))) [
              | inl pass ↦ rw (used, here, pass) refl
              | inr fails ↦ rw (used, here, fails) rest
            ]
      ]

  read_probe-lookup :
      (o : Option ℕ)
      → read_probe o
        ≡ read_slot r now (elim o [ none ↦ none | some p ↦ some (r.buckets p).slot_index ])
  unfolding read_probe read_slot
  read_probe-lookup none = refl
  read_probe-lookup (some p) = refl

  -- On a well-formed cache the lookup of a reader, with its bounds checks, gives what `ht_lookup` gives:
  -- not found for none, and for a slot its value, or that it is expired.
  pub ht_lookup_checked-ht_lookup :
      ht_lookup_checked r now key_hash key
      ≡ read_slot r now (ht_lookup r.buckets r.header.ht_capacity r.slots key_hash key)
  unfolding ht_lookup_checked ht_lookup
  ht_lookup_checked-ht_lookup =
      checked_from-probe r.header.ht_capacity (start_index r.header.ht_capacity key_hash) (
        subst (λ k. start_index k key_hash < n) (sym c.shape.ht_capacity)
          (start_index-lt c.table.sized key_hash))
      ∙ read_probe-lookup (
          probe r.header.ht_capacity r.header.ht_capacity r.buckets test
            (start_index r.header.ht_capacity key_hash))
