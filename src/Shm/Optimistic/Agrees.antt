-- ===== src/Shm/Optimistic/Agrees.antt =====
-- Two regions that are the same inside the areas of the file look the same to the lookup of src/shm/mod.rs.
use warp_cache.Base.{
  ℕ, zero, suc, ◌+◌, ◌%◌, ◌^◌, ◌<◌, ◌≡◌, inl, inr, refl, sym, ap, subst, ◌∙◌, arith, Bool-cases,
  ◌==◌, ◌&&◌, not, ltb, if◌then◌else◌, Option, none, some, List, ℤ, pos, negsuc, is_none, slice,
  slice_congr, bytes_eq, length,
}
use warp_cache.Shm.Layout.{Header, Bucket, Slot}
use warp_cache.Shm.HashTable.{start_index, next_index}
use warp_cache.Shm.HashTable.Ring.{IsPow2, start_index-lt, next_index-eq, succ_on-lt}
use warp_cache.Shm.Region.{Region}
use warp_cache.Shm.Cache.{
  OptimisticResult, hit, not_found, expired, is_expired, max_data_size, value_of, read_bucket,
  checked_from, ht_lookup_checked,
}

-- the same fields, and the same bytes of key and value
pub record SameSlot (space : ℕ) (s s' : Slot) : Type 0 where
  pub fields : record s { bytes = λ j. 0 } ≡ record s' { bytes = λ j. 0 }
  pub bytes : (j : ℕ) → j < space → s.bytes j ≡ s'.bytes j

pub record Agrees (r r' : Region) : Type 0 where
  pub header : r.header ≡ r'.header
  pub buckets : (i : ℕ) → i < r'.header.ht_capacity → r.buckets i ≡ r'.buckets i
  pub slots :
      (i : ℕ) → i < r'.header.capacity → SameSlot (max_data_size r'.header) (r.slots i) (r'.slots i)

-- what `read_bucket` makes of a slot
abbrev view : ℕ → List ℕ → ℤ → Header → Slot → Option OptimisticResult
view now key_bytes index h s =
    let read = if is_expired h s now then expired index else hit (value_of s) index in
    let compared = if bytes_eq (slice s.bytes 0 s.key_len) key_bytes then some read else none in
    let sized =
      if ltb (max_data_size h) (s.key_len + s.value_len) then some not_found else compared in
    if not (s.occupied == 0) && (s.key_len == length key_bytes % 2 ^ 32) then sized else none

module _ (now : ℕ) (key_bytes : List ℕ) (index : ℤ) (h : Header) where
  view_bytes :
      (s : Slot) (b : ℕ → ℕ)
      → ((j : ℕ) → j < max_data_size h → b j ≡ s.bytes j)
      → view now key_bytes index h (record s { bytes = b }) ≡ view now key_bytes index h s
  view_bytes s b same = elim (Bool-cases (ltb (max_data_size h) (s.key_len + s.value_len))) [
    | inl long ↦ rw long refl
    | inr short ↦
        let k : slice b 0 s.key_len ≡ slice s.bytes 0 s.key_len =
          slice_congr b s.bytes 0 s.key_len (λ j low high. same j (ground arith)) in
        let v : slice b s.key_len s.value_len ≡ slice s.bytes s.key_len s.value_len =
          slice_congr b s.bytes s.key_len s.value_len (λ j low high. same j (ground arith)) in
        rw (k, v) refl
  ]

  view-SameSlot :
      (s s' : Slot)
      → SameSlot (max_data_size h) s s'
      → view now key_bytes index h s ≡ view now key_bytes index h s'
  view-SameSlot s s' same =
      let e : s ≡ record s' { bytes = s.bytes } =
        ap (λ (x : Slot). record x { bytes = s.bytes }) same.fields in
      ap (λ x. view now key_bytes index h x) e ∙ view_bytes s' s.bytes same.bytes

module _ (r r' : Region) (agrees : Agrees r r') (now key_hash : ℕ) (key_bytes : List ℕ) where
  view_index :
      (i : ℕ)
      → (if ltb i r'.header.capacity
          then view now key_bytes (pos i) r'.header (r.slots i)
          else some not_found)
        ≡ (if ltb i r'.header.capacity
            then view now key_bytes (pos i) r'.header (r'.slots i)
            else some not_found)
  view_index i = elim (Bool-cases (ltb i r'.header.capacity)) [
    | inr high ↦ rw high refl
    | inl low ↦ rw low (
        view-SameSlot now key_bytes (pos i) r'.header (r.slots i) (r'.slots i)
          (agrees.slots i (ground arith)))
  ]

  abbrev judged : Header → (ℕ → Slot) → Bucket → Option OptimisticResult
  judged h slots bucket =
      read_bucket (record { header = h; buckets = r'.buckets; slots = slots }) now key_hash
        key_bytes bucket

  bucket_agrees :
      (h : ℕ) (index : ℤ)
      → judged r'.header r.slots (record { hash = h; slot_index = index })
        ≡ judged r'.header r'.slots (record { hash = h; slot_index = index })
  unfolding read_bucket
  bucket_agrees h (negsuc i) = refl
  bucket_agrees h (pos i) = ap (λ x. if h == key_hash then x else none) (view_index i)

  buckets_agree :
      (i : ℕ)
      → i < r'.header.ht_capacity
      → read_bucket r now key_hash key_bytes (r.buckets i)
        ≡ read_bucket r' now key_hash key_bytes (r'.buckets i)
  unfolding read_bucket
  buckets_agree i low =
      let b = r.buckets i in
      ap (λ h. judged h r.slots b) agrees.header
      ∙ bucket_agrees b.hash b.slot_index
      ∙ ap (λ x. judged r'.header r'.slots x) (agrees.buckets i low)

  -- one round of the loop
  abbrev picked : Bucket → Option OptimisticResult → OptimisticResult → OptimisticResult
  picked bucket found rest =
      let here : OptimisticResult = elim found [ none ↦ rest | some x ↦ x ] in
      if is_none bucket.slot_index then not_found else here

  from_agrees :
      IsPow2 r'.header.ht_capacity
      → (rounds idx : ℕ) → idx < r'.header.ht_capacity
      → checked_from rounds r now key_hash key_bytes idx
        ≡ checked_from rounds r' now key_hash key_bytes idx
  unfolding checked_from
  from_agrees sized zero idx low = refl
  from_agrees sized (suc rounds) idx low =
      let n = r'.header.ht_capacity in
      let step : next_index r.header.ht_capacity idx ≡ next_index n idx =
        ap (λ (h : Header). next_index h.ht_capacity idx) agrees.header in
      let below : next_index n idx < n =
        subst (λ x. x < n) (sym (next_index-eq sized idx low)) (succ_on-lt sized idx low) in
      let rest = from_agrees sized rounds (next_index n idx) below in
      let old = read_bucket r now key_hash key_bytes (r.buckets idx) in
      ap (λ x. picked (r.buckets idx) old (checked_from rounds r now key_hash key_bytes x)) step
      ∙ ap (λ x. picked (r.buckets idx) old x) rest
      ∙ ap
          (λ x.
            picked (r.buckets idx) x
              (checked_from rounds r' now key_hash key_bytes (next_index n idx)))
          (buckets_agree idx low)
      ∙ ap
          (λ x.
            picked x (read_bucket r' now key_hash key_bytes (r'.buckets idx))
              (checked_from rounds r' now key_hash key_bytes (next_index n idx)))
          (agrees.buckets idx low)

-- A table whose size is a power of two: the lookup gives the same on both regions.
pub Agrees-ht_lookup_checked :
    (r r' : Region) (now key_hash : ℕ) (key_bytes : List ℕ)
    → Agrees r r'
    → IsPow2 r'.header.ht_capacity
    → ht_lookup_checked r now key_hash key_bytes ≡ ht_lookup_checked r' now key_hash key_bytes
unfolding ht_lookup_checked
Agrees-ht_lookup_checked r r' now key_hash key_bytes agrees sized =
    let n = r'.header.ht_capacity in
    ap
      (λ (h : Header).
        checked_from h.ht_capacity r now key_hash key_bytes (start_index h.ht_capacity key_hash))
      agrees.header
    ∙ from_agrees r r' agrees now key_hash key_bytes sized n (start_index n key_hash)
        (start_index-lt sized key_hash)
