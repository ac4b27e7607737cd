-- ===== src/Shm/HashTable/Laws.antt =====
-- What the operations of the hash table promise, in terms of the buckets that are stored.
use warp_cache.Base.{
  ℕ, zero, suc, ◌^◌, ◌≤◌, ◌<◌, ◌≡◌, ◌≢◌, refl, sym, ap, subst, ◌∙◌, arith, ℕ_discrete, Bool, true,
  false, Option-cases, inl, inr, ◌⊎◌, ◌↔◌, some, List, length, slice, ℤ, pos, as_usize, update,
  bytes_eq, bytes_eq_refl, eq_of_bytes_eq,
}
use native.Mathlib.Nat.{mod-eq_of_lt}
use warp_cache.Shm.Layout.{Bucket, Slot}
use warp_cache.Shm.HashTable.{
  start_index, key_matches, lookup_test, remove_test, probe, ht_lookup, ht_insert, ht_remove,
  ht_clear, empty_bucket,
}
use warp_cache.Shm.HashTable.Ring.{IsPow2, start_index-lt}
use warp_cache.Shm.HashTable.Probe.{Full, NoGap, probe_sound, probe_finds}
use warp_cache.Shm.HashTable.Insert.{Empty, update-NoGap, ht_insert-Place}
use warp_cache.Shm.HashTable.Remove.{StoredBut, Stored, Removed}
use warp_cache.Shm.HashTable.Remove.Loop.{remove_at-Removed}

-- A table of `n` buckets, `n` a power of two: no gaps, and at least one bucket is empty.
pub record IsTable (n : ℕ) (ht : ℕ → Bucket) : Type 0 where
  pub sized : IsPow2 n
  pub no_gap : NoGap n ht
  pub room : (e : ℕ) × (e < n) × Empty (ht e)

abbrev pub slot_of : (ℕ → Slot) → Bucket → Slot
slot_of slab b = slab (as_usize b.slot_index)

abbrev pub stored_key : Slot → List ℕ
stored_key s = slice s.bytes 0 s.key_len

-- Every stored bucket leads to an occupied slot, and no two to the same hash and key.
pub record IsIndexed (n : ℕ) (ht : ℕ → Bucket) (slab : ℕ → Slot) : Type 0 where
  pub table : IsTable n ht
  pub live : (i : ℕ) → i < n → Full (ht i) → (slot_of slab (ht i)).occupied ≢ 0
  pub distinct :
      (i j : ℕ)
      → i < n
      → j < n
      → Full (ht i)
      → Full (ht j)
      → (ht i).hash ≡ (ht j).hash
      → stored_key (slot_of slab (ht i)) ≡ stored_key (slot_of slab (ht j))
      → i ≡ j

-- A stored bucket with the hash, whose slot holds the key.
pub record Holds (n : ℕ) (ht : ℕ → Bucket) (slab : ℕ → Slot) (key_hash : ℕ) (key_bytes : List ℕ)
    (i : ℕ) : Type 0 where
  pub within : i < n
  pub full : Full (ht i)
  pub hash : (ht i).hash ≡ key_hash
  pub key : stored_key (slot_of slab (ht i)) ≡ key_bytes

pub length-slice : (f : ℕ → ℕ) (o n : ℕ) → length (slice f o n) ≡ n
length-slice f o zero = refl
length-slice f o (suc n) = ap suc (length-slice f (suc o) n)

key_matches_iff :
    (slot : Slot) (key : List ℕ)
    → length key < 2 ^ 32
    → (key_matches slot key ≡ true) ↔ (stored_key slot ≡ key)
unfolding key_matches
key_matches_iff slot key small = (
  (λ h. ground (arith, eq_of_bytes_eq (stored_key slot) key)),
  (λ e.
      let len : slot.key_len ≡ length key =
        sym (length-slice slot.bytes 0 slot.key_len) ∙ ap length e in
      let same : bytes_eq (stored_key slot) key ≡ true = rw e (bytes_eq_refl key) in
      ground (arith, mod-eq_of_lt {m = 2 ^ 32} small)),
)

module _ (slab : ℕ → Slot) (key_hash : ℕ) (key : List ℕ) (small : length key < 2 ^ 32)
    (b : Bucket) where
  lookup_test_iff :
      (slot_of slab b).occupied ≢ 0
      → (lookup_test slab key_hash key b ≡ true)
        ↔ ((b.hash ≡ key_hash) × (stored_key (slot_of slab b) ≡ key))
  unfolding lookup_test
  lookup_test_iff live = (
    (λ h. (ground arith, (key_matches_iff (slot_of slab b) key small).0 (ground arith))),
    (λ h. ground (arith, (key_matches_iff (slot_of slab b) key small).1 h.1)),
  )

  remove_test_iff :
      (remove_test slab key_hash key b ≡ true)
      ↔ ((b.hash ≡ key_hash) × (stored_key (slot_of slab b) ≡ key))
  unfolding remove_test
  remove_test_iff = (
    (λ h. (ground arith, (key_matches_iff (slot_of slab b) key small).0 (ground arith))),
    (λ h. ground (arith, (key_matches_iff (slot_of slab b) key small).1 h.1)),
  )

module _ {n : ℕ} {ht : ℕ → Bucket} {slab : ℕ → Slot} (ok : IsIndexed n ht slab) (key_hash : ℕ)
    (key : List ℕ) where
  open ok use {table, live, distinct}

  Tests : (Bucket → Bool) → Type 0
  Tests test =
      (i : ℕ)
      → i < n
      → Full (ht i)
      → (test (ht i) ≡ true) ↔ (((ht i).hash ≡ key_hash) × (stored_key (slot_of slab (ht i)) ≡ key))

  Holds-unique : (i j : ℕ) → Holds n ht slab key_hash key i → Holds n ht slab key_hash key j → i ≡ j
  Holds-unique i j a b =
      distinct i j a.within b.within a.full b.full (a.hash ∙ sym b.hash) (a.key ∙ sym b.key)

  probe-Holds :
      (test : Bucket → Bool)
      → Tests test
      → (i : ℕ) → Holds n ht slab key_hash key i
      → probe n n ht test (start_index n key_hash) ≡ some i
  unfolding Tests
  probe-Holds test tests i h =
      subst (λ x. probe n n ht test (start_index n x) ≡ some i) h.hash
        (probe_finds table.sized ht test i table.no_gap h.within h.full
          ((tests i h.within h.full).1 (h.hash, h.key))
          (λ j hj full pass.
            let same = (tests j hj full).0 pass in
            Holds-unique j i (record { within = hj; full = full; hash = same.0; key = same.1 }) h))

  probe-Holds_back :
      (test : Bucket → Bool)
      → Tests test
      → (i : ℕ) → probe n n ht test (start_index n key_hash) ≡ some i
      → Holds n ht slab key_hash key i
  unfolding Tests
  probe-Holds_back test tests i e =
      let (lt, full, pass) =
        probe_sound table.sized ht test n (start_index n key_hash)
          (start_index-lt table.sized key_hash) e in
      let same = (tests i lt full).0 pass in
      record { within = lt; full = full; hash = same.0; key = same.1 }

module _ {n : ℕ} {ht : ℕ → Bucket} {slab : ℕ → Slot} (ok : IsIndexed n ht slab) (key_hash : ℕ)
    (key : List ℕ) (small : length key < 2 ^ 32) where
  lookup_Tests : Tests ok key_hash key (lookup_test slab key_hash key)
  unfolding Tests
  lookup_Tests i hi full = lookup_test_iff slab key_hash key small (ht i) (ok.live i hi full)

  remove_Tests : Tests ok key_hash key (remove_test slab key_hash key)
  unfolding Tests
  remove_Tests i hi full = remove_test_iff slab key_hash key small (ht i)

  lookup_hit :
      (i : ℕ)
      → Holds n ht slab key_hash key i
      → ht_lookup ht n slab key_hash key ≡ some (ht i).slot_index
  unfolding ht_lookup
  lookup_hit i h =
      rw (ht_lookup, probe-Holds ok key_hash key (lookup_test slab key_hash key) lookup_Tests i h)

  lookup_back :
      (s : ℤ)
      → ht_lookup ht n slab key_hash key ≡ some s
      → (i : ℕ) × Holds n ht slab key_hash key i × ((ht i).slot_index ≡ s)
  unfolding ht_lookup
  lookup_back s e =
      elim (Option-cases (probe n n ht (lookup_test slab key_hash key) (start_index n key_hash))) [
        | inl miss ↦ absurd (ground arith)
        | inr (i, hit) ↦ (i, probe-Holds_back ok key_hash key _ lookup_Tests i hit, ground arith)
      ]

  -- In a well-formed table and for a key shorter than 2^32 bytes, `ht_lookup` returns a slot index
  -- exactly when a stored bucket has the hash, leads to a slot that holds the key, and has that
  -- index.
  pub ht_lookup_iff :
      (s : ℤ)
      → (ht_lookup ht n slab key_hash key ≡ some s)
        ↔ ((i : ℕ) × Holds n ht slab key_hash key i × ((ht i).slot_index ≡ s))
  ht_lookup_iff s = (lookup_back s, (λ (i, h, e). lookup_hit i h ∙ ap some e))

  -- the search of `ht_remove` finds the bucket, and the deletion ends
  pub ht_remove-Removed :
      (i : ℕ)
      → Holds n ht slab key_hash key i
      → (ht' : ℕ → Bucket) × (ht_remove ht n slab key_hash key ≡ some (true, ht'))
        × Removed n i ht ht'
  unfolding ht_remove
  ht_remove-Removed i h =
      let (e, he, empty) = ok.table.room in
      let (ht', run, done) =
        remove_at-Removed ok.table.sized e ok.table.no_gap h.within he h.full empty in
      (
        ht',
        rw (ht_remove, probe-Holds ok key_hash key (remove_test slab key_hash key) remove_Tests i h)
            run,
        done,
      )

  -- In a well-formed table, `ht_remove` of a stored key shorter than 2^32 bytes ends and returns
  -- true; the new table has no gap, stores exactly the other buckets, and nothing is written outside
  -- of it.
  pub ht_remove-Stored :
      (i : ℕ)
      → Holds n ht slab key_hash key i
      → (ht' : ℕ → Bucket) × (ht_remove ht n slab key_hash key ≡ some (true, ht'))
        × IsTable n ht'
        × ((b : Bucket) → Stored n ht' b ↔ (Stored n ht b × (b ≢ ht i)))
        × ((p : ℕ) → n ≤ p → ht' p ≡ ht p)
  ht_remove-Stored i h =
      let (ht', run, done) = ht_remove-Removed i h in
      (
        ht',
        run,
        record { sized = ok.table.sized; no_gap = done.no_gap; room = done.room },
        (λ b. ((λ s. others b ((done.kept b).0 s)), (λ s. (done.kept b).1 (but b s)))),
        done.outside,
      )
    where
      others : (b : Bucket) → StoredBut i n ht b → Stored n ht b × (b ≢ ht i)
      others b (j, hj, ne, full, same) = (
        (j, hj, full, same),
        (λ d.
            let both : ht j ≡ ht i = same ∙ d in
            ne (
              ok.distinct j i hj h.within full h.full (ap (λ (x : Bucket). x.hash) both)
                (ap (λ (x : Bucket). stored_key (slot_of slab x)) both))),
      )

      but : (b : Bucket) → Stored n ht b × (b ≢ ht i) → StoredBut i n ht b
      but b ((j, hj, full, same), ne) = (j, hj, (λ d. ne (sym same ∙ ap ht d)), full, same)

  -- In a well-formed table, `ht_remove` of a key shorter than 2^32 bytes that is not stored returns
  -- false and leaves the table as it is.
  pub ht_remove_absent :
      ((i : ℕ) → ¬ Holds n ht slab key_hash key i)
      → ht_remove ht n slab key_hash key ≡ some (false, ht)
  unfolding ht_remove
  ht_remove_absent none_holds =
      elim (Option-cases (probe n n ht (remove_test slab key_hash key) (start_index n key_hash))) [
        | inl miss ↦ rw (ht_remove, miss)
        | inr (i, hit) ↦
            absurd (none_holds i (probe-Holds_back ok key_hash key _ remove_Tests i hit))
      ]

module _ {n : ℕ} {ht : ℕ → Bucket} (ok : IsTable n ht) (key_hash s : ℕ) where
  abbrev added : Bucket
  added = record { hash = key_hash; slot_index = pos s }

  -- In a table whose size is a power of two, without a gap and with an empty bucket, `ht_insert` leaves
  -- no gap, stores the new bucket beside exactly the old ones, and writes nothing outside of the table.
  pub ht_insert_lem :
      let ht' = ht_insert ht n key_hash (pos s) in
      NoGap n ht'
      × ((b : Bucket) → Stored n ht' b ↔ (Stored n ht b ⊎ (b ≡ added)))
      × ((p : ℕ) → n ≤ p → ht' p ≡ ht p)
  ht_insert_lem =
      let (e, he, empty) = ok.room in
      let place = ht_insert-Place ok.sized ht key_hash (pos s) e he empty in
      rw place.result (
        update-NoGap ht added refl place.at place.within ok.no_gap place.was_empty place.path,
        (λ b. (forth place.at place.within b, back place.at place.within place.was_empty b)),
        (λ p hp. let ne : place.at ≢ p = λ d. omega (arith, place.within) in ground arith),
      )
    where
      forth :
          (k : ℕ)
          → k < n
          → (b : Bucket) → Stored n (update ht k added) b
          → Stored n ht b ⊎ (b ≡ added)
      forth k hk b (i, hi, full, same) = elim (ℕ_discrete k i) [
        | yes d ↦ inr (ground arith)
        | no d ↦ inl (i, hi, ground arith, ground arith)
      ]

      back :
          (k : ℕ)
          → k < n
          → Empty (ht k)
          → (b : Bucket) → Stored n ht b ⊎ (b ≡ added)
          → Stored n (update ht k added) b
      back k hk empty b (inl (i, hi, full, same)) =
          let ne : k ≢ i = λ d. ground (arith, subst (λ x. Empty (ht x)) d empty) in
          (i, hi, ground arith, ground arith)
      back k hk empty b (inr same) = (k, hk, ground arith, ground arith)

-- After `ht_clear` every bucket of the table is empty, and what lies behind it is as before.
pub ht_clear_lem :
    (ht : ℕ → Bucket) (n i : ℕ)
    → (i < n → ht_clear ht n i ≡ empty_bucket) × (n ≤ i → ht_clear ht n i ≡ ht i)
unfolding ht_clear
ht_clear_lem ht zero i = ((λ h. absurd (omega arith)), (λ h. refl))
ht_clear_lem ht (suc n) i =
    let below = ht_clear_lem ht n i in
    (
      (λ h. elim (ℕ_discrete n i) [
        | yes d ↦ ground arith
        | no d ↦ ground (arith, below.0 (omega arith))
      ]),
      (λ h. ground (arith, below.1 (omega arith))),
    )
