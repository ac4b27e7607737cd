-- ===== src/Tests/Shm.antt =====
-- A table of 8 buckets with one entry, and a small region.
use warp_cache.Base.{
  ℕ, ◌≤◌, ◌<◌, ◌≡◌, ◌≢◌, ◌↔◌, ◌⊎◌, refl, subst, arith, true, some, [], ◌∷◌, pos, ◌==◌,
  if◌then◌else◌,
}
use warp_cache.Shm.Layout.{Bucket, Slot}
use warp_cache.Shm.HashTable.{
  start_index, next_index, ht_lookup, ht_insert, ht_remove, empty_bucket,
}
use warp_cache.Shm.HashTable.Ring.{dist}
use warp_cache.Shm.HashTable.Probe.{Full, ideal, NoGap}
use warp_cache.Shm.HashTable.Remove.{Stored}
use warp_cache.Shm.HashTable.Laws.{
  IsTable, IsIndexed, Holds, ht_lookup_iff, ht_insert_lem, ht_remove-Stored,
}
use warp_cache.Shm.Region.{
  Region, ok, Config, init_header, create, open_paths, params_match, create_or_open, zero_slot,
}
use warp_cache.Shm.Region.Fresh.{IsFresh, Matches, create-IsFresh, create_or_open_again}

abbrev entry : Bucket
entry = record { hash = 3; slot_index = pos 0 }

abbrev one_table : ℕ → Bucket
one_table i = if i == 3 then entry else empty_bucket

abbrev one_slab : ℕ → Slot
one_slab i = record zero_slot { occupied = 1; key_len = 1; bytes = λ j. 7 }

at_three : (i : ℕ) → Full (one_table i) → i ≡ 3
at_three i full = ground arith

at_ideal :
    (i p : ℕ)
    → i ≡ 3
    → dist 8 (ideal 8 (one_table i)) p < dist 8 (ideal 8 (one_table i)) i
    → dist 8 3 p < 0
unfolding start_index
at_ideal i p e near =
    subst (λ x. dist 8 (ideal 8 (one_table x)) p < dist 8 (ideal 8 (one_table x)) x) e near

one-IsTable : IsTable 8 one_table
one-IsTable = record {
  sized = record { exponent = 3; small = omega arith; power = refl };
  no_gap = λ i p hi hp full near. absurd (omega (arith, at_ideal i p (at_three i full) near));
  room = (0, omega arith, refl);
}

one-IsIndexed : IsIndexed 8 one_table one_slab
one-IsIndexed = record {
  table = one-IsTable;
  live = λ i hi full. ground arith;
  distinct = λ i j hi hj a b same key. ground (arith, at_three i a, at_three j b);
}

one-Holds : Holds 8 one_table one_slab 3 (7 ∷ []) 3
one-Holds = record { within = omega arith; full = refl; hash = refl; key = refl }

lookup_runs : ht_lookup one_table 8 one_slab 3 (7 ∷ []) ≡ some (pos 0)
unfolding ht_lookup
lookup_runs = refl

ht_lookup_iff_example :
    (ht_lookup one_table 8 one_slab 3 (7 ∷ []) ≡ some (pos 0))
    ↔ ((i : ℕ) × Holds 8 one_table one_slab 3 (7 ∷ []) i × ((one_table i).slot_index ≡ pos 0))
ht_lookup_iff_example = ht_lookup_iff one-IsIndexed 3 (7 ∷ []) (omega arith) (pos 0)

ht_remove-Stored_example :
    (ht' : ℕ → Bucket) × (ht_remove one_table 8 one_slab 3 (7 ∷ []) ≡ some (true, ht'))
    × IsTable 8 ht'
    × ((b : Bucket) → Stored 8 ht' b ↔ (Stored 8 one_table b × (b ≢ one_table 3)))
    × ((p : ℕ) → 8 ≤ p → ht' p ≡ one_table p)
ht_remove-Stored_example = ht_remove-Stored one-IsIndexed 3 (7 ∷ []) (omega arith) 3 one-Holds

ht_insert_lem_example :
    NoGap 8 (ht_insert one_table 8 3 (pos 1))
    × ((b : Bucket)
        → Stored 8 (ht_insert one_table 8 3 (pos 1)) b
          ↔ (Stored 8 one_table b ⊎ (b ≡ record { hash = 3; slot_index = pos 1 })))
    × ((p : ℕ) → 8 ≤ p → ht_insert one_table 8 3 (pos 1) p ≡ one_table p)
ht_insert_lem_example = ht_insert_lem (one-IsIndexed.table) 3 1

not_held : (i : ℕ) → ¬ Holds 8 one_table one_slab 3 (8 ∷ []) i
not_held i h = ground (arith, h.key)

-- the second entry with the same ideal position lands in the next bucket
insert_runs : (ht_insert one_table 8 3 (pos 1) 4).slot_index ≡ pos 1
unfolding ht_insert next_index
insert_runs = refl

abbrev config : Config
config = record {
  capacity = 4;
  slot_size = 1088;
  max_key_size = 512;
  max_value_size = 512;
  ttl_nanos = 0;
}

create-IsFresh_example : (r : Region) × (create config ≡ ok r) × IsFresh config r
create-IsFresh_example = create-IsFresh config (omega arith) (omega arith)

abbrev stale : Region
stale = record {
  header = record (init_header config 8) { ttl_nanos = 5 };
  buckets = one_table;
  slots = one_slab;
}

reopened : create_or_open (some stale) config ≡ ok create-IsFresh_example.0
unfolding create_or_open open_paths params_match
reopened = create-IsFresh_example.1

create_or_open_again_example :
    Matches config create-IsFresh_example.0
    × (create_or_open (some create-IsFresh_example.0) config ≡ ok create-IsFresh_example.0)
    × ((some stale ≡ some create-IsFresh_example.0)
        ⊎ (create-IsFresh_example.0.header.slot_size ≡ config.slot_size))
create_or_open_again_example =
    create_or_open_again (some stale) config create-IsFresh_example.0 reopened
