-- ===== src/Tests/Sections.antt =====
-- A reader of the cache of Tests.Cache, byte for byte in the mapped memory, after one insertion.
use warp_cache.Base.{
  ℕ, zero, suc, ◌+◌, ◌<◌, ◌≡◌, refl, sym, subst, ◌∙◌, arith, true, none, some, List, [], ◌∷◌, pos,
  ℤ, slice,
}
use warp_cache.Shm.Region.{Region, init_slots, init_buckets}
use warp_cache.Shm.HashTable.{ht_insert, ht_lookup, probe, start_index}
use warp_cache.Shm.Ordering.{list_push_tail}
use warp_cache.Shm.Lock.{init, is_even, read_validate, read, read_begin, pick}
use warp_cache.Shm.Cache.{
  OptimisticResult, hit, ht_lookup_checked, insert_inner, shm_config, insert_entry, allocate,
  write_entry, link_entry,
}
use warp_cache.Shm.Cache.History
use warp_cache.Shm.Cache.History.{Event, insert, latest}
use warp_cache.Shm.Optimistic.{
  ret, Runs, begin, next, load_bytes, found_prog, sized_prog, slot_prog, bucket_prog, lookup_prog,
  optimistic_prog, region_of,
}
use warp_cache.Shm.Optimistic.Agrees.{SameSlot}
use warp_cache.Shm.Optimistic.Sections
use warp_cache.Shm.Optimistic.Sections.{Whole, get_optimistic-latest}
use warp_cache.Tests.Cache.{key, value, entry_cache, entry_Runs}
use warp_cache.Tests.Reader.{value_at, seen_of, after, steps, after-pc, loads_word}

-- the fields that are not 0, by their offsets
abbrev fields : List (ℕ × ℕ)
fields =
    (0, 70)
    ∷ (1, 67)
    ∷ (2, 65)
    ∷ (3, 67)
    ∷ (4, 72)
    ∷ (5, 69)
    ∷ (6, 48)
    ∷ (7, 49)
    ∷ (40, 3)
    ∷ (48, 2)
    ∷ (52, 4)
    ∷ (56, 76)
    ∷ (60, 4)
    ∷ (64, 8)
    ∷ (68, 1)
    ∷ (80, 1)
    ∷ (84, 4294967295)
    ∷ (264, 4294967295)
    ∷ (272, 9)
    ∷ (296, 4294967295)
    ∷ (312, 4294967295)
    ∷ (320, 9)
    ∷ (328, 50)
    ∷ (352, 1)
    ∷ (356, 2)
    ∷ (360, 3)
    ∷ (364, 4294967295)
    ∷ (368, 4294967295)
    ∷ (384, 8)
    ∷ (386, 1)
    ∷ (387, 2)
    ∷ (388, 3)
    ∷ (440, 4294967295)
    ∷ (444, 4294967295)
    ∷ []

abbrev mapped : ℕ → ℕ
mapped = value_at fields

header-same : (region_of mapped).header ≡ entry_cache.region.header
unfolding region_of insert_inner insert_entry allocate write_entry link_entry shm_config init_slots
    init_buckets ht_lookup probe start_index list_push_tail
header-same = refl

bucket-same : (i : ℕ) → i < 4 → (region_of mapped).buckets i ≡ entry_cache.region.buckets i
unfolding region_of insert_inner insert_entry allocate write_entry link_entry shm_config init_slots
    init_buckets ht_lookup probe start_index ht_insert
bucket-same zero h = refl
bucket-same (suc zero) h = refl
bucket-same (suc (suc zero)) h = refl
bucket-same (suc (suc (suc zero))) h = refl
bucket-same (suc (suc (suc (suc i)))) h = absurd (omega arith)

slice-at : (f g : ℕ → ℕ) (o n j : ℕ) → slice f o n ≡ slice g o n → j < n → f (o + j) ≡ g (o + j)
slice-at f g o zero j e h = absurd (omega arith)
slice-at f g o (suc n) zero e h = let z : o + 0 ≡ o = omega arith in rw z (ground arith)
slice-at f g o (suc n) (suc j) e h =
    let z : o + suc j ≡ suc o + j = omega arith in
    rw z (slice-at f g (suc o) n j (ground arith) (omega arith))

bytes_same : (f g : ℕ → ℕ) → slice f 0 12 ≡ slice g 0 12 → (j : ℕ) → j < 12 → f j ≡ g j
bytes_same f g e j h =
    let z : 0 + j ≡ j = omega arith in subst (λ x. f x ≡ g x) z (slice-at f g 0 12 j e h)

slot-same : (i : ℕ) → i < 2 → SameSlot 12 ((region_of mapped).slots i) (entry_cache.region.slots i)
unfolding region_of insert_inner insert_entry allocate write_entry link_entry shm_config init_slots
    init_buckets ht_lookup probe start_index list_push_tail
slot-same zero h = record { fields = refl; bytes = bytes_same _ _ refl }
slot-same (suc zero) h = record { fields = refl; bytes = bytes_same _ _ refl }
slot-same (suc (suc i)) h = absurd (omega arith)

mapped-Whole : Whole 2 4 8 none (insert 9 key value ∷ []) mapped
unfolding region_of insert_inner insert_entry allocate write_entry link_entry shm_config init_slots
    init_buckets ht_lookup probe start_index list_push_tail
mapped-Whole = record {
  region = entry_cache.region;
  history = entry_Runs;
  agrees = record { header = header-same; buckets = bucket-same; slots = slot-same };
}

after-Sections :
    (xs : List ℕ)
    → Sections.Sections 2 4 8 none mapped
        (insert 9 key value ∷ [])
        (steps mapped xs)
        (after mapped xs)
unfolding init is_even
after-Sections [] =
    Sections.other 0
      (Sections.other 0 (Sections.begin mapped-Whole) (λ q e. absurd (ground arith)) (pick read))
      (λ q e. absurd (ground arith)) (pick (read_begin refl))
after-Sections (a ∷ xs) =
    Sections.other 0 (after-Sections xs)
      (λ q e. let d = sym (after-pc mapped xs) ∙ e in absurd (ground arith))
      (pick (loads_word mapped a xs))

-- the loads of the reader, the last one first
abbrev loads : List ℕ
loads =
    388 ∷ 387 ∷ 386 ∷ 385 ∷ 384 ∷ 360 ∷ 356 ∷ 356 ∷ 352 ∷ 280 ∷ 272 ∷ 280 ∷ 52 ∷ 64 ∷ 60 ∷ 8 ∷ 48
    ∷ 56 ∷ 52 ∷ []

loads-Runs : Runs (optimistic_prog 60 9 key) (seen_of mapped loads) (ret (hit value (pos 0)))
unfolding optimistic_prog lookup_prog bucket_prog slot_prog sized_prog found_prog load_bytes
    start_index
loads-Runs = next 388 _ (
    next 387 _ (
      next 386 _ (
        next 385 _ (
          next 384 _ (
            next 360 _ (
              next 356 _ (
                next 356 _ (
                  next 352 _ (
                    next 280 _ (
                      next 272 _ (
                        next 280 _ (
                          next 52 _ (
                            next 64 _ (
                              next 60 _
                                (next 8 _ (next 48 _ (next 56 _ (next 52 _ begin))))))))))))))))))

loads-valid : read_validate (after mapped loads).mem 0 ≡ true
unfolding read_validate init
loads-valid = refl

abbrev answer : OptimisticResult
answer = hit value (pos 0)

get_optimistic-latest_example :
    (r : Region) × History.Runs 2 4 8 none (insert 9 key value ∷ []) r
    × (answer ≡ ht_lookup_checked r 60 9 key)
    × ((v : List ℕ) (index : ℤ)
        → answer ≡ hit v index
        → latest (insert 9 key value ∷ []) 9 key ≡ some v)
get_optimistic-latest_example =
    get_optimistic-latest (omega arith) (omega arith) (omega arith) 0 0 (seen_of mapped loads) 60 9
      key answer (omega arith) (after-Sections loads) (after-pc mapped loads) loads-Runs loads-valid
      (omega arith)
