-- ===== src/Tests/Optimistic.antt =====
-- A reader without a lock on a table of one bucket, whose slot holds the key 9 with the value 77.
use warp_cache.Base.{ℕ, ◌≡◌, refl, arith, true, List, [], ◌∷◌, pos}
use warp_cache.Shm.Lock.{
  init, is_even, read_validate, reading, read, read_begin, System, pick, Reach, start, later, Alone,
}
use warp_cache.Shm.Cache.{hit, ht_lookup_checked}
use warp_cache.Shm.Optimistic.{
  ret, Runs, begin, next, load_bytes, found_prog, sized_prog, slot_prog, bucket_prog, lookup_prog,
  optimistic_prog, region_of,
}
use warp_cache.Shm.Optimistic.Linear.{validated-ht_lookup_checked}
use warp_cache.Tests.Reader.{value_at, begun, seen_of, after, steps, after-pc, loads_word}
use warp_cache.Shm.Optimistic.Solo.{undisturbed_read}

abbrev mapped : ℕ → ℕ
mapped = value_at (
    (48, 1)
    ∷ (52, 1)
    ∷ (56, 66)
    ∷ (60, 1)
    ∷ (64, 1)
    ∷ (256, 5)
    ∷ (264, 0)
    ∷ (304, 1)
    ∷ (308, 1)
    ∷ (312, 1)
    ∷ (336, 9)
    ∷ (337, 77)
    ∷ [])

begun-even : is_even (begun mapped).mem.seq ≡ true
unfolding is_even init
begun-even = refl

undisturbed_read_example :
    (n : ℕ) × (seen : List (ℕ × ℕ)) × (t : System) × Alone 0 (begun mapped) n t
    × (t.mem ≡ (begun mapped).mem)
    × (t.pc 0 ≡ reading (begun mapped).mem.seq seen)
    × Runs
        (optimistic_prog 3 5 (9 ∷ []))
        seen
        (ret (ht_lookup_checked (region_of (begun mapped).mem.data_words) 3 5 (9 ∷ [])))
    × (read_validate t.mem (begun mapped).mem.seq ≡ true)
undisturbed_read_example = undisturbed_read 0 (begun mapped) 3 5 (9 ∷ []) refl begun-even

after-Reach : (xs : List ℕ) → Reach mapped (steps mapped xs) (after mapped xs)
unfolding init is_even
after-Reach [] = later 0 (later 0 start (pick read)) (pick (read_begin refl))
after-Reach (a ∷ xs) = later 0 (after-Reach xs) (pick (loads_word mapped a xs))

-- the loads of the reader, the last one first
abbrev loads : List ℕ
loads = 337 ∷ 336 ∷ 312 ∷ 308 ∷ 308 ∷ 304 ∷ 264 ∷ 256 ∷ 264 ∷ 52 ∷ 64 ∷ 60 ∷ 8 ∷ 48 ∷ 56 ∷ 52 ∷ []

loads-Runs :
    Runs (optimistic_prog 3 5 (9 ∷ [])) (seen_of mapped loads) (ret (hit (77 ∷ []) (pos 0)))
unfolding optimistic_prog lookup_prog bucket_prog slot_prog sized_prog found_prog load_bytes
loads-Runs = next 337 _ (
    next 336 _ (
      next 312 _ (
        next 308 _ (
          next 308 _ (
            next 304 _ (
              next 264 _ (
                next 256 _ (
                  next 264 _ (
                    next 52 _ (
                      next 64 _
                        (next 60 _ (next 8 _ (next 48 _ (next 56 _ (next 52 _ begin)))))))))))))))

loads-valid : read_validate (after mapped loads).mem 0 ≡ true
unfolding read_validate init
loads-valid = refl

validated-ht_lookup_checked_example :
    hit (77 ∷ []) (pos 0)
    ≡ ht_lookup_checked (region_of (after mapped loads).mem.data_words) 3 5 (9 ∷ [])
validated-ht_lookup_checked_example =
    validated-ht_lookup_checked 0 0 (seen_of mapped loads) 3 5 (9 ∷ []) (hit (77 ∷ []) (pos 0))
      (omega arith) (after-Reach loads) (after-pc mapped loads) loads-Runs loads-valid
