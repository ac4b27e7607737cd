-- ===== src/Tests/Start.antt =====
-- Two processes that open one cache of 4 entries, a crash between, and the directory of the files.
use warp_cache.Base.{ℕ, ◌≤◌, ◌≡◌, ◌⊎◌, arith, update, refl, true, false, none, some, is_none}
use warp_cache.Base.Pow2.{next_power_of_two}
use warp_cache.Shm.Region.{
  Region, ok, zero_bucket, zero_slot, init_header, init_slots, init_buckets, table_size,
  checked_double, checked_next_power_of_two, create, open_paths, params_match,
}
use warp_cache.Shm.Region.Fresh.{Matches, create-Matches}
use warp_cache.Shm.Region.Start.{
  reusable, headed, Files, Place, deciding, dead, filling, opened, Turn, enter, lock, truncate,
  write_header, fill, unlock, reopen, die_filling, Host, pick, Reach, start, later, has_mapped,
}
use warp_cache.Shm.Region.Start.Once.{created_once}
use warp_cache.Shm.Region.Start.Phase.{Matches-reusable}
use warp_cache.Shm.Region.Start.Half.{Waits, here, next, half_created}
use warp_cache.Shm.Region.Dir.{
  Node, directory, Os, IsOs, ensure_secure_dir, Ensures, ensure_secure_dir-Ensures,
}
use warp_cache.Tests.Ordering.{small}

abbrev four_entries : Region
four_entries = record {
  header = init_header small 8;
  buckets = init_buckets (λ i. zero_bucket) 8;
  slots = init_slots 4 (λ i. zero_slot) 4;
}

created : create small ≡ ok four_entries
unfolding create table_size checked_double checked_next_power_of_two next_power_of_two
created = refl

nothing_there : reusable none small ≡ false
unfolding reusable
nothing_there = refl

fits : reusable (some four_entries) small ≡ true
fits = Matches-reusable small four_entries (create-Matches small four_entries created)

half_fits : reusable (some (headed four_entries)) small ≡ true
unfolding reusable open_paths params_match
half_fits = refl

two_mapped :
    (s : Host) × Reach small none s
    × (s.files.deaths ≡ 0)
    × (has_mapped (s.pc 0) ≡ some 1)
    × (has_mapped (s.pc 1) ≡ some 1)
two_mapped =
    let locked = later (later start (pick 0 enter)) (pick 0 (lock refl)) in
    let written =
      later
        (later (later locked (pick 0 (truncate four_entries nothing_there created)))
          (pick 0 write_header))
        (pick 0 fill) in
    let waiting =
      later (later (later written (pick 1 enter)) (pick 0 unlock)) (pick 1 (lock refl)) in
    (_, later waiting (pick 1 (reopen fits)), refl, refl, refl)

created_once_example :
    (two_mapped.0.files.truncations ≤ 1)
    × ((i g : ℕ)
        → has_mapped (two_mapped.0.pc i) ≡ some g
        → (g ≡ two_mapped.0.files.truncations)
          × ((r : Region) × (two_mapped.0.files.disk ≡ some r) × Matches small r))
created_once_example = created_once small none two_mapped.0 two_mapped.1 two_mapped.2

-- process 0 is about to fill the table
abbrev half_made :
    (s : Host) × Reach small none s × (s.files.deaths ≡ 0) × (s.pc 0 ≡ filling four_entries)
half_made =
    let locked = later (later start (pick 0 enter)) (pick 0 (lock refl)) in
    (
      _,
      later (later locked (pick 0 (truncate four_entries nothing_there created)))
          (pick 0 write_header),
      refl,
      refl,
    )

abbrev left_behind : Files
left_behind = record {
  disk = some (headed four_entries);
  truncations = 1;
  init_lock = none;
  deaths = 1;
}

abbrev after_death : Host
after_death = record { files = left_behind; pc = update half_made.0.pc 0 dead }

-- process 1 begins, takes the lock and maps the files
next_maps : (t : Host) × Waits small after_death t × (has_mapped (t.pc 1) ≡ some 1)
next_maps = (
  _,
  next
      (next (next here (λ j. ground arith) (pick 1 enter)) (λ j. ground arith) (pick 1 (lock refl)))
      (λ j. ground arith) (pick 1 (reopen half_fits)),
  refl,
)

half_created_example :
    (next_maps.0.files.disk ≡ some (headed four_entries))
    × (next_maps.0.files.truncations ≡ half_made.0.files.truncations)
    × ((j : ℕ) (m' : Files) (p : Place)
        → Turn small j next_maps.0.files deciding m' p
        → (m'.disk ≡ some (headed four_entries))
          × ((p ≡ opened half_made.0.files.truncations) ⊎ (p ≡ dead)))
    × ((j : ℕ) → is_none ((headed four_entries).buckets j).slot_index ≡ false)
half_created_example =
    half_created small none half_made.0 0 four_entries left_behind next_maps.0 half_made.1
      half_made.2 half_made.3 die_filling next_maps.1

abbrev os : Os
os = record {
  current_uid = 1000;
  masked = λ mode. mode;
  create_error = none;
  occupied_error = none;
  metadata_error = none;
  chmod_error = none;
}

os-IsOs : IsOs os
os-IsOs = record { takes_away = λ mode bits h. h }

-- readable for everyone, 0o755
abbrev open_dir : Node
open_dir = record { file_type = directory; uid = 1000; mode = 493 }

ensure_secure_dir-Ensures_example :
    Ensures os (some open_dir) (ensure_secure_dir os (some open_dir))
ensure_secure_dir-Ensures_example = ensure_secure_dir-Ensures os os-IsOs (some open_dir)
