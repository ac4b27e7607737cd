-- ===== src/Shm/Region/Start.antt =====
-- `create_or_open` of src/shm/region.rs in many processes at once, under the advisory lock of the `.init` file: each
-- write of `create` that the others could see is a step. All processes have the same parameters.
pub mod Phase
pub mod Steps
pub mod Once
pub mod Filling
pub mod Half
use warp_cache.Base.{
  ℕ, zero, suc, ◌+◌, ◌≡◌, Bool, true, false, if◌then◌else◌, Option, none, some, List, [], ◌∷◌, pos,
  update,
}
use warp_cache.Shm.Region.{
  Region, Config, Error, Result, ok, err, zero_bucket, zero_slot, init_header, table_size, create,
  open_paths, params_match,
}
use warp_cache.Shm.Region.Fresh.{Matches}
use warp_cache.Shm.Layout.{Header}

-- `open_paths` succeeds and the parameters match.
unfoldable pub reusable : Option Region → Config → Bool
unfolding open_paths params_match
reusable none c = false
reusable (some r) c = elim (open_paths r) [
  | ok region ↦ params_match region.header c
  | err e ↦ false
]

-- after `mmap.fill(0)`
abbrev pub zero_header : Header
zero_header = record {
  magic_bytes = 0 ∷ 0 ∷ 0 ∷ 0 ∷ 0 ∷ 0 ∷ 0 ∷ 0 ∷ [];
  ttl_nanos = 0;
  hits = 0;
  misses = 0;
  oversize_skips = 0;
  version_number = 0;
  strategy = 0;
  capacity = 0;
  ht_capacity = 0;
  slot_size = 0;
  max_key_size = 0;
  max_value_size = 0;
  current_size = 0;
  list_head = pos 0;
  list_tail = pos 0;
  free_head = pos 0;
  sieve_hand = pos 0;
}

abbrev pub zeroed : Region
zeroed = record { header = zero_header; buckets = λ i. zero_bucket; slots = λ i. zero_slot }

-- The header is written; the table and the slots are not.
abbrev pub headed : Region → Region
headed r = record { header = r.header; buckets = λ i. zero_bucket; slots = λ i. zero_slot }

-- What the processes share: the two files, how often they have been truncated, the holder of the advisory
-- lock, and how many processes have died inside `create`.
pub record Files : Type 0 where
  pub disk : Option Region
  pub truncations : ℕ
  pub init_lock : Option ℕ
  pub deaths : ℕ

-- Where a process stands in `create_or_open`; with the region that `create` makes, or with the number of
-- truncations before the files it has mapped.
pub data Place : Type 0 where
  outside blocked deciding dead : Place
  creating filling : Region → Place
  opened mapped : (truncations : ℕ) → Place

-- One step of process `i`.
pub data Turn (c : Config) (i : ℕ) (m : Files) : Place → Files → Place → Type 0 where
  enter : Turn c i m outside m blocked
  lock : m.init_lock ≡ none → Turn c i m blocked (record m { init_lock = some i }) deciding
  reopen : reusable m.disk c ≡ true → Turn c i m deciding m (opened m.truncations)
  refuse :
      (e : Error)
      → reusable m.disk c ≡ false
      → create c ≡ err e
      → Turn c i m deciding (record m { init_lock = none }) outside
  truncate :
      (r : Region)
      → reusable m.disk c ≡ false
      → create c ≡ ok r
      → Turn c i m deciding
          (record m { disk = some zeroed; truncations = m.truncations + 1 })
          (creating r)
  write_header :
      {r : Region} → Turn c i m (creating r) (record m { disk = some (headed r) }) (filling r)
  fill : {r : Region} → Turn c i m (filling r) (record m { disk = some r }) (opened m.truncations)
  unlock : {g : ℕ} → Turn c i m (opened g) (record m { init_lock = none }) (mapped g)
  change :
      {g : ℕ} (r : Region)
      → Matches c r
      → Turn c i m (mapped g) (record m { disk = some r }) (mapped g)
  die_deciding : Turn c i m deciding (record m { init_lock = none }) dead
  unmap : {g : ℕ} → Turn c i m (mapped g) m outside
  die_creating :
      {r : Region}
      → Turn c i m (creating r) (record m { init_lock = none; deaths = m.deaths + 1 }) dead
  die_filling :
      {r : Region}
      → Turn c i m (filling r) (record m { init_lock = none; deaths = m.deaths + 1 }) dead

pub record Host : Type 0 where
  pub files : Files
  pub pc : ℕ → Place

pub data Step (c : Config) (s : Host) : Host → Type 0 where
  pick :
      {m : Files} {p : Place} (i : ℕ)
      → Turn c i s.files (s.pc i) m p
      → Step c s (record { files = m; pc = update s.pc i p })

-- The states that follow when no process has begun and the files hold anything.
pub data Reach (c : Config) (disk : Option Region) : Host → Type 0 where
  start : Reach c disk (record {
    files = record { disk = disk; truncations = 0; init_lock = none; deaths = 0 };
    pc = λ _. outside;
  })
  later : {s t : Host} → Reach c disk s → Step c s t → Reach c disk t

-- between `init_file.lock()` and the return of `create_or_open`
abbrev pub in_charge : Place → Bool
in_charge deciding = true
in_charge (creating r) = true
in_charge (filling r) = true
in_charge (opened g) = true
in_charge _ = false

-- inside `create`, behind the truncation
abbrev pub builds : Place → Option Region
builds (creating r) = some r
builds (filling r) = some r
builds _ = none

-- the files that a process has mapped, by the number of truncations before
abbrev pub has_mapped : Place → Option ℕ
has_mapped (opened g) = some g
has_mapped (mapped g) = some g
has_mapped _ = none
