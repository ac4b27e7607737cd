-- ===== src/Shm/Region/Start/Half.antt =====
-- A process that dies in `create` of src/shm/region.rs behind the write of the header, and what the others find.
use warp_cache.Base.{
  ℕ, ◌≡◌, ◌⊎◌, inl, inr, refl, ap, ◌∙◌, arith, false, true, Option, none, some, is_none, update,
}
use warp_cache.Shm.Region.{Region, Config}
use warp_cache.Shm.Region.Fresh.{Matches, create-Matches}
use warp_cache.Shm.Region.Start.{
  reusable, headed, Files, Place, outside, blocked, deciding, dead, creating, filling, opened,
  mapped, Turn, enter, lock, reopen, refuse, truncate, write_header, fill, unlock, change, unmap,
  die_deciding, die_creating, die_filling, Host, Step, pick, Reach, builds, has_mapped,
}
use warp_cache.Shm.Region.Start.Phase.{Matches-reusable, each}
use warp_cache.Shm.Region.Start.Once.{Reach-Inv}
use warp_cache.Shm.Region.Start.Filling.{Filling, phase-Filling, Reach-Headers}

-- The states that follow, up to the first one in which a process has mapped the files.
pub data Waits (c : Config) (s : Host) : Host → Type 0 where
  here : Waits c s s
  next :
      {t u : Host} → Waits c s t → ((j : ℕ) → has_mapped (t.pc j) ≡ none) → Step c t u → Waits c s u

headed-Matches : (c : Config) (r : Region) → Matches c r → Matches c (headed r)
headed-Matches c r m = record {
  magic_bytes = m.magic_bytes;
  version_number = m.version_number;
  capacity = m.capacity;
  max_key_size = m.max_key_size;
  max_value_size = m.max_value_size;
  ttl_nanos = m.ttl_nanos;
}

-- after the death, while no process has mapped the files
record Half (r : Region) (n : ℕ) (m : Files) (pc : ℕ → Place) : Type 0 where
  disk : m.disk ≡ some (headed r)
  same : m.truncations ≡ n
  idle : (j : ℕ) → builds (pc j) ≡ none

module _ {c : Config} {r : Region} {n : ℕ} (match : Matches c (headed r)) where
  fits : {m : Files} {pc : ℕ → Place} → Half r n m pc → reusable m.disk c ≡ true
  fits h = ap (λ x. reusable x c) h.disk ∙ Matches-reusable c (headed r) match

  keep :
      (i : ℕ) {m : Files} {pc : ℕ → Place} (m' : Files) (p : Place)
      → Half r n m pc
      → m'.disk ≡ m.disk
      → m'.truncations ≡ m.truncations
      → builds p ≡ none
      → Half r n m' (update pc i p)
  keep i {m} {pc} m' p h d t quiet = record {
    disk = d ∙ h.disk;
    same = t ∙ h.same;
    idle = each (λ j q. builds q ≡ none) pc i p quiet (λ j ne. h.idle j);
  }

  move-Half :
      (i : ℕ) (m : Files) (pc : ℕ → Place) (m' : Files) (q p : Place)
      → Half r n m pc
      → has_mapped q ≡ none
      → pc i ≡ q
      → Turn c i m q m' p
      → Half r n m' (update pc i p)
  move-Half i m pc m' outside p h free at enter = keep i m p h refl refl refl
  move-Half i m pc m' blocked p h free at (lock l) = keep i m' p h refl refl refl
  move-Half i m pc m' deciding p h free at (reopen e) = keep i m' p h refl refl refl
  move-Half i m pc m' deciding p h free at (refuse e bad failed) =
      let good = fits h in absurd (ground arith)
  move-Half i m pc m' deciding p h free at (truncate r' bad made) =
      let good = fits h in absurd (ground arith)
  move-Half i m pc m' (creating r') p h free at write_header =
      let b = h.idle i in absurd (ground arith)
  move-Half i m pc m' (filling r') p h free at fill = let b = h.idle i in absurd (ground arith)
  move-Half i m pc m' (opened g) p h free at unlock = absurd (ground arith)
  move-Half i m pc m' (mapped g) p h free at (change r' e) = absurd (ground arith)
  move-Half i m pc m' deciding p h free at die_deciding = keep i m' p h refl refl refl
  move-Half i m pc m' (mapped g) p h free at unmap = absurd (ground arith)
  move-Half i m pc m' (creating r') p h free at die_creating =
      let b = h.idle i in absurd (ground arith)
  move-Half i m pc m' (filling r') p h free at die_filling =
      let b = h.idle i in absurd (ground arith)
  move-Half i m pc m' dead p h free at move = elim move [ ]

  Waits-Half : {s t : Host} → Half r n s.files s.pc → Waits c s t → Half r n t.files t.pc
  Waits-Half h here = h
  Waits-Half h (next {t} w free (pick i move)) =
      move-Half i t.files t.pc _ _ _ (Waits-Half h w) (free i) refl move

-- what the process that has the lock may do with the files of a dead one
deciding-Half :
    {c : Config} {r : Region} {n : ℕ} (match : Matches c (headed r)) {m : Files} {pc : ℕ → Place}
    → Half r n m pc
    → (j : ℕ) (m' : Files) (p : Place) → Turn c j m deciding m' p
    → (m'.disk ≡ some (headed r)) × ((p ≡ opened n) ⊎ (p ≡ dead))
deciding-Half match h j m' p (reopen e) = (h.disk, inl (ap opened h.same))
deciding-Half match h j m' p (refuse e bad failed) =
    let good = fits match h in absurd (ground arith)
deciding-Half match h j m' p (truncate r bad made) =
    let good = fits match h in absurd (ground arith)
deciding-Half match h j m' p die_deciding = (h.disk, inr refl)

died :
    {c : Config} {s : Host} {i : ℕ} {r : Region} (m : Files)
    → Filling c s i r
    → s.files.disk ≡ some (headed r)
    → Turn c i s.files (filling r) m dead
    → Half r s.files.truncations m (update s.pc i dead)
died {c} {s} {i} {r} m f on die_filling = record {
  disk = on;
  same = refl;
  idle = each (λ j q. builds q ≡ none) s.pc i dead refl f.alone;
}

-- If a process dies in `create` after the header is written and before the table is, the first one to die in it, then
-- in every state that follows, up to the first one in which a process has mapped the files: they hold the header
-- alone and have not been truncated again; whichever process has the lock maps them as they are, if it does not die; and
-- no bucket of that table is empty.
pub half_created :
    (c : Config) (disk : Option Region) (s : Host) (i : ℕ) (r : Region) (m : Files) (t : Host)
    → Reach c disk s
    → s.files.deaths ≡ 0
    → s.pc i ≡ filling r
    → Turn c i s.files (filling r) m dead
    → Waits c (record { files = m; pc = update s.pc i dead }) t
    → (t.files.disk ≡ some (headed r))
      × (t.files.truncations ≡ s.files.truncations)
      × ((j : ℕ) (m' : Files) (p : Place)
          → Turn c j t.files deciding m' p
          → (m'.disk ≡ some (headed r)) × ((p ≡ opened s.files.truncations) ⊎ (p ≡ dead)))
      × ((j : ℕ) → is_none ((headed r).buckets j).slot_index ≡ false)
half_created c disk s i r m t reached alive at death waits =
    let inv = Reach-Inv reached in
    let f = phase-Filling inv i r (ap builds at) (inv.phase alive) in
    let match = headed-Matches c r (create-Matches c r f.made) in
    let h = Waits-Half match (died m f (Reach-Headers reached alive i r at) death) waits in
    (h.disk, h.same, deciding-Half match h, λ j. refl)
