-- ===== src/Shm/Region/Start/Filling.antt =====
-- The process that is in `create` of src/shm/region.rs behind the write of the header: what stands on the disk.
use warp_cache.Base.{
  ℕ, ◌≡◌, ◌≢◌, refl, sym, ap, ◌∙◌, subst, arith, true, Option, none, some, update,
}
use warp_cache.Shm.Region.{Region, Config, ok, create}
use warp_cache.Shm.Region.Start.{
  headed, Files, Place, outside, blocked, deciding, dead, creating, filling, opened, mapped, Turn,
  enter, lock, reopen, refuse, truncate, write_header, fill, unlock, change, unmap, die_deciding,
  die_creating, die_filling, Host, pick, Reach, start, later, in_charge, builds, has_mapped,
}
use warp_cache.Shm.Region.Start.Phase.{each, Phase, stale, building, ready, Inv, builds-in_charge}
use warp_cache.Shm.Region.Start.Once.{Reach-Inv}

-- while a process fills the table and nobody has died in `create`: the region is the one `create` makes, no other process
-- is in `create`, and none has mapped the files
pub record Filling (c : Config) (s : Host) (i : ℕ) (r : Region) : Type 0 where
  pub made : create c ≡ ok r
  pub alone : (j : ℕ) → i ≢ j → builds (s.pc j) ≡ none
  pub unmapped : (j : ℕ) → has_mapped (s.pc j) ≡ none
  pub holder : (j : ℕ) → in_charge (s.pc j) ≡ true → i ≡ j

module _ {c : Config} {s : Host} (inv : Inv c s.files s.pc) (i : ℕ) (r : Region)
    (here : builds (s.pc i) ≡ some r) where
  only_holder : (j : ℕ) → in_charge (s.pc j) ≡ true → i ≡ j
  only_holder j h =
      let l = inv.held i (builds-in_charge (s.pc i) r here) in let l' = inv.held j h in ground arith

  only_builder : (j : ℕ) → i ≢ j → builds (s.pc j) ≡ none
  only_builder j ne = go (builds (s.pc j)) refl
    where
      go : (o : Option Region) → builds (s.pc j) ≡ o → o ≡ none
      go none e = refl
      go (some r') e = absurd (ne (only_holder j (builds-in_charge (s.pc j) r' e)))

  pub phase-Filling : Phase c s.files s.pc → Filling c s i r
  phase-Filling (stale z bad nb ng) = let n = nb i in absurd (ground arith)
  phase-Filling (ready r' few on match nb same) = let n = nb i in absurd (ground arith)
  phase-Filling (building k r' one b made ng) =
      let same : i ≡ k = only_holder k (builds-in_charge (s.pc k) r' b) in
      let is_r : r ≡ r' = ground arith in
      record {
        made = subst (λ x. create c ≡ ok x) (sym is_r) made;
        alone = only_builder;
        unmapped = ng;
        holder = only_holder;
      }

-- the region on the disk of every process that fills the table
abbrev pub Headers : Files → (ℕ → Place) → Type 0
Headers m pc = (j : ℕ) (r : Region) → pc j ≡ filling r → m.disk ≡ some (headed r)

module _ {c : Config} {s : Host} (inv : Inv c s.files s.pc) (i : ℕ) (m : Files) where
  -- a step of the process that has the lock
  charged :
      (p : Place)
      → in_charge (s.pc i) ≡ true
      → ((r : Region) → p ≡ filling r → m.disk ≡ some (headed r))
      → Headers m (update s.pc i p)
  charged p busy own =
      each (λ j q. (r : Region) → q ≡ filling r → m.disk ≡ some (headed r)) s.pc i p own
        (λ j ne r e. absurd (ne (sym (only_holder inv j r (ap builds e) i busy))))

  unchanged :
      (p : Place)
      → m.disk ≡ s.files.disk
      → builds p ≡ none
      → Headers s.files s.pc
      → Headers m (update s.pc i p)
  unchanged p same quiet h =
      each (λ j q. (r : Region) → q ≡ filling r → m.disk ≡ some (headed r)) s.pc i p
        (λ r e. let b = ap builds e in absurd (ground arith)) (λ j ne r e. same ∙ h j r e)

module _ {c : Config} {s : Host} (inv : Inv c s.files s.pc) (i : ℕ) where
  move-Headers :
      (m : Files) (q p : Place)
      → s.pc i ≡ q
      → Turn c i s.files q m p
      → m.deaths ≡ 0
      → (s.files.deaths ≡ 0 → Headers s.files s.pc)
      → Headers m (update s.pc i p)
  move-Headers m outside p here enter z h = unchanged inv i m p refl refl (h z)
  move-Headers m blocked p here (lock free) z h = unchanged inv i m p refl refl (h z)
  move-Headers m deciding p here (reopen fits) z h =
      charged inv i m p (ap in_charge here) (λ r e. absurd (ground arith))
  move-Headers m deciding p here (refuse e bad failed) z h =
      charged inv i m p (ap in_charge here) (λ r e. absurd (ground arith))
  move-Headers m deciding p here (truncate r bad made) z h =
      charged inv i m p (ap in_charge here) (λ r e. absurd (ground arith))
  move-Headers m (creating r) p here write_header z h =
      charged inv i m p (ap in_charge here) (λ r e. ground arith)
  move-Headers m (filling r) p here fill z h =
      charged inv i m p (ap in_charge here) (λ r e. absurd (ground arith))
  move-Headers m (opened g) p here unlock z h =
      charged inv i m p (ap in_charge here) (λ r e. absurd (ground arith))
  move-Headers m (mapped g) p here (change r match) z h =
      each (λ j q. (r' : Region) → q ≡ filling r' → some r ≡ some (headed r')) s.pc i (mapped g)
        (λ r' e. absurd (ground arith))
        (λ j ne r' e.
          let alone = (phase-Filling inv j r' (ap builds e) (inv.phase z)).unmapped i in
          let mine = ap has_mapped here in absurd (ground arith))
  move-Headers m deciding p here die_deciding z h =
      charged inv i m p (ap in_charge here) (λ r e. absurd (ground arith))
  move-Headers m (mapped g) p here unmap z h = unchanged inv i m p refl refl (h z)
  move-Headers m (creating r) p here die_creating z h = absurd (omega arith)
  move-Headers m (filling r) p here die_filling z h = absurd (omega arith)
  move-Headers m dead p here move z h = elim move [ ]

pub Reach-Headers :
    {c : Config} {disk : Option Region} {s : Host}
    → Reach c disk s
    → s.files.deaths ≡ 0
    → Headers s.files s.pc
Reach-Headers start z = λ j r e. absurd (ground arith)
Reach-Headers (later r (pick i move)) z =
    move-Headers (Reach-Inv r) i _ _ _ refl move z (Reach-Headers r)
