-- ===== src/Shm/Region/Start/Once.antt =====
-- What holds whatever steps the processes make: one holder of the lock, and one creation.
use warp_cache.Base.{ℕ, ◌≤◌, ◌≡◌, inl, inr, refl, arith, Bool-cases, Option, some}
use warp_cache.Shm.Region.{Region, Config}
use warp_cache.Shm.Region.Fresh.{Matches}
use warp_cache.Shm.Region.Start.{
  reusable, Files, Place, Host, pick, Reach, start, later, has_mapped,
}
use warp_cache.Shm.Region.Start.Phase.{reusable-Matches, Phase, stale, building, ready, Inv}
use warp_cache.Shm.Region.Start.Steps.{move-Inv}

pub Reach-Inv : {c : Config} {disk : Option Region} {s : Host} → Reach c disk s → Inv c s.files s.pc
Reach-Inv {c} {disk} start = record {
  held = λ j e. absurd (ground arith);
  phase = λ z. elim (Bool-cases (reusable disk c)) [
    | inr bad ↦ stale refl bad (λ j. refl) (λ j. refl)
    | inl fits ↦
        let (r, on, match) = reusable-Matches c disk fits in
        ready r (omega arith) on match (λ j. refl) (λ j g e. absurd (ground arith))
  ];
}
Reach-Inv (later r (pick i move)) = move-Inv _ i _ _ (Reach-Inv r) _ _ _ refl move

phase_once :
    {c : Config} {m : Files} {pc : ℕ → Place}
    → Phase c m pc
    → (m.truncations ≤ 1)
      × ((i g : ℕ)
          → has_mapped (pc i) ≡ some g
          → (g ≡ m.truncations) × ((r : Region) × (m.disk ≡ some r) × Matches c r))
phase_once (stale z bad nb ng) = (omega arith, λ i g e. let n = ng i in absurd (ground arith))
phase_once (building k r one b made ng) =
    (omega arith, λ i g e. let n = ng i in absurd (ground arith))
phase_once (ready r few on match nb same) = (few, λ i g e. (same i g e, (r, on, match)))

-- Processes with the same parameters create the region at most once, if none of them dies inside `create`: in every
-- state that they come to, whatever the files held before, the files were truncated at most once, every process that has
-- mapped them has done so since, and the files then hold a region with the parameters.
pub created_once :
    (c : Config) (disk : Option Region) (s : Host)
    → Reach c disk s
    → s.files.deaths ≡ 0
    → (s.files.truncations ≤ 1)
      × ((i g : ℕ)
          → has_mapped (s.pc i) ≡ some g
          → (g ≡ s.files.truncations) × ((r : Region) × (s.files.disk ≡ some r) × Matches c r))
created_once c disk s r alive = phase_once ((Reach-Inv r).phase alive)
