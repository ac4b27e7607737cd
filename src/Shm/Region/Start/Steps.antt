-- ===== src/Shm/Region/Start/Steps.antt =====
-- Every step of a process of `create_or_open` in src/shm/region.rs keeps the lock and the creation in order.
use warp_cache.Base.{
  ℕ, ◌+◌, ◌≡◌, ◌≢◌, inl, inr, refl, sym, subst, ap, ◌∙◌, arith, true, false, Option-cases, none,
  some, update,
}
use warp_cache.Shm.Region.{Region, Config, ok, create}
use warp_cache.Shm.Region.Fresh.{Matches, create-Matches}
use warp_cache.Shm.Region.Start.{
  reusable, zeroed, headed, Files, Place, outside, blocked, deciding, dead, creating, filling,
  opened, mapped, Turn, enter, lock, reopen, refuse, truncate, write_header, fill, unlock, change,
  unmap, die_deciding, die_creating, die_filling, in_charge, builds, has_mapped,
}
use warp_cache.Shm.Region.Start.Phase.{
  Matches-reusable, each, Phase, stale, building, ready, Inv, keep-Held, take-Held, drop-Held,
  quiet-Phase, builds-in_charge,
}

module _ (c : Config) (i : ℕ) (m : Files) (pc : ℕ → Place) (inv : Inv c m pc) where
  -- the builder is the process that has the lock
  builder : (k : ℕ) (r : Region) → builds (pc k) ≡ some r → in_charge (pc i) ≡ true → k ≡ i
  builder k r b h =
      let l = inv.held k (builds-in_charge (pc k) r b) in let l' = inv.held i h in ground arith

  others_idle : (j : ℕ) → i ≢ j → in_charge (pc i) ≡ true → builds (pc j) ≡ none
  others_idle j ne h = elim (Option-cases (builds (pc j))) [
    | inl e ↦ e
    | inr (r, e) ↦ absurd (ne (sym (builder j r e h)))
  ]

  open_ready :
      pc i ≡ deciding
      → reusable m.disk c ≡ true
      → Phase c m pc
      → Phase c m (update pc i (opened m.truncations))
  open_ready here ok_now (stale z bad nb ng) = absurd (ground arith)
  open_ready here ok_now (building k r one b made ng) =
      let same = builder k r b (ap in_charge here) in absurd (ground arith)
  open_ready here ok_now (ready r few on match nb same) =
      ready r few on match (each (λ j q. builds q ≡ none) pc i _ refl (λ j ne. nb j)) (
        each (λ j q. (h : ℕ) → has_mapped q ≡ some h → h ≡ m.truncations) pc i _
          (λ h e. ground arith) (λ j ne. same j))

  truncate-Phase :
      (r : Region)
      → pc i ≡ deciding
      → reusable m.disk c ≡ false
      → create c ≡ ok r
      → Phase c m pc
      → Phase c
          (record m { disk = some zeroed; truncations = m.truncations + 1 })
          (update pc i (creating r))
  truncate-Phase r here bad made (stale z bad' nb ng) =
      building i r (omega arith) (ground arith) made
        (each (λ j q. has_mapped q ≡ none) pc i _ refl (λ j ne. ng j))
  truncate-Phase r here bad made (building k r' one b made' ng) =
      let same = builder k r' b (ap in_charge here) in absurd (ground arith)
  truncate-Phase r here bad made (ready r' few on match nb same) =
      let fits = ap (λ x. reusable x c) on ∙ Matches-reusable c r' match in absurd (ground arith)

  -- the writes of `create` behind the truncation
  header-Phase :
      (r : Region)
      → pc i ≡ creating r
      → Phase c m pc
      → Phase c (record m { disk = some (headed r) }) (update pc i (filling r))
  header-Phase r here (stale z bad nb ng) = let b = nb i in absurd (ground arith)
  header-Phase r here (ready r' few on match nb same) = let b = nb i in absurd (ground arith)
  header-Phase r here (building k r' one b made ng) =
      let same = builder k r' b (ap in_charge here) in
      let is_r : r ≡ r' = ground arith in
      building i r one (ground arith) (subst (λ x. create c ≡ ok x) (sym is_r) made)
        (each (λ j q. has_mapped q ≡ none) pc i _ refl (λ j ne. ng j))

  fill-Phase :
      (r : Region)
      → pc i ≡ filling r
      → Phase c m pc
      → Phase c (record m { disk = some r }) (update pc i (opened m.truncations))
  fill-Phase r here (stale z bad nb ng) = let b = nb i in absurd (ground arith)
  fill-Phase r here (ready r' few on match nb same) = let b = nb i in absurd (ground arith)
  fill-Phase r here (building k r' one b made ng) =
      let same = builder k r' b (ap in_charge here) in
      let is_r : r ≡ r' = ground arith in
      ready r (omega arith) refl (create-Matches c r (subst (λ x. create c ≡ ok x) (sym is_r) made))
        (each (λ j q. builds q ≡ none) pc i _ refl (λ j ne. others_idle j ne (ap in_charge here)))
        (each (λ j q. (h : ℕ) → has_mapped q ≡ some h → h ≡ m.truncations) pc i _
          (λ h e. ground arith) (λ j ne h e. let n = ng j in absurd (ground arith)))

  change-Phase :
      (g : ℕ) (r : Region)
      → pc i ≡ mapped g
      → Matches c r
      → Phase c m pc
      → Phase c (record m { disk = some r }) (update pc i (mapped g))
  change-Phase g r here match (stale z bad nb ng) = let n = ng i in absurd (ground arith)
  change-Phase g r here match (building k r' one b made ng) = let n = ng i in absurd (ground arith)
  change-Phase g r here match (ready r' few on match' nb same) =
      ready r few refl match (each (λ j q. builds q ≡ none) pc i _ refl (λ j ne. nb j)) (
        each (λ j q. (h : ℕ) → has_mapped q ≡ some h → h ≡ m.truncations) pc i _
          (λ h e. same i h (ap has_mapped here ∙ e)) (λ j ne. same j))

  pub move-Inv :
      (m' : Files) (q p : Place) → pc i ≡ q → Turn c i m q m' p → Inv c m' (update pc i p)
  move-Inv m' outside p here enter = record {
    held = keep-Held c i m pc blocked m refl (λ e. absurd (ground arith)) inv.held;
    phase = λ z.
        quiet-Phase c i m pc blocked m refl refl (ap builds (sym here)) (inl refl) (inv.phase z);
  }
  move-Inv m' blocked p here (lock free) = record {
    held = take-Held c i m pc deciding (record m { init_lock = some i }) free refl inv.held;
    phase = λ z.
        quiet-Phase c i m pc deciding (record m { init_lock = some i }) refl refl
          (ap builds (sym here)) (inl refl) (inv.phase z);
  }
  move-Inv m' deciding p here (reopen fits) = record {
    held = keep-Held c i m pc (opened m.truncations) m refl (λ e. ap in_charge here) inv.held;
    phase = λ z. open_ready here fits (inv.phase z);
  }
  move-Inv m' deciding p here (refuse e bad failed) = record {
    held =
        drop-Held c i m pc outside (record m { init_lock = none }) refl (ap in_charge here)
          inv.held;
    phase = λ z.
        quiet-Phase c i m pc outside (record m { init_lock = none }) refl refl
          (ap builds (sym here)) (inl refl) (inv.phase z);
  }
  move-Inv m' deciding p here (truncate r bad made) = record {
    held =
        keep-Held c i m pc (creating r)
          (record m { disk = some zeroed; truncations = m.truncations + 1 }) refl
          (λ e. ap in_charge here) inv.held;
    phase = λ z. truncate-Phase r here bad made (inv.phase z);
  }
  move-Inv m' (creating r) p here write_header = record {
    held =
        keep-Held c i m pc (filling r) (record m { disk = some (headed r) }) refl
          (λ e. ap in_charge here) inv.held;
    phase = λ z. header-Phase r here (inv.phase z);
  }
  move-Inv m' (filling r) p here fill = record {
    held =
        keep-Held c i m pc (opened m.truncations) (record m { disk = some r }) refl
          (λ e. ap in_charge here) inv.held;
    phase = λ z. fill-Phase r here (inv.phase z);
  }
  move-Inv m' (opened g) p here unlock = record {
    held =
        drop-Held c i m pc (mapped g) (record m { init_lock = none }) refl (ap in_charge here)
          inv.held;
    phase = λ z.
        quiet-Phase c i m pc (mapped g) (record m { init_lock = none }) refl refl
          (ap builds (sym here)) (inr (ap has_mapped (sym here))) (inv.phase z);
  }
  move-Inv m' (mapped g) p here (change r match) = record {
    held =
        keep-Held c i m pc (mapped g) (record m { disk = some r }) refl (λ e. absurd (ground arith))
          inv.held;
    phase = λ z. change-Phase g r here match (inv.phase z);
  }
  move-Inv m' deciding p here die_deciding = record {
    held =
        drop-Held c i m pc dead (record m { init_lock = none }) refl (ap in_charge here) inv.held;
    phase = λ z.
        quiet-Phase c i m pc dead (record m { init_lock = none }) refl refl (ap builds (sym here))
          (inl refl) (inv.phase z);
  }
  move-Inv m' (mapped g) p here unmap = record {
    held = keep-Held c i m pc outside m refl (λ e. absurd (ground arith)) inv.held;
    phase = λ z.
        quiet-Phase c i m pc outside m refl refl (ap builds (sym here)) (inl refl) (inv.phase z);
  }
  move-Inv m' (creating r) p here die_creating = record {
    held =
        drop-Held c i m pc dead (record m { init_lock = none; deaths = m.deaths + 1 }) refl
          (ap in_charge here) inv.held;
    phase = λ z. absurd (omega arith);
  }
  move-Inv m' (filling r) p here die_filling = record {
    held =
        drop-Held c i m pc dead (record m { init_lock = none; deaths = m.deaths + 1 }) refl
          (ap in_charge here) inv.held;
    phase = λ z. absurd (omega arith);
  }
  move-Inv m' dead p here move = elim move [ ]
