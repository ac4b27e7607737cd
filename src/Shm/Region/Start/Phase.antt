-- ===== src/Shm/Region/Start/Phase.antt =====
-- How far the creation of a region is (src/shm/region.rs), and what a step leaves as it is.
use warp_cache.Base.{
  ℕ, ◌≤◌, ◌≡◌, ◌≢◌, ◌⊎◌, inl, inr, refl, sym, subst, ap, ◌∙◌, arith, true, false, Bool-cases,
  eq_of_bytes_eq, ◌==◌, bytes_eq, bytes_eq_refl, Option, none, some, update,
}
use warp_cache.Shm.Layout.{magic}
use warp_cache.Shm.Region.{Region, Config, ok, create, open_paths, params_match}
use warp_cache.Shm.Region.Fresh.{Matches}
use warp_cache.Shm.Region.Start.{
  reusable, Files, Place, outside, blocked, deciding, dead, creating, filling, opened, mapped,
  in_charge, builds, has_mapped,
}

pub Matches-reusable : (c : Config) (r : Region) → Matches c r → reusable (some r) c ≡ true
unfolding reusable open_paths params_match
Matches-reusable c r m =
    let same : bytes_eq r.header.magic_bytes magic ≡ true =
      rw (m.magic_bytes) (bytes_eq_refl magic) in
    ground (arith, m.version_number, m.capacity, m.max_key_size, m.max_value_size, m.ttl_nanos)

pub reusable-Matches :
    (c : Config) (disk : Option Region)
    → reusable disk c ≡ true
    → (r : Region) × (disk ≡ some r) × Matches c r
unfolding reusable open_paths params_match
reusable-Matches c none e = absurd (ground arith)
reusable-Matches c (some r) e =
    let same : bytes_eq r.header.magic_bytes magic ≡ true = ground arith in
    (
      r,
      refl,
      record {
        magic_bytes = eq_of_bytes_eq _ _ same;
        version_number = ground arith;
        capacity = ground arith;
        max_key_size = ground arith;
        max_value_size = ground arith;
        ttl_nanos = ground arith;
      },
    )

-- a property of every process, after process `i` has moved to `p`
pub each :
    (P : ℕ → Place → Type 0) (pc : ℕ → Place) (i : ℕ) (p : Place)
    → P i p
    → ((j : ℕ) → i ≢ j → P j (pc j))
    → (j : ℕ) → P j (update pc i p j)
each P pc i p own others j = elim (Bool-cases (i == j)) [
  | inl e ↦ let same : i ≡ j = ground arith in rw e (subst (λ k. P k p) same own)
  | inr e ↦ rw e (others j (ground arith))
]

unmapped : {a b : Option ℕ} → (a ≡ none) ⊎ (a ≡ b) → b ≡ none → a ≡ none
unmapped (inl e) n = e
unmapped (inr e) n = e ∙ n

-- how far the creation is, if no process has died in it
pub data Phase (c : Config) (m : Files) (pc : ℕ → Place) : Type 0 where
  stale :
      m.truncations ≡ 0
      → reusable m.disk c ≡ false
      → ((j : ℕ) → builds (pc j) ≡ none)
      → ((j : ℕ) → has_mapped (pc j) ≡ none)
      → Phase c m pc
  building :
      (b : ℕ) (r : Region)
      → m.truncations ≡ 1
      → builds (pc b) ≡ some r
      → create c ≡ ok r
      → ((j : ℕ) → has_mapped (pc j) ≡ none)
      → Phase c m pc
  ready :
      (r : Region)
      → m.truncations ≤ 1
      → m.disk ≡ some r
      → Matches c r
      → ((j : ℕ) → builds (pc j) ≡ none)
      → ((j g : ℕ) → has_mapped (pc j) ≡ some g → g ≡ m.truncations)
      → Phase c m pc

pub record Inv (c : Config) (m : Files) (pc : ℕ → Place) : Type 0 where
  pub held : (j : ℕ) → in_charge (pc j) ≡ true → m.init_lock ≡ some j
  pub phase : m.deaths ≡ 0 → Phase c m pc

module _ (c : Config) (i : ℕ) (m : Files) (pc : ℕ → Place) where
  abbrev pub Held : Files → (ℕ → Place) → Type 0
  Held m' pc' = (j : ℕ) → in_charge (pc' j) ≡ true → m'.init_lock ≡ some j

  -- a step that neither takes nor releases the lock
  pub keep-Held :
      (p : Place) (m' : Files)
      → m'.init_lock ≡ m.init_lock
      → (in_charge p ≡ true → in_charge (pc i) ≡ true)
      → Held m pc
      → Held m' (update pc i p)
  keep-Held p m' same before h =
      each (λ j q. in_charge q ≡ true → m'.init_lock ≡ some j) pc i p (λ e. same ∙ h i (before e))
        (λ j ne e. same ∙ h j e)

  pub take-Held :
      (p : Place) (m' : Files)
      → m.init_lock ≡ none
      → m'.init_lock ≡ some i
      → Held m pc
      → Held m' (update pc i p)
  take-Held p m' free taken h =
      each (λ j q. in_charge q ≡ true → m'.init_lock ≡ some j) pc i p (λ e. taken)
        (λ j ne e. let k = h j e in absurd (ground arith))

  pub drop-Held :
      (p : Place) (m' : Files)
      → in_charge p ≡ false
      → in_charge (pc i) ≡ true
      → Held m pc
      → Held m' (update pc i p)
  drop-Held p m' idle before h =
      each (λ j q. in_charge q ≡ true → m'.init_lock ≡ some j) pc i p (λ e. absurd (ground arith))
        (λ j ne e. let k = h j e in let l = h i before in absurd (ground arith))

  -- a step that leaves the files alone, and with which the process neither begins nor ends a creation, nor maps the files
  pub quiet-Phase :
      (p : Place) (m' : Files)
      → m'.disk ≡ m.disk
      → m'.truncations ≡ m.truncations
      → builds p ≡ builds (pc i)
      → (has_mapped p ≡ none) ⊎ (has_mapped p ≡ has_mapped (pc i))
      → Phase c m pc
      → Phase c m' (update pc i p)
  quiet-Phase p m' d t b g (stale z bad nb ng) =
      stale (t ∙ z) (ap (λ x. reusable x c) d ∙ bad)
        (each (λ j q. builds q ≡ none) pc i p (b ∙ nb i) (λ j ne. nb j))
        (each (λ j q. has_mapped q ≡ none) pc i p (unmapped g (ng i)) (λ j ne. ng j))
  quiet-Phase p m' d t b g (building k r one at made ng) =
      building k r (t ∙ one)
        (each (λ j q. j ≡ k → builds q ≡ some r) pc i p
          (λ e. b ∙ subst (λ x. builds (pc x) ≡ some r) (sym e) at)
          (λ j ne e. subst (λ x. builds (pc x) ≡ some r) (sym e) at) k refl)
        made (each (λ j q. has_mapped q ≡ none) pc i p (unmapped g (ng i)) (λ j ne. ng j))
  quiet-Phase p m' d t b g (ready r few on match nb same) =
      ready r (subst (λ n. n ≤ 1) (sym t) few) (d ∙ on) match
        (each (λ j q. builds q ≡ none) pc i p (b ∙ nb i) (λ j ne. nb j))
        (each (λ j q. (h : ℕ) → has_mapped q ≡ some h → h ≡ m'.truncations) pc i p
          (λ h e. elim g [ inl n ↦ absurd (ground arith) | inr l ↦ same i h (sym l ∙ e) ∙ sym t ])
          (λ j ne h e. same j h e ∙ sym t))

-- a builder has the lock
pub builds-in_charge : (p : Place) (r : Region) → builds p ≡ some r → in_charge p ≡ true
builds-in_charge (creating r) r' e = refl
builds-in_charge (filling r) r' e = refl
builds-in_charge outside r' e = absurd (ground arith)
builds-in_charge blocked r' e = absurd (ground arith)
builds-in_charge deciding r' e = absurd (ground arith)
builds-in_charge dead r' e = absurd (ground arith)
builds-in_charge (opened g) r' e = absurd (ground arith)
builds-in_charge (mapped g) r' e = absurd (ground arith)
