-- ===== src/Base/Pow2.antt =====
-- `next_power_of_two`: the least power of two that is at least `n`, found by doubling.
use Prim.Native.Nat.{ℕ, zero, suc, ◌*◌, ◌^◌, ◌≤◌, ◌<◌}
use mathlib.Core.Path.{◌≡◌, refl}
use mathlib.Core.Logic.{◌⊎◌, inl, inr}
use native.Mathlib.Nat.{pow-suc}
use native.Mathlib.Omega.{arith}
use warp_cache.Base.Tests.{leb, if◌then◌else◌, Bool-cases}

-- doubles `p` until it reaches `n`
pub double_to : ℕ → ℕ → ℕ → ℕ
double_to zero p n = p
double_to (suc fuel) p n = let more = double_to fuel (p * 2) n in if leb n p then p else more

-- for a `usize`; 64 doublings are enough
unfoldable pub next_power_of_two : ℕ → ℕ
unfolding double_to
next_power_of_two n = double_to 64 1 n

pub record IsNextPower (n p r : ℕ) : Type 0 where
  pub steps : ℕ
  pub power : r ≡ p * 2 ^ steps
  pub enough : n ≤ r
  pub least : (r ≡ p) ⊎ (r < 2 * n)

regroup : (p k : ℕ) → p * 2 * 2 ^ k ≡ p * 2 ^ suc k
regroup p k = rw (pow-suc 2 k) (omega arith)

double_to-IsNextPower : (fuel p n : ℕ) → n ≤ p * 2 ^ fuel → IsNextPower n p (double_to fuel p n)
unfolding double_to
double_to-IsNextPower zero p n h = record {
  steps = 0;
  power = omega arith;
  enough = omega arith;
  least = inl refl;
}
double_to-IsNextPower (suc fuel) p n h = elim (Bool-cases (leb n p)) [
  | inl done ↦
      rw done (record { steps = 0; power = omega arith; enough = ground arith; least = inl refl })
  | inr more ↦
      let rest = double_to-IsNextPower fuel (p * 2) n (omega (arith, regroup p fuel)) in
      rw more (record {
        steps = suc rest.steps;
        power = omega (arith, rest.power, regroup p rest.steps);
        enough = rest.enough;
        least = inr (ground (arith, rest.least));
      })
]

pub next_power_of_two_lem : (n : ℕ) → n ≤ 2 ^ 64 → IsNextPower n 1 (next_power_of_two n)
unfolding next_power_of_two
next_power_of_two_lem n h = double_to-IsNextPower 64 1 n (omega arith)
