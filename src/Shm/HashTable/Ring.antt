-- ===== src/Shm/HashTable/Ring.antt =====
-- Positions on the ring of buckets: the step to the next one, and the distance of a probe.
use native.Mathlib.Nat.{one-le-pow, pow-le-pow_right, mod-lt, mod-eq_of_lt, mod_self}
use warp_cache.Base.Bits.{bit_and_mask}
use warp_cache.Base.{
  ℕ, suc, ◌+◌, ◌-◌, ◌%◌, ◌^◌, ◌≤◌, ◌<◌, ◌≡◌, ◌≢◌, arith, bit_and, ℕ_discrete, leb, ltb, ◌==◌,
  if◌then◌else◌,
}
use warp_cache.Shm.HashTable.{mask, start_index, next_index, should_move}

-- A power of two that fits a `u32`, as `ShmRegion::create` chooses it.
pub record IsPow2 (ht_capacity : ℕ) : Type 0 where
  pub exponent : ℕ
  pub small : exponent ≤ 31
  pub power : ht_capacity ≡ 2 ^ exponent

abbrev pub succ_on : ℕ → ℕ → ℕ
succ_on n i = if suc i == n then 0 else suc i

-- how many steps lead from `a` to `b`
abbrev pub dist : ℕ → ℕ → ℕ → ℕ
dist n a b = if leb a b then b - a else b + n - a

pow-bounds : (k : ℕ) → k ≤ 31 → (1 ≤ 2 ^ k) × (2 ^ k ≤ 2 ^ 31)
pow-bounds k h = (one-le-pow k 2 (omega arith), pow-le-pow_right (omega arith) h)

IsPow2-bounds : {n : ℕ} → IsPow2 n → (1 ≤ n) × (n ≤ 2 ^ 31)
IsPow2-bounds {n} p = rw p.power (pow-bounds p.exponent p.small)

mask-IsPow2 : {n : ℕ} → IsPow2 n → mask n ≡ n - 1
unfolding mask
mask-IsPow2 {n} p = omega (arith, IsPow2-bounds p)

bit_and-IsPow2 : {n : ℕ} → IsPow2 n → (a : ℕ) → bit_and a (n - 1) ≡ a % n
bit_and-IsPow2 p a = rw p.power (bit_and_mask p.exponent a)

succ-mod : (n i : ℕ) → i < n → suc i % n ≡ succ_on n i
succ-mod n i h = elim (ℕ_discrete (suc i) n) [
  | yes e ↦ rw e (ground (arith, mod_self n))
  | no ne ↦ let below : suc i < n = omega arith in rw (mod-eq_of_lt below) (ground arith)
]

module _ {n : ℕ} (p : IsPow2 n) where
  pub pos_of_IsPow2 : 0 < n
  pos_of_IsPow2 = (IsPow2-bounds p).0

  pub start_index-eq : (h : ℕ) → start_index n h ≡ h % 2 ^ 32 % n
  unfolding start_index mask
  start_index-eq h = rw (mask-IsPow2 p, bit_and-IsPow2 p (h % 2 ^ 32))

  pub start_index-lt : (h : ℕ) → start_index n h < n
  start_index-lt h = rw (start_index-eq h) (mod-lt (h % 2 ^ 32) pos_of_IsPow2)

  pub next_index-eq : (i : ℕ) → i < n → next_index n i ≡ succ_on n i
  unfolding next_index mask
  next_index-eq i h =
      let small : (i + 1) % 2 ^ 32 ≡ suc i = omega (arith, IsPow2-bounds p) in
      rw (mask-IsPow2 p, bit_and-IsPow2 p ((i + 1) % 2 ^ 32), small) (succ-mod n i h)

  pub succ_on-lt : (i : ℕ) → i < n → succ_on n i < n
  succ_on-lt i h = ground arith

module _ (n e j ideal : ℕ) (he : e < n) (hj : j < n) (hi : ideal < n) where
  -- The test of the shift loop asks whether the probe from `ideal` to `j` meets `e`.
  pub should_move-eq : e ≢ j → should_move e j ideal ≡ ltb (dist n ideal e) (dist n ideal j)
  unfolding should_move
  should_move-eq ne = ground arith
