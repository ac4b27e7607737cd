-- ===== src/Store/Function/Sharding.antt =====
-- How the shards split the capacity and the keys.
use warp_cache.Base.{
  ℕ, zero, suc, refl, ◌+◌, ◌-◌, ◌*◌, ◌/◌, ◌%◌, ◌^◌, ◌≤◌, ◌<◌, ◌≡◌, arith, dec_lt, min, max, Option,
}
use warp_cache.Base.Bits.{bit_and_mask}
use warp_cache.Base.Pow2.{next_power_of_two, next_power_of_two_lem}
use native.Mathlib.Nat.{mod-lt, div-add-mod, pow-le-pow_right}
use warp_cache.Store.Map.{Compare, Key}
use warp_cache.Store.Shard.{Shard}
use warp_cache.Store.Function.{Cached, shard_count, per_shard, new, shard_index}

clamped : (m : ℕ) → (1 ≤ min (max (m / 8) 1) 16) × (min (max (m / 8) 1) 16 ≤ 16)
clamped m = (omega arith, omega arith)

power_below : (k : ℕ) → 2 ^ k < 32 → 2 ^ k ≤ 16
power_below k h = elim (dec_lt k 5) [
  | yes small ↦ pow-le-pow_right {n = 2} (omega arith) {i = k} {j = 4} (omega arith)
  | no large ↦
      absurd (omega (arith, pow-le-pow_right {n = 2} (omega arith) {i = 5} {j = k} (omega arith)))
]

-- The number of shards is a power of two from 1 to 16.
pub record IsCount (n : ℕ) : Type 0 where
  pub exponent : ℕ
  pub power : n ≡ 2 ^ exponent
  pub positive : 1 ≤ n
  pub small : n ≤ 16

shard_count-IsCount : (m : ℕ) → IsCount (shard_count m)
unfolding shard_count
shard_count-IsCount m =
    let c = min (max (m / 8) 1) 16 in
    let bounds = clamped m in
    let p = next_power_of_two_lem c (omega arith) in
    let power : next_power_of_two c ≡ 2 ^ p.steps = omega (arith, p.power) in
    let small : next_power_of_two c ≤ 16 =
      rw power (power_below p.steps (omega (arith, p.least, power))) in
    record {
      exponent = p.steps;
      power = omega (arith, power, small);
      positive = omega (arith, p.enough);
      small = omega arith;
    }

ceil_bounds : (m n : ℕ) → 1 ≤ n → (m ≤ n * ((m + (n - 1)) / n)) × (n * ((m + (n - 1)) / n) < m + n)
ceil_bounds m n h = omega (arith, div-add-mod (m + (n - 1)) n, mod-lt (m + (n - 1)) {m = n} h)

filled : (n k : ℕ) → 1 ≤ n * k → 1 ≤ k
filled n zero h = absurd (omega arith)
filled n (suc k) h = omega arith

-- the capacities of the first shards together
unfoldable pub room : {Obj V : Type 0} → (ℕ → Shard Obj V) → ℕ → ℕ
room shards zero = 0
room shards (suc n) = room shards n + (shards n).capacity

room-equal :
    {Obj V : Type 0} (shards : ℕ → Shard Obj V) (k n : ℕ)
    → ((i : ℕ) → (shards i).capacity ≡ k)
    → room shards n ≡ n * k
unfolding room
room-equal shards k zero each = omega arith
room-equal shards k (suc n) each = omega (arith, room-equal shards k n each, each n)

-- The shards that `new` makes: their number is a power of two from 1 to 16, each has a capacity of at least 1 if the
-- cache is to hold an entry, their capacities come to at least `max_size` in all and to less than one more per shard, and
-- every key is in one of them.
pub sharding_bounds :
    {Obj : Type 0} (V : Type 0) (rich_compare : Obj → Obj → Compare) (max_size : ℕ) (ttl : Option ℕ)
    (key : Key Obj)
    → let c : Cached Obj V = new max_size ttl in
      IsCount c.n_shards
      × ((i : ℕ) → 1 ≤ max_size → 1 ≤ (c.shards i).capacity)
      × (max_size ≤ room c.shards c.n_shards)
      × (room c.shards c.n_shards < max_size + c.n_shards)
      × (shard_index rich_compare c key < c.n_shards)
unfolding new per_shard shard_index
sharding_bounds {Obj} V rich_compare max_size ttl key =
    let c : Cached Obj V = new max_size ttl in
    let count = shard_count-IsCount max_size in
    let ceil = ceil_bounds max_size (shard_count max_size) count.positive in
    let total : room c.shards c.n_shards ≡ shard_count max_size * per_shard max_size =
      room-equal c.shards (per_shard max_size) (shard_count max_size) (λ i. refl) in
    (
      count,
      λ i h. filled (shard_count max_size) (per_shard max_size) (omega (arith, ceil.0)),
      omega (arith, total, ceil.0),
      omega (arith, total, ceil.1),
      rw (count.power, bit_and_mask count.exponent (key.hash % 2 ^ 64))
          (mod-lt (key.hash % 2 ^ 64) (rw (← count.power) count.positive)),
    )
