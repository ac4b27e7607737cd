-- ===== src/Serde/Words.antt =====
-- `to_le_bytes` and `from_le_bytes` on fixed widths, and the two's complement of an `i64`.
use warp_cache.Base.{
  ℕ, zero, suc, ◌+◌, ◌-◌, ◌*◌, ◌/◌, ◌%◌, ◌^◌, ◌<◌, ◌≡◌, refl, arith, List, [], ◌∷◌, length, ltb,
  if◌then◌else◌, Option, none, some, ℤ, pos, negsuc,
}
use native.Mathlib.Nat.{pow-suc}

-- the low `k` bytes of `n`, the lowest first
unfoldable pub to_le_bytes : ℕ → ℕ → List ℕ
to_le_bytes zero n = []
to_le_bytes (suc k) n = (n % 256) ∷ to_le_bytes k (n / 256)

unfoldable pub from_le_bytes : List ℕ → ℕ
from_le_bytes [] = 0
from_le_bytes (b ∷ bs) = b + 256 * from_le_bytes bs

-- `extract::<i64>` and the bit pattern of its result
unfoldable pub i64_bits : ℤ → Option ℕ
i64_bits (pos n) = if ltb n (2 ^ 63) then some n else none
i64_bits (negsuc n) = if ltb n (2 ^ 63) then some (2 ^ 64 - 1 - n) else none

unfoldable pub i64_value : ℕ → ℤ
i64_value w = if ltb w (2 ^ 63) then pos w else negsuc (2 ^ 64 - 1 - w)

pub length-to_le_bytes : (k n : ℕ) → length (to_le_bytes k n) ≡ k
unfolding to_le_bytes
length-to_le_bytes zero n = refl
length-to_le_bytes (suc k) n = omega (arith, length-to_le_bytes k (n / 256))

pub from-to_le_bytes : (k n : ℕ) → n < 256 ^ k → from_le_bytes (to_le_bytes k n) ≡ n
unfolding to_le_bytes from_le_bytes
from-to_le_bytes zero n h = omega arith
from-to_le_bytes (suc k) n h =
    let small : n / 256 < 256 ^ k = omega (arith, pow-suc 256 k) in
    omega (arith, from-to_le_bytes k (n / 256) small)

pub i64_value-bits : (z : ℤ) {w : ℕ} → i64_bits z ≡ some w → (i64_value w ≡ z) × (w < 2 ^ 64)
unfolding i64_bits i64_value
i64_value-bits (pos n) {w} h = ground arith
i64_value-bits (negsuc n) {w} h = ground arith
