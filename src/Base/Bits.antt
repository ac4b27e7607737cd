-- ===== src/Base/Bits.antt =====
-- Masking with `2 ^ k - 1` takes the remainder by `2 ^ k`: by induction on the rounds of the native
-- operation, each of which takes one binary digit off both numbers.
use Prim.Native.Nat.{
  ℕ, zero, suc, ◌+◌, ◌-◌, ◌*◌, ◌/◌, ◌%◌, ◌^◌, ◌≤◌, ◌<◌, min, bit_and, digits, bit_and-bitwise,
}
use mathlib.Core.Path.{◌≡◌, sym, ap, ◌∙◌}
use native.Mathlib.Nat.{
  pow-suc, one-le-pow, zero-mod, mod-one, mod-lt, mod-eq_of_lt, div-add-mod',
  add-mul-mod_self_right,
}
use native.Mathlib.Omega.{arith}

-- the remainder by twice `p`, from the remainder of the half
mod_twice : (x p : ℕ) → 0 < p → x % (p * 2) ≡ x / 2 % p * 2 + x % 2
mod_twice x p h =
    let low = x / 2 % p * 2 + x % 2 in
    let quotient = x / 2 / p in
    let split : x ≡ low + quotient * (p * 2) = omega (arith, div-add-mod' (x / 2) p) in
    ap (λ y. y % (p * 2)) split
    ∙ (add-mul-mod_self_right low quotient (p * 2)
        ∙ mod-eq_of_lt (omega (arith, mod-lt (x / 2) {m = p} h)))

-- `rounds` rounds on `x` and the mask of `k` ones
masked : (rounds k x : ℕ) → x ≤ rounds → digits (λ y. 0) min rounds x (2 ^ k - 1) ≡ x % 2 ^ k
masked zero k zero h = sym (zero-mod (2 ^ k))
masked zero k (suc x) h = absurd (omega arith)
masked (suc rounds) k zero h = sym (zero-mod (2 ^ k))
masked (suc rounds) zero (suc x) h =
    omega (arith, masked rounds 0 (suc x / 2) (omega arith), mod-one (suc x / 2))
masked (suc rounds) (suc k) (suc x) h =
    let rest = masked rounds k (suc x / 2) (omega arith) in
    let ones : (2 ^ suc k - 1) / 2 ≡ 2 ^ k - 1 = omega (arith, pow-suc 2 k) in
    let last : (2 ^ suc k - 1) % 2 ≡ 1 = omega (arith, pow-suc 2 k, one-le-pow k 2 (omega arith)) in
    rw (ones, last, rest, pow-suc 2 k, mod_twice (suc x) (2 ^ k) (one-le-pow k 2 (omega arith)))
      (omega arith)

pub bit_and_mask : (k a : ℕ) → bit_and a (2 ^ k - 1) ≡ a % 2 ^ k
bit_and_mask k a = bit_and-bitwise a (2 ^ k - 1) ∙ masked a k a (omega arith)
