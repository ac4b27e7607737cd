-- ===== src/Base/Pigeonhole.antt =====
-- An injection of `n` numbers into fewer than `m + 1` ones.
use Prim.Native.Nat.{ℕ, zero, suc, ◌≤◌, ◌<◌}
use mathlib.Core.Path.{◌≡◌}
use native.Mathlib.Omega.{arith}
use warp_cache.Base.Tests.{◌==◌, if◌then◌else◌}

-- `f` without the value `m`, which `last` gives back
abbrev without : (ℕ → ℕ) → ℕ → ℕ → ℕ → ℕ
without f m last p = if f p == m then last else f p

pub pigeonhole :
    (n m : ℕ) (f : ℕ → ℕ)
    → ((p : ℕ) → p < n → f p < m)
    → ((p q : ℕ) → p < n → q < n → f p ≡ f q → p ≡ q)
    → n ≤ m
pigeonhole zero m f low inj = omega arith
pigeonhole (suc n) zero f low inj = absurd (omega (arith, low 0 (omega arith)))
pigeonhole (suc n) (suc m) f low inj =
    let rest =
      pigeonhole n m (without f m (f n)) (λ p hp. ground (arith, low p, low n, inj p n))
        (λ p q hp hq e. ground (arith, inj p q, inj p n, inj q n)) in
    omega (arith, rest)
