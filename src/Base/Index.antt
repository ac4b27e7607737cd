-- ===== src/Base/Index.antt =====
-- An `i32` slot index: `pos n` is n, `negsuc n` is -(n + 1). The sentinels are -1.
use Prim.Native.Nat.{ℕ, suc, ◌-◌, ◌^◌}
use mathlib.Core.Bool.{Bool, false}
use warp_cache.Base.Tests.{◌==◌}

pub data ℤ : Type 0 where
  pos : ℕ → ℤ
  negsuc : ℕ → ℤ

-- `index == -1`
abbrev pub is_none : ℤ → Bool
is_none (pos n) = false
is_none (negsuc n) = n == 0

-- `index as usize`, on 64 bits
abbrev pub as_usize : ℤ → ℕ
as_usize (pos n) = n
as_usize (negsuc n) = 2 ^ 64 - suc n

-- `index == other`, on indices
abbrev pub eqz : ℤ → ℤ → Bool
eqz (pos a) (pos b) = a == b
eqz (pos a) (negsuc b) = false
eqz (negsuc a) (pos b) = false
eqz (negsuc a) (negsuc b) = a == b
