-- ===== src/Base.antt =====
-- What the other modules share: the names of the libraries, tests on numbers, byte lists, 32-bit
-- signed indices, the bit mask of the tables, and memory as a function from addresses.
pub mod Tests
pub mod Bytes
pub mod Index
pub mod Bits
pub mod Memory
pub mod Pow2
pub mod Pigeonhole
pub use Tests.*
pub use Bytes.*
pub use Index.*
pub use Memory.*
pub use Prim.Native.Nat.{ℕ, zero, suc, ◌+◌, ◌-◌, ◌*◌, ◌/◌, ◌%◌, ◌^◌, ◌≤◌, ◌<◌, min, max, bit_and}
pub use mathlib.Core.Path.{◌≡◌, refl, sym, ap, ◌∙◌, subst, fun_ext}
pub use mathlib.Core.Logic.{◌≢◌, ◌↔◌, ◌⊎◌, inl, inr}
pub use mathlib.Core.Bool.{Bool, true, false, ◌&&◌, ◌||◌, not}
pub use mathlib.Core.Option.{Option, none, some}
pub use mathlib.Core.List.{List, [], ◌∷◌, ◌++◌, map, append_assoc, append-nil}
pub use native.Mathlib.Omega.{arith}
unfoldable pub use native.Mathlib.Decide.{dec_lt, ℕ_discrete}
