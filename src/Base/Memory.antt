-- ===== src/Base/Memory.antt =====
-- Memory as a function from indices to contents. An access through a raw pointer is a read or a
-- write of the function at the index, with no check, as in the source.
use Prim.Native.Nat.{ℕ, zero, suc, ◌+◌, ◌≤◌, ◌<◌}
use mathlib.Core.Path.{◌≡◌, refl}
use mathlib.Core.List.{List, [], ◌∷◌}
use native.Mathlib.Omega.{arith}
use warp_cache.Base.Tests.{◌==◌, if◌then◌else◌}
use warp_cache.Base.Bytes.{length}

module _ {ℓ} {A : Type ℓ} where
  abbrev pub update : (ℕ → A) → ℕ → A → ℕ → A
  update f i v j = if i == j then v else f j

  -- `from_raw_parts(ptr + offset, n)`
  abbrev pub slice : (ℕ → A) → ℕ → ℕ → List A
  slice f offset zero = []
  slice f offset (suc n) = f offset ∷ slice f (suc offset) n

  -- `copy_nonoverlapping(bytes, ptr + offset, bytes.len())`
  abbrev pub copy_to : (ℕ → A) → ℕ → List A → ℕ → A
  copy_to f offset [] = f
  copy_to f offset (b ∷ bs) = copy_to (update f offset b) (suc offset) bs

  pub copy_to-below :
      (f : ℕ → A) (offset : ℕ) (bs : List A) (j : ℕ) → j < offset → copy_to f offset bs j ≡ f j
  copy_to-below f offset [] j h = refl
  copy_to-below f offset (b ∷ bs) j h =
      ground (arith, copy_to-below (update f offset b) (suc offset) bs j)

  pub copy_to-above :
      (f : ℕ → A) (offset : ℕ) (bs : List A) (j : ℕ)
      → offset + length bs ≤ j
      → copy_to f offset bs j ≡ f j
  copy_to-above f offset [] j h = refl
  copy_to-above f offset (b ∷ bs) j h =
      ground (arith, copy_to-above (update f offset b) (suc offset) bs j)

  pub slice_congr :
      (f g : ℕ → A) (offset n : ℕ)
      → ((j : ℕ) → offset ≤ j → j < offset + n → f j ≡ g j)
      → slice f offset n ≡ slice g offset n
  slice_congr f g offset zero h = refl
  slice_congr f g offset (suc n) h =
      ground (
        arith,
        h offset,
        slice_congr f g (suc offset) n (λ j lo hi. h j (omega arith) (omega arith)),
      )

  -- What was copied is read back.
  pub slice-copy_to :
      (f : ℕ → A) (offset : ℕ) (bs : List A) → slice (copy_to f offset bs) offset (length bs) ≡ bs
  slice-copy_to f offset [] = refl
  slice-copy_to f offset (b ∷ bs) = ground (
    arith,
    copy_to-below (update f offset b) (suc offset) bs offset,
    slice-copy_to (update f offset b) (suc offset) bs,
  )
