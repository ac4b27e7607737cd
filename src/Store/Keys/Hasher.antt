-- ===== src/Store/Keys/Hasher.antt =====
-- The hasher of src/store.rs, which keeps the hash of a key (src/key.rs) as it is, and that it fits the comparison.
use warp_cache.Base.{
  ℕ, ◌%◌, ◌^◌, ◌<◌, ◌≡◌, refl, ap, subst, arith, Bool, true, ltb, if◌then◌else◌, Option, none, some,
  List, [], ◌∷◌, length, take,
}
use warp_cache.Serde.Words.{to_le_bytes, from_le_bytes, length-to_le_bytes, from-to_le_bytes}
use warp_cache.Store.Map.{Key}
use warp_cache.Store.Keys.{Python, BorrowedArgs, equivalent}

-- `PassthroughHasher`: its state is the hash. `write` panics on fewer than 8 bytes; the machine is little-endian.
abbrev pub passthrough : ℕ
passthrough = 0

abbrev pub finish : ℕ → ℕ
finish state = state

unfoldable pub write : ℕ → List ℕ → Option ℕ
write state bytes = if ltb (length bytes) 8 then none else some (from_le_bytes (take 8 bytes))

abbrev pub write_isize : ℕ → ℕ → ℕ
write_isize state i = i % 2 ^ 64

abbrev pub write_i64 : ℕ → ℕ → ℕ
write_i64 state i = i % 2 ^ 64

abbrev pub write_u64 : ℕ → ℕ → ℕ
write_u64 state i = i

module _ {Obj : Type 0} where
  -- `Hash for CacheKey` and `Hash for BorrowedArgs`, for a hasher's `write_isize`
  abbrev pub hash_key : Key Obj → ℕ → ℕ
  hash_key key state = write_isize state key.hash

  abbrev pub hash_borrowed : BorrowedArgs Obj → ℕ → ℕ
  hash_borrowed b state = write_isize state b.hash

take-all {ℓ} : {A : Type ℓ} → (xs : List A) → take (length xs) xs ≡ xs
take-all [] = refl
take-all (x ∷ xs) = ap (λ ys. x ∷ ys) (take-all xs)

write_lem : (state w : ℕ) → w < 2 ^ 64 → write state (to_le_bytes 8 w) ≡ some w
unfolding write
write_lem state w small =
    let width = length-to_le_bytes 8 w in
    let all : take 8 (to_le_bytes 8 w) ≡ to_le_bytes 8 w =
      subst (λ n. take n (to_le_bytes 8 w) ≡ to_le_bytes 8 w) width (take-all (to_le_bytes 8 w)) in
    rw (width, all, from-to_le_bytes 8 w (omega arith)) refl

module _ {Obj : Type 0} (py : Python Obj) where
  -- Keys that compare equal have the same hash, also in the table; and a word that is written as bytes is kept.
  pub equivalent-hash_key :
      (pending : Bool) (b : BorrowedArgs Obj) (key : Key Obj)
      → (equivalent py pending b key).1 ≡ true
      → (finish (hash_borrowed b passthrough) ≡ finish (hash_key key passthrough))
        × (write passthrough (to_le_bytes 8 (hash_key key passthrough))
            ≡ some (finish (hash_borrowed b passthrough)))
  unfolding equivalent
  equivalent-hash_key pending b key h =
      let same : b.hash ≡ key.hash = ground arith in
      (rw same refl, rw same (write_lem passthrough (key.hash % 2 ^ 64) (omega arith)))
