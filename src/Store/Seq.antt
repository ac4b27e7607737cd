-- ===== src/Store/Seq.antt =====
-- `VecDeque` as a list: indexing, removal at an index, and what they say of positions.
use warp_cache.Base.{
  ℕ, zero, suc, ◌<◌, ◌≡◌, refl, arith, Option, none, some, List, [], ◌∷◌, ◌++◌, length, ltb,
  if◌then◌else◌,
}

module _ {ℓ} {A : Type ℓ} where
  abbrev pub get_elem? : List A → ℕ → Option A
  get_elem? [] i = none
  get_elem? (x ∷ xs) zero = some x
  get_elem? (x ∷ xs) (suc i) = get_elem? xs i

  -- `order.remove(i)`; out of range nothing is removed
  unfoldable pub remove_index : List A → ℕ → List A
  remove_index [] i = []
  remove_index (x ∷ xs) zero = xs
  remove_index (x ∷ xs) (suc i) = x ∷ remove_index xs i

  pub length-remove_index :
      (xs : List A) (i : ℕ) → i < length xs → suc (length (remove_index xs i)) ≡ length xs
  unfolding remove_index
  length-remove_index [] i h = absurd (omega arith)
  length-remove_index (x ∷ xs) zero h = refl
  length-remove_index (x ∷ xs) (suc i) h = omega (arith, length-remove_index xs i (omega arith))

  pub get_elem?-remove_index :
      (xs : List A) (i p : ℕ)
      → get_elem? (remove_index xs i) p ≡ (if ltb p i then get_elem? xs p else get_elem? xs (suc p))
  unfolding remove_index
  get_elem?-remove_index [] i p = ground arith
  get_elem?-remove_index (x ∷ xs) zero p = ground arith
  get_elem?-remove_index (x ∷ xs) (suc i) zero = ground arith
  get_elem?-remove_index (x ∷ xs) (suc i) (suc p) = ground (arith, get_elem?-remove_index xs i p)

  pub get_elem?-lt : (xs : List A) (i : ℕ) → i < length xs → (a : A) × (get_elem? xs i ≡ some a)
  get_elem?-lt [] i h = absurd (omega arith)
  get_elem?-lt (x ∷ xs) zero h = (x, refl)
  get_elem?-lt (x ∷ xs) (suc i) h = get_elem?-lt xs i (omega arith)

  pub lt_of_get_elem? : (xs : List A) (i : ℕ) {a : A} → get_elem? xs i ≡ some a → i < length xs
  lt_of_get_elem? [] i h = absurd (ground arith)
  lt_of_get_elem? (x ∷ xs) zero h = omega arith
  lt_of_get_elem? (x ∷ xs) (suc i) h = omega (arith, lt_of_get_elem? xs i h)

  pub get_elem?-append :
      (xs : List A) (a : A) (i : ℕ) {b : A}
      → get_elem? xs i ≡ some b
      → get_elem? (xs ++ a ∷ []) i ≡ some b
  get_elem?-append [] a i h = absurd (ground arith)
  get_elem?-append (x ∷ xs) a zero h = h
  get_elem?-append (x ∷ xs) a (suc i) h = get_elem?-append xs a i h

  pub get_elem?-append_last : (xs : List A) (a : A) → get_elem? (xs ++ a ∷ []) (length xs) ≡ some a
  get_elem?-append_last [] a = refl
  get_elem?-append_last (x ∷ xs) a = get_elem?-append_last xs a
