-- ===== src/Serde/Decode.antt =====
-- The deserializer on arbitrary bytes: the fuel is always enough.
use warp_cache.Base.{
  ℕ, zero, suc, ◌+◌, ◌-◌, ◌≤◌, ◌<◌, ◌≢◌, refl, arith, Option, none, some, List, [], ◌∷◌, length,
  take, drop,
}
use warp_cache.Serde.{
  Value, Items, Utf8, Read, ok, nothing, value_error, out_of_fuel, read_u64, read_text,
  deserialize_elems, dispatch, deserialize_one, deserialize, tuple_result, int, float,
}
use warp_cache.Serde.Words.{from_le_bytes, i64_value}

length-drop_le : (n : ℕ) (xs : List ℕ) → length (drop n xs) ≤ length xs - n
length-drop_le zero xs = omega arith
length-drop_le (suc n) [] = omega arith
length-drop_le (suc n) (x ∷ xs) = omega (arith, length-drop_le n xs)

elems_fueled :
    (one : List ℕ → Read (Value × ℕ)) (m : ℕ)
    → ((input : List ℕ) → length input ≤ m → one input ≢ out_of_fuel)
    → (count : ℕ) (input : List ℕ) (offset : ℕ) → length input - offset ≤ m
    → deserialize_elems one count input offset ≢ out_of_fuel
unfolding deserialize_elems
elems_fueled one m fueled zero input offset h = λ e. cc
elems_fueled one m fueled (suc count) input offset h = grind (
  arith,
  fueled (drop offset input) (omega (arith, length-drop_le offset input)),
  λ (consumed : ℕ). elems_fueled one m fueled count input (offset + consumed) (omega arith),
)

tuple_result_fueled : (r : Read (Items × ℕ)) → r ≢ out_of_fuel → tuple_result r ≢ out_of_fuel
tuple_result_fueled (ok r) h = λ e. cc
tuple_result_fueled nothing h = λ e. cc
tuple_result_fueled value_error h = λ e. cc
tuple_result_fueled out_of_fuel h = absurd (h refl)

read_text_fueled : (t : Option (List ℕ)) (n : ℕ) → read_text t n ≢ out_of_fuel
unfolding read_text
read_text_fueled none n = λ e. cc
read_text_fueled (some s) n = λ e. cc

read_u64_fueled : (input : List ℕ) (build : ℕ → Value) → read_u64 input build ≢ out_of_fuel
unfolding read_u64
read_u64_fueled input build = ground arith

dispatch_fueled :
    (utf8 : Utf8) (one : List ℕ → Read (Value × ℕ)) (tag : ℕ) (input : List ℕ)
    → ((count : ℕ) → 2 ≤ length input → deserialize_elems one count input 2 ≢ out_of_fuel)
    → dispatch utf8 one tag input ≢ out_of_fuel
unfolding dispatch
dispatch_fueled utf8 one tag input inner =
    let count = from_le_bytes (take 1 (drop 1 input)) in
    ground (
      arith,
      inner count,
      tuple_result_fueled (deserialize_elems one count input 2),
      read_u64_fueled input (λ w. int (i64_value w)),
      read_u64_fueled input float,
      λ (p : List ℕ). λ (n : ℕ). read_text_fueled (utf8.decode p) n,
    )

module _ (utf8 : Utf8) where
  one_fueled :
      (fuel : ℕ) (input : List ℕ)
      → length input ≤ fuel
      → 0 < fuel
      → deserialize_one utf8 fuel input ≢ out_of_fuel
  unfolding deserialize_one
  one_fueled zero input h pos = absurd (omega arith)
  one_fueled (suc fuel) [] h pos = λ e. cc
  one_fueled (suc fuel) (tag ∷ rest) h pos =
      let inner : (count : ℕ)
          → 2 ≤ length (tag ∷ rest)
          → deserialize_elems (deserialize_one utf8 fuel) count (tag ∷ rest) 2 ≢ out_of_fuel =
        λ count two.
          elems_fueled (deserialize_one utf8 fuel) (fuel - 1)
            (λ input small. one_fueled fuel input (omega arith) (omega arith)) count (tag ∷ rest) 2
            (omega arith) in
      dispatch_fueled utf8 (deserialize_one utf8 fuel) tag (tag ∷ rest) inner

  -- On every byte string the deserializer comes to an end within its fuel: with a value, with
  -- nothing, or with a ValueError.
  pub deserialize_ends : (input : List ℕ) → deserialize utf8 input ≢ out_of_fuel
  unfolding deserialize
  deserialize_ends [] = λ e. cc
  deserialize_ends (tag ∷ rest) =
      ground (arith, one_fueled (length (tag ∷ rest)) (tag ∷ rest) (omega arith) (omega arith))
