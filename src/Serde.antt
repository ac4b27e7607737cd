-- ===== src/Serde.antt =====
-- src/serde.rs: the tagged binary format of keys and values in shared memory.
pub mod Words
pub mod Format
pub mod Encode
pub mod Decode
pub mod RoundTrip
use warp_cache.Base.{
  ℕ, zero, suc, ◌+◌, ◌%◌, ◌^◌, ◌≡◌, Bool, true, false, ltb, ◌==◌, if◌then◌else◌, Option, none, some,
  List, [], ◌∷◌, ◌++◌, length, take, drop, ℤ,
}
use warp_cache.Serde.Words.{to_le_bytes, from_le_bytes, i64_bits, i64_value}

abbrev pub tag_pickle : ℕ
tag_pickle = 0

abbrev pub tag_none : ℕ
tag_none = 1

abbrev pub tag_false : ℕ
tag_false = 2

abbrev pub tag_true : ℕ
tag_true = 3

abbrev pub tag_i64 : ℕ
tag_i64 = 4

abbrev pub tag_f64 : ℕ
tag_f64 = 5

abbrev pub tag_str : ℕ
tag_str = 6

abbrev pub tag_bytes : ℕ
tag_bytes = 7

abbrev pub tag_tuple : ℕ
tag_tuple = 8

-- Python objects, as far as the tests `is_instance_of` tell them apart. A float is its bit pattern,
-- a str its code points; `subclass c v` is an instance of class `c` derived from the type of `v`,
-- and `other` an object of any other type.
mutual
  pub data Value : Type 0 where
    none_value : Value
    bool : Bool → Value
    int : ℤ → Value
    float : ℕ → Value
    str : List ℕ → Value
    bytes : List ℕ → Value
    tuple : Items → Value
    subclass : ℕ → Value → Value
    other : ℕ → Value

  pub data Items : Type 0 where
    no_items : Items
    item : Value → Items → Items

unfoldable pub item_count : Items → ℕ
item_count no_items = 0
item_count (item v vs) = suc (item_count vs)

-- The codec of `str`: `to_cow` (nothing for a lone surrogate) and `from_utf8`.
pub record Utf8 : Type 0 where
  pub encode : List ℕ → Option (List ℕ)
  pub decode : List ℕ → Option (List ℕ)
  -- encoding then decoding gives the text back
  pub decode_encode : (s : List ℕ) (bs : List ℕ) → encode s ≡ some bs → decode bs ≡ some s

-- The result of a call that appends to the buffer: was the value supported, and the buffer.
abbrev pub Written : Type 0
Written = Bool × List ℕ

unfoldable pub write_int : Option ℕ → List ℕ → Written
write_int none buf = (false, buf)
write_int (some w) buf = (true, buf ++ tag_i64 ∷ to_le_bytes 8 w)

unfoldable pub write_str : Option (List ℕ) → List ℕ → Written
write_str none buf = (false, buf)
write_str (some bs) buf = (true, buf ++ tag_str ∷ (to_le_bytes 4 (length bs % 2 ^ 32) ++ bs))

-- The end of the tuple case: an unsupported element truncates the buffer to where the tuple began.
unfoldable pub close_tuple : ℕ → Written → Written
close_tuple start (true, buf) = (true, buf)
close_tuple start (false, buf) = (false, take start buf)

module _ (utf8 : Utf8) where
  unfoldable mutual
    unfolding write_int write_str close_tuple

    pub serialize_element : Value → List ℕ → Written
    serialize_element none_value buf = (true, buf ++ tag_none ∷ [])
    serialize_element (bool b) buf = (true, buf ++ (if b then tag_true else tag_false) ∷ [])
    serialize_element (int z) buf = write_int (i64_bits z) buf
    serialize_element (float w) buf = (true, buf ++ tag_f64 ∷ to_le_bytes 8 w)
    serialize_element (str s) buf = write_str (utf8.encode s) buf
    serialize_element (bytes b) buf =
        (true, buf ++ tag_bytes ∷ (to_le_bytes 4 (length b % 2 ^ 32) ++ b))
    serialize_element (tuple vs) buf =
        let inner =
          close_tuple (length buf)
            (serialize_items vs (buf ++ tag_tuple ∷ (item_count vs % 256) ∷ [])) in
        if ltb 255 (item_count vs) then (false, buf) else inner
    serialize_element (subclass c v) buf = serialize_element v buf
    serialize_element (other n) buf = (false, buf)

    -- The loop over the items of a tuple; it ends at the first item that is not supported.
    pub serialize_items : Items → List ℕ → Written
    serialize_items no_items buf = (true, buf)
    serialize_items (item v vs) buf =
        let first = serialize_element v buf in
        let rest = serialize_items vs first.1 in if first.0 then rest else first

  unfoldable pub serialize : Value → Option (List ℕ)
  unfolding serialize_element
  serialize v = let w = serialize_element v [] in if w.0 then some w.1 else none

-- `Ok(Some(a))`, `Ok(None)`, a raised `ValueError`, and fuel that ran out, which the program lacks.
pub data Read {ℓ} (A : Type ℓ) : Type ℓ where
  ok : A → Read A
  nothing value_error out_of_fuel : Read A

unfoldable pub read_u64 : List ℕ → (ℕ → Value) → Read (Value × ℕ)
read_u64 input build =
    if ltb (length input) 9 then nothing else ok (build (from_le_bytes (take 8 (drop 1 input))), 9)

-- The payload `input[5..5 + len]` of a str or bytes value, and 5 + len.
unfoldable pub read_payload : List ℕ → Option (List ℕ × ℕ)
read_payload input =
    let len = from_le_bytes (take 4 (drop 1 input)) in
    if ltb (length input) 5
    then none
    else (if ltb (length input) (5 + len) then none else some (take len (drop 5 input), 5 + len))

unfoldable pub read_text : Option (List ℕ) → ℕ → Read (Value × ℕ)
read_text none consumed = value_error
read_text (some s) consumed = ok (str s, consumed)

-- The loop over the elements: `one` reads an element off its input. The values, and the offset.
unfoldable pub deserialize_elems : (List ℕ → Read (Value × ℕ)) → ℕ → List ℕ → ℕ → Read (Items × ℕ)
deserialize_elems one zero input offset = ok (no_items, offset)
deserialize_elems one (suc count) input offset = elim (one (drop offset input)) [
  | ok (v, consumed) ↦ elim (deserialize_elems one count input (offset + consumed)) [
    | ok (vs, end) ↦ ok (item v vs, end)
    | nothing ↦ nothing
    | value_error ↦ value_error
    | out_of_fuel ↦ out_of_fuel
  ]
  | nothing ↦ nothing
  | value_error ↦ value_error
  | out_of_fuel ↦ out_of_fuel
]

abbrev tuple_result : Read (Items × ℕ) → Read (Value × ℕ)
tuple_result (ok (vs, end)) = ok (tuple vs, end)
tuple_result nothing = nothing
tuple_result value_error = value_error
tuple_result out_of_fuel = out_of_fuel

module _ (utf8 : Utf8) where
  -- One element by its tag, `one` for the elements of a tuple.
  unfoldable pub dispatch : (List ℕ → Read (Value × ℕ)) → ℕ → List ℕ → Read (Value × ℕ)
  unfolding read_u64 read_payload read_text deserialize_elems
  dispatch one tag input =
      if tag == tag_none
      then ok (none_value, 1)
      else (if tag == tag_false
          then ok (bool false, 1)
          else (if tag == tag_true
              then ok (bool true, 1)
              else (if tag == tag_i64
                  then read_u64 input (λ w. int (i64_value w))
                  else (if tag == tag_f64
                      then read_u64 input float
                      else (if tag == tag_str
                          then elim (read_payload input) [
                            | none ↦ nothing
                            | some (payload, consumed) ↦ read_text (utf8.decode payload) consumed
                          ]
                          else (if tag == tag_bytes
                              then elim (read_payload input) [
                                | none ↦ nothing
                                | some (payload, consumed) ↦ ok (bytes payload, consumed)
                              ]
                              else (if tag == tag_tuple
                                  then (if ltb (length input) 2
                                      then nothing
                                      else tuple_result (
                                          deserialize_elems one
                                            (from_le_bytes (take 1 (drop 1 input))) input 2))
                                  else nothing)))))))

  -- On fuel, a unit for each level of nested tuples.
  unfoldable pub deserialize_one : ℕ → List ℕ → Read (Value × ℕ)
  unfolding dispatch
  deserialize_one zero input = out_of_fuel
  deserialize_one (suc fuel) [] = nothing
  deserialize_one (suc fuel) (tag ∷ rest) = dispatch (deserialize_one fuel) tag (tag ∷ rest)

  unfoldable pub deserialize : List ℕ → Read Value
  unfolding deserialize_one
  deserialize [] = nothing
  deserialize (tag ∷ rest) =
      if tag == tag_pickle
      then nothing
      else (elim (deserialize_one (length (tag ∷ rest)) (tag ∷ rest)) [
        | ok (v, consumed) ↦ ok v
        | nothing ↦ nothing
        | value_error ↦ value_error
        | out_of_fuel ↦ out_of_fuel
      ])

unfoldable pub wrap_pickle : List ℕ → List ℕ
wrap_pickle pickle_bytes = tag_pickle ∷ pickle_bytes

-- `&data[1..]`; on an empty slice the source panics
unfoldable pub pickle_payload : List ℕ → Option (List ℕ)
pickle_payload [] = none
pickle_payload (b ∷ bs) = some bs
