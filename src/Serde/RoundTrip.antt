-- ===== src/Serde/RoundTrip.antt =====
-- What was serialized is deserialized again.
use warp_cache.Base.{
  ℕ, zero, suc, ◌+◌, ◌*◌, ◌%◌, ◌^◌, ◌≤◌, ◌<◌, ◌≡◌, ◌≢◌, refl, sym, ap, subst, ◌∙◌, arith, true,
  false, ◌==◌, Option, none, some, List, [], ◌∷◌, ◌++◌, append_assoc, append-nil, ℤ, length,
  length-append, take, drop, take-append, drop-append,
}
use native.Mathlib.Nat.{add_assoc}
use warp_cache.Serde.{
  Value, Items, none_value, bool, int, float, str, bytes, tuple, subclass, other, no_items, item,
  item_count, Utf8, Read, ok, tag_i64, tag_f64, tag_str, tag_bytes, tag_tuple, read_u64,
  read_payload, read_text, deserialize_elems, deserialize_one, deserialize, serialize, wrap_pickle,
  pickle_payload, nothing,
}
use warp_cache.Serde.Words.{
  to_le_bytes, from_le_bytes, i64_bits, i64_value, length-to_le_bytes, from-to_le_bytes,
  i64_value-bits,
}
use warp_cache.Serde.Encode.{serialize-encoding}
use warp_cache.Serde.Format.{
  is_some, int_bytes, str_bytes, supported, supported_items, encoding, encodings, base, base_items,
  Short, IsSized, AreSized,
}

take_front : (n : ℕ) (xs ys : List ℕ) → length xs ≡ n → take n (xs ++ ys) ≡ xs
take_front n xs ys h = rw (← h) (take-append xs ys)

drop_front : (n : ℕ) (xs ys : List ℕ) → length xs ≡ n → drop n (xs ++ ys) ≡ ys
drop_front n xs ys h = rw (← h) (drop-append xs ys)

read_u64_lem :
    (tag w : ℕ) (rest : List ℕ) (build : ℕ → Value)
    → w < 2 ^ 64
    → read_u64 (tag ∷ to_le_bytes 8 w ++ rest) build ≡ ok (build w, 9)
unfolding read_u64
read_u64_lem tag w rest build h =
    let front = take_front 8 (to_le_bytes 8 w) rest (length-to_le_bytes 8 w) in
    ground (
      arith,
      front,
      from-to_le_bytes 8 w h,
      length-append (to_le_bytes 8 w) rest,
      length-to_le_bytes 8 w,
    )

read_payload_lem :
    (tag : ℕ) (bs rest : List ℕ)
    → length bs < 2 ^ 32
    → read_payload (tag ∷ (to_le_bytes 4 (length bs % 2 ^ 32) ++ (bs ++ rest)))
      ≡ some (bs, 5 + length bs)
unfolding read_payload
read_payload_lem tag bs rest h =
    let head = to_le_bytes 4 (length bs % 2 ^ 32) in
    let width = length-to_le_bytes 4 (length bs % 2 ^ 32) in
    let len : from_le_bytes head ≡ length bs =
      omega (arith, from-to_le_bytes 4 (length bs % 2 ^ 32)) in
    rw
      (take_front 4 head (bs ++ rest) width, drop_front 4 head (bs ++ rest) width, len, take-append)
      (ground (arith, length-append head (bs ++ rest), length-append bs rest, width))

elems_step :
    (one : List ℕ → Read (Value × ℕ)) (count offset : ℕ) (input : List ℕ) {v : Value} {vs : Items}
    {consumed end : ℕ}
    → one (drop offset input) ≡ ok (v, consumed)
    → deserialize_elems one count input (offset + consumed) ≡ ok (vs, end)
    → deserialize_elems one (suc count) input offset ≡ ok (item v vs, end)
unfolding deserialize_elems
elems_step one count offset input h k = rw (deserialize_elems, h) (rw k)

elems_nil :
    (one : List ℕ → Read (Value × ℕ)) (input : List ℕ) (offset : ℕ)
    → deserialize_elems one 0 input offset ≡ ok (no_items, offset)
unfolding deserialize_elems
elems_nil one input offset = refl

tuple_step :
    (utf8 : Utf8) (fuel n : ℕ) (tail : List ℕ) {vs : Items} {end : ℕ}
    → n < 256
    → deserialize_elems (deserialize_one utf8 fuel) n (tag_tuple ∷ n ∷ tail) 2 ≡ ok (vs, end)
    → deserialize_one utf8 (suc fuel) (tag_tuple ∷ (n % 256) ∷ tail) ≡ ok (tuple vs, end)
unfolding deserialize_one from_le_bytes
tuple_step utf8 fuel n tail {vs} {end} small h =
    let byte : n % 256 ≡ n = omega arith in
    let whole : n + 256 * 0 ≡ n = omega arith in rw (byte, whole, h) (ground arith)

module _ (utf8 : Utf8) where
  -- Reads the value back off the front of any input, with the number of bytes that it took.
  abbrev ReadsBack : ℕ → List ℕ → Value → Type 0
  ReadsBack fuel encoded v =
      (rest : List ℕ) → deserialize_one utf8 fuel (encoded ++ rest) ≡ ok (v, length encoded)

  int-ReadsBack :
      (z : ℤ) (o : Option ℕ) (fuel : ℕ)
      → i64_bits z ≡ o
      → is_some o ≡ true
      → ReadsBack (suc fuel) (int_bytes o) (int z)
  unfolding deserialize_one
  int-ReadsBack z none fuel e h rest = absurd (ground arith)
  int-ReadsBack z (some w) fuel e h rest =
      let (same, small) = i64_value-bits z e in
      rw (read_u64_lem tag_i64 w rest (λ w. int (i64_value w)) small, same, length-to_le_bytes)

  str-ReadsBack :
      (s : List ℕ) (o : Option (List ℕ)) (fuel : ℕ)
      → utf8.encode s ≡ o
      → is_some o ≡ true
      → Short o
      → ReadsBack (suc fuel) (str_bytes o) (str s)
  unfolding deserialize_one read_text
  str-ReadsBack s none fuel e h short rest = absurd (ground arith)
  str-ReadsBack s (some bs) fuel e h short rest =
      rw
        (
          append_assoc,
          read_payload_lem tag_str bs rest short,
          utf8.decode_encode s bs e,
          length-append,
          length-to_le_bytes,
        )
        (ground arith)

  bytes-ReadsBack :
      (b : List ℕ) (fuel : ℕ)
      → length b < 2 ^ 32
      → ReadsBack (suc fuel) (encoding utf8 (bytes b)) (bytes b)
  unfolding deserialize_one encoding
  bytes-ReadsBack b fuel short rest =
      rw (append_assoc, read_payload_lem tag_bytes b rest short, length-append, length-to_le_bytes)
        (ground arith)

  float-ReadsBack :
      (w fuel : ℕ) → w < 2 ^ 64 → ReadsBack (suc fuel) (encoding utf8 (float w)) (float w)
  unfolding deserialize_one encoding
  float-ReadsBack w fuel small rest =
      rw (read_u64_lem tag_f64 w rest float small, length-to_le_bytes)

  encoding_pos : (v : Value) → supported utf8 v ≡ true → 0 < length (encoding utf8 v)
  unfolding supported encoding
  encoding_pos none_value h = omega arith
  encoding_pos (bool b) h = omega arith
  encoding_pos (int z) h = go (i64_bits z) h
    where
      go : (o : Option ℕ) → is_some o ≡ true → 0 < length (int_bytes o)
      go none h = absurd (ground arith)
      go (some w) h = omega arith
  encoding_pos (float w) h = omega arith
  encoding_pos (str s) h = go (utf8.encode s) h
    where
      go : (o : Option (List ℕ)) → is_some o ≡ true → 0 < length (str_bytes o)
      go none h = absurd (ground arith)
      go (some w) h = omega arith
  encoding_pos (bytes b) h = omega arith
  encoding_pos (tuple vs) h = omega arith
  encoding_pos (subclass c v) h = encoding_pos v h
  encoding_pos (other n) h = absurd (ground arith)

  -- The loop over the elements, from the offset where they begin.
  abbrev ReadsItems : ℕ → Items → Type 0
  ReadsItems fuel vs =
      (front rest : List ℕ)
      → deserialize_elems (deserialize_one utf8 fuel) (item_count vs)
          (front ++ (encodings utf8 vs ++ rest)) (length front)
        ≡ ok (base_items vs, length front + length (encodings utf8 vs))

  cons-ReadsItems :
      (fuel : ℕ) (v : Value) (vs : Items)
      → ReadsBack fuel (encoding utf8 v) (base v)
      → ReadsItems fuel vs
      → ReadsItems fuel (item v vs)
  unfolding item_count encoding base
  cons-ReadsItems fuel v vs one more front rest =
      let enc = encoding utf8 v in
      let encs = encodings utf8 vs in
      let first = one (encs ++ rest) in
      let others : deserialize_elems (deserialize_one utf8 fuel) (item_count vs)
            (front ++ (enc ++ (encs ++ rest))) (length front + length enc)
          ≡ ok (base_items vs, length front + length enc + length encs) =
        rw (← append_assoc front enc (encs ++ rest), ← length-append front enc)
          (more (front ++ enc) rest) in
      let here : deserialize_one utf8 fuel (drop (length front) (front ++ (enc ++ (encs ++ rest))))
          ≡ ok (base v, length enc) =
        rw (drop-append front (enc ++ (encs ++ rest))) first in
      rw (append_assoc enc encs rest) (
        elems_step (deserialize_one utf8 fuel) (item_count vs) (length front)
          (front ++ (enc ++ (encs ++ rest))) here others
        ∙ rw (length-append enc encs, add_assoc))

  mutual
    unfolding supported encoding IsSized base deserialize_one item_count

    value-ReadsBack :
        (v : Value) (fuel : ℕ)
        → supported utf8 v ≡ true
        → IsSized utf8 v
        → length (encoding utf8 v) ≤ suc fuel
        → ReadsBack (suc fuel) (encoding utf8 v) (base v)
    value-ReadsBack none_value fuel h z f rest = refl
    value-ReadsBack (bool true) fuel h z f rest = refl
    value-ReadsBack (bool false) fuel h z f rest = refl
    value-ReadsBack (int z) fuel h _ f rest = int-ReadsBack z (i64_bits z) fuel refl h rest
    value-ReadsBack (float w) fuel h z f rest = float-ReadsBack w fuel z rest
    value-ReadsBack (str s) fuel h z f rest = str-ReadsBack s (utf8.encode s) fuel refl h z rest
    value-ReadsBack (bytes b) fuel h z f rest = bytes-ReadsBack b fuel z rest
    value-ReadsBack (tuple vs) zero h z f rest = absurd (omega arith)
    value-ReadsBack (tuple vs) (suc fuel) h z f rest =
        tuple_step utf8 (suc fuel) (item_count vs) (encodings utf8 vs ++ rest) (ground arith) (
          items-ReadsItems vs fuel (ground arith) z (omega arith) (tag_tuple ∷ (item_count vs) ∷ [])
            rest)
        ∙ ap (λ n. ok (tuple (base_items vs), n)) (omega arith)
    value-ReadsBack (subclass c v) fuel h z f rest = value-ReadsBack v fuel h z f rest
    value-ReadsBack (other n) fuel h z f rest = absurd (ground arith)

    items-ReadsItems :
        (vs : Items) (fuel : ℕ)
        → supported_items utf8 vs ≡ true
        → AreSized utf8 vs
        → length (encodings utf8 vs) ≤ suc fuel
        → ReadsItems (suc fuel) vs
    items-ReadsItems no_items fuel h z f front rest =
        elems_nil (deserialize_one utf8 (suc fuel)) (front ++ rest) (length front)
        ∙ ap (λ n. ok (no_items, n)) (omega arith)
    items-ReadsItems (item v vs) fuel h z f front rest =
        let total = length-append (encoding utf8 v) (encodings utf8 vs) in
        cons-ReadsItems (suc fuel) v vs (value-ReadsBack v fuel (ground arith) z.0 (omega arith))
          (items-ReadsItems vs fuel (ground arith) z.1 (omega arith)) front rest

abbrev Head : List ℕ → Type 0
Head bs = (tag : ℕ) × (rest : List ℕ) × (bs ≡ tag ∷ rest) × (1 ≤ tag)

encoding-Head : (utf8 : Utf8) (v : Value) → supported utf8 v ≡ true → Head (encoding utf8 v)
unfolding supported encoding
encoding-Head utf8 none_value h = (_, _, refl, omega arith)
encoding-Head utf8 (bool true) h = (_, _, refl, omega arith)
encoding-Head utf8 (bool false) h = (_, _, refl, omega arith)
encoding-Head utf8 (int z) h = go (i64_bits z) h
  where
    go : (o : Option ℕ) → is_some o ≡ true → Head (int_bytes o)
    go none h = absurd (ground arith)
    go (some w) h = (_, _, refl, omega arith)
encoding-Head utf8 (float w) h = (_, _, refl, omega arith)
encoding-Head utf8 (str s) h = go (utf8.encode s) h
  where
    go : (o : Option (List ℕ)) → is_some o ≡ true → Head (str_bytes o)
    go none h = absurd (ground arith)
    go (some w) h = (_, _, refl, omega arith)
encoding-Head utf8 (bytes b) h = (_, _, refl, omega arith)
encoding-Head utf8 (tuple vs) h = (_, _, refl, omega arith)
encoding-Head utf8 (subclass c v) h = encoding-Head utf8 v h
encoding-Head utf8 (other n) h = absurd (ground arith)

deserialize-Head :
    (utf8 : Utf8) (input : List ℕ) (v : Value) (n : ℕ)
    → Head input
    → deserialize_one utf8 (length input) input ≡ ok (v, n)
    → deserialize utf8 input ≡ ok v
unfolding deserialize
deserialize-Head utf8 [] v n (tag, rest, e, pos) h = absurd (ground arith)
deserialize-Head utf8 (b ∷ bs) v n (tag, rest, e, pos) h =
    let apart : (b == 0) ≡ false = ground arith in rw (apart, h)

module _ (utf8 : Utf8) (v : Value) {bs : List ℕ} (sized : IsSized utf8 v)
    (written : serialize utf8 v ≡ some bs) where
  written_supported : (supported utf8 v ≡ true) × (bs ≡ encoding utf8 v)
  written_supported = ground (arith, serialize-encoding utf8 v)

  -- A value whose sizes fit the format's fields, once serialized, deserializes to itself, with
  -- instances of derived classes replaced by their base values.
  pub deserialize-serialize : deserialize utf8 bs ≡ ok (base v)
  deserialize-serialize =
      let (yes_supported, same) = written_supported in
      rw same (whole (length (encoding utf8 v)) refl)
    where
      open_fact : (supported utf8 v ≡ true) × (bs ≡ encoding utf8 v)
      open_fact = written_supported

      whole :
          (n : ℕ) → length (encoding utf8 v) ≡ n → deserialize utf8 (encoding utf8 v) ≡ ok (base v)
      whole zero e = absurd (omega (arith, encoding_pos utf8 v open_fact.0))
      whole (suc fuel) e =
          deserialize-Head utf8 (encoding utf8 v) (base v) (length (encoding utf8 v))
            (encoding-Head utf8 v open_fact.0)
            (subst
              (λ k.
                deserialize_one utf8 k (encoding utf8 v) ≡ ok (base v, length (encoding utf8 v)))
              (sym e)
              (rw append-nil at (value-ReadsBack utf8 v fuel open_fact.0 sized (omega arith) [])))

-- Two values whose sizes fit the format's fields and that serialize to the same bytes are the same
-- up to derived classes.
pub serialize_injective :
    (utf8 : Utf8) (v w : Value) {bs : List ℕ}
    → IsSized utf8 v
    → IsSized utf8 w
    → serialize utf8 v ≡ some bs
    → serialize utf8 w ≡ some bs
    → base v ≡ base w
serialize_injective utf8 v w sized_v sized_w hv hw =
    cc (deserialize-serialize utf8 v sized_v hv, deserialize-serialize utf8 w sized_w hw)

-- `deserialize` returns nothing for what `wrap_pickle` made, `pickle_payload` gives back the bytes
-- that were wrapped, and `serialize` never writes bytes that `wrap_pickle` makes.
pub pickle_fallback :
    (utf8 : Utf8) (pickle_bytes : List ℕ)
    → (deserialize utf8 (wrap_pickle pickle_bytes) ≡ nothing)
      × (pickle_payload (wrap_pickle pickle_bytes) ≡ some pickle_bytes)
      × ((v : Value) → serialize utf8 v ≢ some (wrap_pickle pickle_bytes))
unfolding deserialize wrap_pickle pickle_payload
pickle_fallback utf8 pickle_bytes = (refl, refl, never)
  where
    never : (v : Value) → serialize utf8 v ≢ some (0 ∷ pickle_bytes)
    never v e =
        let (yes_supported, same) : (supported utf8 v ≡ true)
            × ((0 ∷ pickle_bytes) ≡ encoding utf8 v) =
          ground (arith, serialize-encoding utf8 v) in
        let (tag, rest, head, pos) = encoding-Head utf8 v yes_supported in ground arith
