-- ===== src/Serde/Encode.antt =====
-- The serializer appends the format's bytes to the buffer, or leaves the buffer as it was.
use warp_cache.Base.{
  ℕ, ◌%◌, ◌≡◌, refl, sym, arith, Bool, true, false, Bool-cases, inl, inr, ◌&&◌, ltb, if◌then◌else◌,
  Option, none, some, List, [], ◌∷◌, ◌++◌, append_assoc, append-nil, length, take-append,
}
use warp_cache.Serde.{
  Value, Items, none_value, bool, int, float, str, bytes, tuple, subclass, other, no_items, item,
  item_count, Utf8, Written, write_int, write_str, close_tuple, serialize_element, serialize_items,
  serialize, tag_tuple,
}
use warp_cache.Serde.Words.{i64_bits}
use warp_cache.Serde.Format.{
  is_some, int_bytes, str_bytes, supported, supported_items, encoding, encodings,
}

-- A failed loop over items leaves what it wrote so far; the tuple case drops it.
abbrev Kept : List ℕ → Written → Type 0
Kept buf w = (extra : List ℕ) × (w.1 ≡ buf ++ extra)

abbrev Appends : Bool → List ℕ → List ℕ → Written → Type 0
Appends true encoded buf w = w ≡ (true, buf ++ encoded)
Appends false encoded buf w = w ≡ (false, buf)

abbrev AppendsItems : Bool → List ℕ → List ℕ → Written → Type 0
AppendsItems true encoded buf w = w ≡ (true, buf ++ encoded)
AppendsItems false encoded buf w = (w.0 ≡ false) × Kept buf w

write_int-Appends :
    (o : Option ℕ) (buf : List ℕ) → Appends (is_some o) (int_bytes o) buf (write_int o buf)
unfolding write_int
write_int-Appends none buf = refl
write_int-Appends (some w) buf = refl

write_str-Appends :
    (o : Option (List ℕ)) (buf : List ℕ) → Appends (is_some o) (str_bytes o) buf (write_str o buf)
unfolding write_str
write_str-Appends none buf = refl
write_str-Appends (some w) buf = refl

close_tuple-Appends :
    (b : Bool) (front encoded buf : List ℕ) (w : Written)
    → AppendsItems b encoded (buf ++ front) w
    → Appends b (front ++ encoded) buf (close_tuple (length buf) w)
unfolding close_tuple
close_tuple-Appends true front encoded buf w h = rw (h, append_assoc)
close_tuple-Appends false front encoded buf (true, out) h = absurd (ground (arith, h.0))
close_tuple-Appends false front encoded buf (false, out) (same, (extra, e)) =
    rw (e, append_assoc, take-append)

items_cons :
    (b bs : Bool) (enc encs buf : List ℕ) (first rest : Written)
    → Appends b enc buf first
    → AppendsItems bs encs first.1 rest
    → AppendsItems (b && bs) (enc ++ encs) buf (if first.0 then rest else first)
items_cons true true enc encs buf first rest h k = rw (h, k, h, append_assoc)
items_cons true false enc encs buf first rest h (failed, (extra, e)) =
    rw h (failed, (enc ++ extra, rw (e, h, append_assoc)))
items_cons false bs enc encs buf first rest h k = rw h (refl, ([], sym (append-nil buf)))

module _ (utf8 : Utf8) where
  mutual
    unfolding serialize_element supported encoding

    element-Appends :
        (v : Value) (buf : List ℕ)
        → Appends (supported utf8 v) (encoding utf8 v) buf (serialize_element utf8 v buf)
    element-Appends none_value buf = refl
    element-Appends (bool b) buf = refl
    element-Appends (int z) buf = write_int-Appends (i64_bits z) buf
    element-Appends (float w) buf = refl
    element-Appends (str s) buf = write_str-Appends (utf8.encode s) buf
    element-Appends (bytes b) buf = refl
    element-Appends (tuple vs) buf = elim (Bool-cases (ltb 255 (item_count vs))) [
      | inl big ↦ rw (big)
      | inr small ↦ rw small (
          close_tuple-Appends (supported_items utf8 vs) (tag_tuple ∷ (item_count vs % 256) ∷ [])
            (encodings utf8 vs) buf _
            (items-Appends vs (buf ++ tag_tuple ∷ (item_count vs % 256) ∷ [])))
    ]
    element-Appends (subclass c v) buf = element-Appends v buf
    element-Appends (other n) buf = refl

    items-Appends :
        (vs : Items) (buf : List ℕ)
        → AppendsItems
            (supported_items utf8 vs)
            (encodings utf8 vs)
            buf
            (serialize_items utf8 vs buf)
    items-Appends no_items buf = rw (append-nil)
    items-Appends (item v vs) buf =
        items_cons (supported utf8 v) (supported_items utf8 vs) (encoding utf8 v)
          (encodings utf8 vs) buf _ _ (element-Appends v buf)
          (items-Appends vs (serialize_element utf8 v buf).1)

  -- The buffer-passing serializer computes the format: for a supported value it returns the
  -- encoding, and for any other value, also one nested in a tuple, it returns none.
  pub serialize-encoding :
      (v : Value) → serialize utf8 v ≡ (if supported utf8 v then some (encoding utf8 v) else none)
  unfolding serialize
  serialize-encoding v = go (supported utf8 v) (element-Appends v [])
    where
      go :
          (b : Bool)
          → Appends b (encoding utf8 v) [] (serialize_element utf8 v [])
          → (if (serialize_element utf8 v []).0 then some (serialize_element utf8 v []).1 else none)
            ≡ (if b then some (encoding utf8 v) else none)
      go true h = rw h
      go false h = rw h
