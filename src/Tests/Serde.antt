-- ===== src/Tests/Serde.antt =====
-- A nested tuple through the serializer and back, with a codec that leaves text as it is.
use warp_cache.Base.{
  ℕ, ◌≡◌, ◌≢◌, refl, sym, arith, none, some, List, [], ◌∷◌, negsuc, if◌then◌else◌,
}
use warp_cache.Serde.{
  Value, none_value, int, str, tuple, subclass, no_items, item, Utf8, serialize, deserialize, ok,
  out_of_fuel, item_count,
}
use warp_cache.Serde.Words.{i64_bits, to_le_bytes}
use warp_cache.Serde.Format.{supported, encoding, base, IsSized}
use warp_cache.Serde.Encode.{serialize-encoding}
use warp_cache.Serde.Decode.{deserialize_ends}
use warp_cache.Serde.RoundTrip.{deserialize-serialize}

plain_decode : (s bs : List ℕ) → some s ≡ some bs → some bs ≡ some s
plain_decode s bs h = sym h

abbrev plain : Utf8
plain = record { encode = λ s. some s; decode = λ bs. some bs; decode_encode = plain_decode }

-- `(-2, ("a", None))`, the pair inside an instance of a class derived from tuple
abbrev key : Value
key = tuple (
    item (int (negsuc 1))
      (item (subclass 0 (tuple (item (str (97 ∷ [])) (item none_value no_items)))) no_items))

abbrev key_bytes : List ℕ
key_bytes =
    8 ∷ 2 ∷ 4 ∷ 254 ∷ 255 ∷ 255 ∷ 255 ∷ 255 ∷ 255 ∷ 255 ∷ 255 ∷ 8 ∷ 2 ∷ 6 ∷ 1 ∷ 0 ∷ 0 ∷ 0 ∷ 97 ∷ 1
    ∷ []

serialize_runs : serialize plain key ≡ some key_bytes
unfolding serialize item_count i64_bits to_le_bytes
serialize_runs = refl

key-IsSized : IsSized plain key
unfolding IsSized
key-IsSized = (tt, ((omega arith, (tt, tt)), tt))

sub-IsSized : IsSized plain (subclass 1 key)
unfolding IsSized
sub-IsSized = key-IsSized

sub_runs : serialize plain (subclass 1 key) ≡ some key_bytes
unfolding serialize
sub_runs = serialize_runs

deserialize-serialize_example : deserialize plain key_bytes ≡ ok (base key)
deserialize-serialize_example = deserialize-serialize plain key key-IsSized serialize_runs

serialize-encoding_example :
    serialize plain key ≡ (if supported plain key then some (encoding plain key) else none)
serialize-encoding_example = serialize-encoding plain key

deserialize_ends_example : deserialize plain (8 ∷ 200 ∷ 8 ∷ 3 ∷ []) ≢ out_of_fuel
deserialize_ends_example = deserialize_ends plain (8 ∷ 200 ∷ 8 ∷ 3 ∷ [])
