-- ===== src/Serde/Format.antt =====
-- The format as a function of the value, with no buffer: which values are supported, their bytes,
-- what of a value the bytes keep, and the bounds that the length fields need.
use warp_cache.Base.{
  ℕ, ◌%◌, ◌^◌, ◌<◌, Bool, true, false, ◌&&◌, ltb, not, if◌then◌else◌, Option, none, some, List, [],
  ◌∷◌, ◌++◌, length,
}
use warp_cache.Serde.{
  Value, Items, none_value, bool, int, float, str, bytes, tuple, subclass, other, no_items, item,
  item_count, Utf8, tag_none, tag_false, tag_true, tag_i64, tag_f64, tag_str, tag_bytes, tag_tuple,
}
use warp_cache.Serde.Words.{to_le_bytes, i64_bits}

abbrev pub is_some {ℓ} : {A : Type ℓ} → Option A → Bool
is_some none = false
is_some (some a) = true

abbrev pub int_bytes : Option ℕ → List ℕ
int_bytes none = []
int_bytes (some w) = tag_i64 ∷ to_le_bytes 8 w

abbrev pub str_bytes : Option (List ℕ) → List ℕ
str_bytes none = []
str_bytes (some bs) = tag_str ∷ (to_le_bytes 4 (length bs % 2 ^ 32) ++ bs)

module _ (utf8 : Utf8) where
  -- `supported` asks for 64-bit integers, encodable text, and tuples of at most 255 such items.
  unfoldable mutual
    pub supported : Value → Bool
    supported none_value = true
    supported (bool b) = true
    supported (int z) = is_some (i64_bits z)
    supported (float w) = true
    supported (str s) = is_some (utf8.encode s)
    supported (bytes b) = true
    supported (tuple vs) = not (ltb 255 (item_count vs)) && supported_items vs
    supported (subclass c v) = supported v
    supported (other n) = false

    pub supported_items : Items → Bool
    supported_items no_items = true
    supported_items (item v vs) = supported v && supported_items vs

  unfoldable mutual
    pub encoding : Value → List ℕ
    encoding none_value = tag_none ∷ []
    encoding (bool b) = (if b then tag_true else tag_false) ∷ []
    encoding (int z) = int_bytes (i64_bits z)
    encoding (float w) = tag_f64 ∷ to_le_bytes 8 w
    encoding (str s) = str_bytes (utf8.encode s)
    encoding (bytes b) = tag_bytes ∷ (to_le_bytes 4 (length b % 2 ^ 32) ++ b)
    encoding (tuple vs) = tag_tuple ∷ (item_count vs % 256) ∷ encodings vs
    encoding (subclass c v) = encoding v
    encoding (other n) = []

    pub encodings : Items → List ℕ
    encodings no_items = []
    encodings (item v vs) = encoding v ++ encodings vs

-- An instance of a derived class comes back as its base value.
unfoldable mutual
  pub base : Value → Value
  base (tuple vs) = tuple (base_items vs)
  base (subclass c v) = base v
  base none_value = none_value
  base (bool b) = bool b
  base (int z) = int z
  base (float w) = float w
  base (str s) = str s
  base (bytes b) = bytes b
  base (other n) = other n

  pub base_items : Items → Items
  base_items no_items = no_items
  base_items (item v vs) = item (base v) (base_items vs)

abbrev pub Short : Option (List ℕ) → Type 0
Short none = Unit
Short (some bs) = length bs < 2 ^ 32

module _ (utf8 : Utf8) where
  -- A float is a 64-bit pattern, and the length of a text or of bytes fits a `u32`.
  unfoldable mutual
    pub IsSized : Value → Type 0
    IsSized (float w) = w < 2 ^ 64
    IsSized (str s) = Short (utf8.encode s)
    IsSized (bytes b) = length b < 2 ^ 32
    IsSized (tuple vs) = AreSized vs
    IsSized (subclass c v) = IsSized v
    IsSized none_value = Unit
    IsSized (bool b) = Unit
    IsSized (int z) = Unit
    IsSized (other n) = Unit

    pub AreSized : Items → Type 0
    AreSized no_items = Unit
    AreSized (item v vs) = IsSized v × AreSized vs
