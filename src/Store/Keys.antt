-- ===== src/Store/Keys.antt =====
-- src/key.rs, and the key functions and the hasher of src/store.rs: how the arguments of a call become a key,
-- and how two keys are compared while an exception may be pending. A hash is the 64-bit pattern of an `isize`.
pub mod Laws
pub mod Hasher
use warp_cache.Base.{
  ℕ, ◌%◌, ◌^◌, ◌-◌, Bool, true, false, ◌==◌, ltb, if◌then◌else◌, Option, none, some, List, [], ◌∷◌,
  length, take,
}
use warp_cache.Serde.Words.{from_le_bytes}
use warp_cache.Store.Map
use warp_cache.Store.Map.{Compare, equal, differs, raised, Key, SieveEntry, Map}
use warp_cache.Store.Function.{Cached, Done, Lookup, call, read, set}

-- What the code takes from Python and from pyo3; `none` for a raised exception. A dictionary of keyword
-- arguments is the list of its items.
pub record Python (Obj : Type 0) : Type 0 where
  pub rich_compare : Obj → Obj → Compare
  pub object_hash : Obj → ℕ
  pub bind_hash : Obj → Option ℕ
  pub sorted : List (Obj × Obj) → Option (List (Obj × Obj))
  pub tuple_of_items : List (Obj × Obj) → Option Obj
  pub tuple_of_two : Obj → Obj → Option Obj

-- `-1` as a 64-bit pattern
abbrev pub minus_one : ℕ
minus_one = 2 ^ 64 - 1

pub record BorrowedArgs (Obj : Type 0) : Type 0 where
  pub hash : ℕ
  pub ptr : Obj

-- What `hash_args` returns: the hash, the object to compare, and the object that is kept alive.
pub record HashedArgs (Obj : Type 0) : Type 0 where
  pub hash : ℕ
  pub key_ptr : Obj
  pub key_owner : Option Obj

module _ {Obj : Type 0} where
  -- `CacheKey::with_hash`
  abbrev pub with_hash : ℕ → Obj → Key Obj
  with_hash hash obj = record { hash = hash; key_obj = obj }

  abbrev pub borrowed : HashedArgs Obj → BorrowedArgs Obj
  borrowed h = record { hash = h.hash; ptr = h.key_ptr }

  -- the key that `__call__` stores under
  unfoldable pub cache_key : HashedArgs Obj → Key Obj
  cache_key h = elim h.key_owner [
    | some obj ↦ with_hash h.hash obj
    | none ↦ with_hash h.hash h.key_ptr
  ]

  -- The lookups of the map take a borrowed key as a key.
  abbrev pub as_key : BorrowedArgs Obj → Key Obj
  as_key b = record { hash = b.hash; key_obj = b.ptr }

module _ {Obj : Type 0} (py : Python Obj) where
  -- `CacheKey::new`
  unfoldable pub cache_key_new : Obj → Option (Key Obj)
  cache_key_new obj = elim (py.bind_hash obj) [
    | none ↦ none
    | some hash ↦ some (with_hash hash obj)
  ]

  -- the pair of the positional and the sorted keyword arguments
  unfoldable pub combined : Obj → List (Obj × Obj) → Option Obj
  combined args kw = elim (py.sorted kw) [
    | none ↦ none
    | some sorted_items ↦ elim (py.tuple_of_items sorted_items) [
      | none ↦ none
      | some kw_tup ↦ py.tuple_of_two args kw_tup
    ]
  ]

  unfoldable pub make_key : Obj → Option (List (Obj × Obj)) → Option (Key Obj)
  unfolding cache_key_new combined
  make_key args none = cache_key_new args
  make_key args (some []) = cache_key_new args
  make_key args (some (kw ∷ kws)) = elim (combined args (kw ∷ kws)) [
    | none ↦ none
    | some key_obj ↦ cache_key_new key_obj
  ]

  -- the end of both paths of `hash_args`
  unfoldable pub hashed : Obj → Option Obj → Option (HashedArgs Obj)
  hashed ptr owner =
      if py.object_hash ptr == minus_one
      then none
      else some (record { hash = py.object_hash ptr; key_ptr = ptr; key_owner = owner })

  unfoldable pub hash_args : Obj → Option (List (Obj × Obj)) → Option (HashedArgs Obj)
  unfolding combined hashed
  hash_args args none = hashed args none
  hash_args args (some []) = hashed args none
  hash_args args (some (kw ∷ kws)) = elim (combined args (kw ∷ kws)) [
    | none ↦ none
    | some key_obj ↦ hashed key_obj (some key_obj)
  ]

  -- Whether an exception is pending afterwards, and the answer.
  unfoldable pub rich_compare_eq : Bool → Obj → Obj → Bool × Bool
  rich_compare_eq true a b = (true, false)
  rich_compare_eq false a b = elim (py.rich_compare a b) [
    | equal ↦ (false, true)
    | differs ↦ (false, false)
    | raised ↦ (true, false)
  ]

  -- `Equivalent<CacheKey> for BorrowedArgs`
  unfoldable pub equivalent : Bool → BorrowedArgs Obj → Key Obj → Bool × Bool
  unfolding rich_compare_eq
  equivalent pending a key =
      if a.hash == key.hash then rich_compare_eq pending a.ptr key.key_obj else (pending, false)

  -- `PartialEq for CacheKey`
  unfoldable pub cache_key_eq : Bool → Key Obj → Key Obj → Bool × Bool
  unfolding rich_compare_eq
  cache_key_eq pending a key =
      if a.hash == key.hash then rich_compare_eq pending a.key_obj key.key_obj else (pending, false)

-- A lookup in the map, entry by entry, by the answers of `eq`, with the pending exception.
module _ {Obj V : Type 0} where
  unfoldable pub find :
      (Bool → Key Obj → Bool × Bool) → Bool → Map Obj V → Bool × Option (SieveEntry V)
  find eq pending [] = (pending, none)
  find eq pending ((j, e) ∷ m) =
      let rest = find eq (eq pending j).0 m in
      if (eq pending j).1 then ((eq pending j).0, some e) else rest

-- The methods, from their arguments on.
module _ {Obj V : Type 0} (py : Python Obj) where
  unfoldable pub call_args :
      (Cached Obj V → Cached Obj V × Option V)
      → Cached Obj V
      → Obj
      → Option (List (Obj × Obj))
      → ℕ
      → ℕ
      → Option (Cached Obj V × Done V)
  unfolding hash_args
  call_args function c args kwargs now later = elim (hash_args py args kwargs) [
    | none ↦ some (c, Done.raised)
    | some h ↦ call py.rich_compare function c (as_key (borrowed h)) now later
  ]

  -- the common body of `get` and `_probe`
  unfoldable pub read_args :
      Cached Obj V → Obj → Option (List (Obj × Obj)) → ℕ → Cached Obj V × Lookup V
  unfolding hash_args
  read_args c args kwargs now = elim (hash_args py args kwargs) [
    | none ↦ (c, Lookup.raise)
    | some h ↦ read py.rich_compare c (as_key (borrowed h)) now
  ]

  -- `get`: the value, or `None`.
  unfoldable pub get_args :
      Cached Obj V → Obj → Option (List (Obj × Obj)) → ℕ → Cached Obj V × Done (Option V)
  unfolding read_args
  get_args c args kwargs now = (
    (read_args c args kwargs now).0,
    elim (read_args c args kwargs now).1 [
      | Lookup.hit v ↦ Done.returned (some v)
      | Lookup.miss ↦ Done.returned none
      | Lookup.raise ↦ Done.raised
    ],
  )

  -- `_probe`: whether it was a hit, and the value, or `None`.
  unfoldable pub probe_args :
      Cached Obj V → Obj → Option (List (Obj × Obj)) → ℕ → Cached Obj V × Done (Bool × Option V)
  unfolding read_args
  probe_args c args kwargs now = (
    (read_args c args kwargs now).0,
    elim (read_args c args kwargs now).1 [
      | Lookup.hit v ↦ Done.returned (true, some v)
      | Lookup.miss ↦ Done.returned (false, none)
      | Lookup.raise ↦ Done.raised
    ],
  )

  -- With what it returns: whether an exception is left pending.
  unfoldable pub set_args :
      Cached Obj V → V → Obj → Option (List (Obj × Obj)) → ℕ → Option (Cached Obj V × Done Bool)
  unfolding make_key
  set_args c value args kwargs now = elim (make_key py args kwargs) [
    | none ↦ some (c, Done.raised)
    | some key ↦ elim (set py.rich_compare c key value now) [
      | none ↦ none
      | some (c', pending) ↦ some (c', Done.returned pending)
    ]
  ]
