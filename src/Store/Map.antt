-- ===== src/Store/Map.antt =====
-- The map of a shard. A key is a Python object with its hash (src/key.rs): two keys with unequal
-- hashes are unequal, and otherwise Python's rich comparison decides, which may raise. The map is an
-- association list, probed in the order of the list; an exception ends the probe as a miss.
pub mod Laws
use warp_cache.Base.{
  ℕ, zero, suc, ◌+◌, ◌-◌, ◌≤◌, ◌<◌, ◌≡◌, ◌≢◌, refl, sym, ap, arith, Bool, true, false, ◌==◌,
  ==_refl, if◌then◌else◌, Option, none, some, List, [], ◌∷◌, ◌++◌, length,
}

pub data Compare : Type 0 where
  equal differs raised : Compare

-- `rich_compare_eq` while an exception is pending: false, without a call into Python
abbrev pub pending_compare : {Obj : Type 0} → Obj → Obj → Compare
pending_compare a b = differs

pub record Key (Obj : Type 0) : Type 0 where
  pub hash : ℕ
  pub key_obj : Obj

pub record SieveEntry (V : Type 0) : Type 0 where
  pub value : V
  pub created_at : ℕ
  pub visited : Bool

-- `Hit`, `Miss`, or a miss with a Python exception left set.
pub data Probe (A : Type 0) : Type 0 where
  found : A → Probe A
  absent failed : Probe A

module _ {Obj : Type 0} (rich_compare : Obj → Obj → Compare) where
  -- `PartialEq for CacheKey` and `Equivalent<CacheKey> for BorrowedArgs`
  unfoldable pub key_eq : Key Obj → Key Obj → Compare
  key_eq a b = if a.hash == b.hash then rich_compare a.key_obj b.key_obj else differs

  -- Python's `==` on the keys in use is an equivalence and raises nothing.
  pub record IsEquality : Type 0 where
    pub reflexive : (a : Obj) → rich_compare a a ≡ equal
    pub symmetric : (a b : Obj) → rich_compare a b ≡ rich_compare b a
    pub transitive :
        (a b c : Obj)
        → rich_compare a b ≡ equal
        → rich_compare b c ≡ equal
        → rich_compare a c ≡ equal
    pub quiet : (a b : Obj) → rich_compare a b ≢ raised

abbrev pub Map : Type 0 → Type 0 → Type 0
Map Obj V = List (Key Obj × SieveEntry V)

module _ {Obj V : Type 0} (rich_compare : Obj → Obj → Compare) where
  -- `map.get(&key)`
  unfoldable pub get : Map Obj V → Key Obj → Probe (SieveEntry V)
  unfolding key_eq
  get [] k = absent
  get ((j, e) ∷ m) k = elim (key_eq rich_compare k j) [
    | equal ↦ found e
    | differs ↦ get m k
    | raised ↦ failed
  ]

  -- a change of the entry that `get` finds
  unfoldable pub modify : (SieveEntry V → SieveEntry V) → Map Obj V → Key Obj → Map Obj V
  unfolding key_eq
  modify f [] k = []
  modify f ((j, e) ∷ m) k = elim (key_eq rich_compare k j) [
    | equal ↦ (j, f e) ∷ m
    | differs ↦ (j, e) ∷ modify f m k
    | raised ↦ (j, e) ∷ m
  ]

  -- `map.remove(&key)`
  unfoldable pub remove : Map Obj V → Key Obj → Map Obj V
  unfolding key_eq
  remove [] k = []
  remove ((j, e) ∷ m) k = elim (key_eq rich_compare k j) [
    | equal ↦ m
    | differs ↦ (j, e) ∷ remove m k
    | raised ↦ (j, e) ∷ m
  ]

  -- `map.insert(key, entry)`: a key that is there is kept, with the new entry. A probe that raises
  -- counts as a miss.
  unfoldable pub insert : Map Obj V → Key Obj → SieveEntry V → Map Obj V
  unfolding get modify
  insert m k e = elim (get m k) [
    | found _ ↦ modify (λ _. e) m k
    | absent ↦ m ++ (k, e) ∷ []
    | failed ↦ m ++ (k, e) ∷ []
  ]

module _ {Obj : Type 0} {rich_compare : Obj → Obj → Compare}
    (lawful : IsEquality rich_compare) where
  abbrev Same : Key Obj → Key Obj → Type 0
  Same a b = key_eq rich_compare a b ≡ equal

  pub key_eq_self : (a : Key Obj) → key_eq rich_compare a a ≡ equal
  unfolding key_eq
  key_eq_self a = ground (arith, lawful.reflexive a.key_obj)

  pub key_eq_sym : (a b : Key Obj) → key_eq rich_compare a b ≡ key_eq rich_compare b a
  unfolding key_eq
  key_eq_sym a b = ground (arith, lawful.symmetric a.key_obj b.key_obj)

  pub key_eq_trans : (a b c : Key Obj) → Same a b → Same b c → Same a c
  unfolding key_eq
  key_eq_trans a b c h k = ground (arith, lawful.transitive a.key_obj b.key_obj c.key_obj)

  pub key_eq_quiet : (a b : Key Obj) → key_eq rich_compare a b ≢ raised
  unfolding key_eq
  key_eq_quiet a b = ground (arith, lawful.quiet a.key_obj b.key_obj)

  -- the same key reads the same
  pub key_eq_congr :
      (a b c : Key Obj) → Same a b → key_eq rich_compare a c ≡ key_eq rich_compare b c
  key_eq_congr a b c h = ground (
    arith,
    key_eq_sym a b,
    key_eq_trans a b c,
    key_eq_trans b a c,
    key_eq_quiet a c,
    key_eq_quiet b c,
  )

module _ {Obj V : Type 0} {rich_compare : Obj → Obj → Compare}
    (lawful : IsEquality rich_compare) where
  module _ (k q : Key Obj) where
    pub get-modify :
        (f : SieveEntry V → SieveEntry V) (m : Map Obj V)
        → get rich_compare (modify rich_compare f m k) q ≡ elim (key_eq rich_compare q k) [
          | equal ↦ elim (get rich_compare m q) [
            | found e ↦ found (f e)
            | absent ↦ absent
            | failed ↦ failed
          ]
          | _ ↦ get rich_compare m q
        ]
    unfolding get modify
    get-modify f [] = ground arith
    get-modify f ((j, e) ∷ m) = ground (
      arith,
      get-modify f m,
      key_eq_congr lawful q k j,
      key_eq_sym lawful k j,
      key_eq_sym lawful q k,
      key_eq_trans lawful q j k,
      key_eq_quiet lawful k j,
      key_eq_quiet lawful q j,
      key_eq_quiet lawful q k,
    )

  pub length-remove :
      (m : Map Obj V) (k : Key Obj) {e : SieveEntry V}
      → get rich_compare m k ≡ found e
      → suc (length (remove rich_compare m k)) ≡ length m
  unfolding get remove
  length-remove [] k h = absurd (ground arith)
  length-remove ((j, e') ∷ m) k {e} h = ground (arith, length-remove m k {e = e})

  pub length-modify :
      (f : SieveEntry V → SieveEntry V) (m : Map Obj V) (k : Key Obj)
      → length (modify rich_compare f m k) ≡ length m
  unfolding modify
  length-modify f [] k = refl
  length-modify f ((j, e) ∷ m) k = ground (arith, length-modify f m k)

  pub get_quiet : (m : Map Obj V) (k : Key Obj) → get rich_compare m k ≢ failed
  unfolding get
  get_quiet [] k = λ e. cc
  get_quiet ((j, e) ∷ m) k = ground (arith, get_quiet m k, key_eq_quiet lawful k j)

  pub get_congr :
      (m : Map Obj V) (a b : Key Obj)
      → Same lawful a b
      → get rich_compare m a ≡ get rich_compare m b
  unfolding get
  get_congr [] a b h = refl
  get_congr ((j, e) ∷ m) a b h = ground (arith, get_congr m a b h, key_eq_congr lawful a b j h)
