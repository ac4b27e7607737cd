-- ===== src/Store/Map/Laws.antt =====
-- Laws of the shard's map: reads after a removal, distinct keys, and the value stored for a key.
use warp_cache.Base.{◌≡◌, refl, arith, Option, none, some, [], ◌∷◌, ◌++◌}
use warp_cache.Store.Map.{
  Compare, equal, differs, raised, Key, SieveEntry, Map, Probe, found, absent, failed, key_eq,
  IsEquality, get, modify, remove, key_eq_sym, key_eq_trans, key_eq_quiet, get-modify, get_quiet,
  get_congr,
}

module _ {Obj V : Type 0} (rich_compare : Obj → Obj → Compare) where
  -- no two entries under one key
  abbrev pub Distinct : Map Obj V → Type 0
  Distinct [] = Unit
  Distinct ((j, e) ∷ m) = (get rich_compare m j ≡ absent) × Distinct m

  abbrev pub entry_value : Probe (SieveEntry V) → Option V
  entry_value (found e) = some e.value
  entry_value absent = none
  entry_value failed = none

  unfoldable pub value_at : Map Obj V → Key Obj → Option V
  value_at m k = entry_value (get rich_compare m k)

module _ {Obj V : Type 0} {rich_compare : Obj → Obj → Compare}
    (lawful : IsEquality rich_compare) where
  pub get-remove_ne :
      (m : Map Obj V) (k q : Key Obj)
      → key_eq rich_compare q k ≡ differs
      → get rich_compare (remove rich_compare m k) q ≡ get rich_compare m q
  unfolding get remove
  get-remove_ne [] k q h = refl
  get-remove_ne ((j, e) ∷ m) k q h = ground (
    arith,
    get-remove_ne m k q h,
    key_eq_trans lawful q j k,
    key_eq_sym lawful k j,
    key_eq_quiet lawful k j,
    key_eq_quiet lawful q j,
  )

  pub get-remove_self :
      (m : Map Obj V) (k : Key Obj)
      → Distinct rich_compare m
      → get rich_compare (remove rich_compare m k) k ≡ absent
  unfolding get remove
  get-remove_self [] k h = refl
  get-remove_self ((j, e) ∷ m) k (here, rest) =
      ground (arith, get-remove_self m k rest, key_eq_quiet lawful k j, get_congr lawful m k j)

  absent_remove :
      (m : Map Obj V) (k q : Key Obj)
      → get rich_compare m q ≡ absent
      → get rich_compare (remove rich_compare m k) q ≡ absent
  unfolding get remove
  absent_remove [] k q h = refl
  absent_remove ((j, e) ∷ m) k q h =
      ground (arith, absent_remove m k q, key_eq_quiet lawful k j, key_eq_quiet lawful q j)

  pub found_of_remove :
      (m : Map Obj V) (k q : Key Obj) {e : SieveEntry V}
      → get rich_compare (remove rich_compare m k) q ≡ found e
      → (e' : SieveEntry V) × (get rich_compare m q ≡ found e')
  found_of_remove m k q {e} h = go (get rich_compare m q) refl
    where
      go :
          (r : Probe (SieveEntry V))
          → get rich_compare m q ≡ r
          → (e' : SieveEntry V) × (get rich_compare m q ≡ found e')
      go (found e') p = (e', p)
      go absent p = cc (absent_remove m k q p)
      go failed p = absurd (get_quiet lawful m q p)

  pub remove-Distinct :
      (m : Map Obj V) (k : Key Obj)
      → Distinct rich_compare m
      → Distinct rich_compare (remove rich_compare m k)
  unfolding get remove
  remove-Distinct [] k h = tt
  remove-Distinct ((j, e) ∷ m) k (here, rest) =
      ground (arith, remove-Distinct m k rest, absent_remove m k j)

  pub modify-Distinct :
      (f : SieveEntry V → SieveEntry V) (m : Map Obj V) (k : Key Obj)
      → Distinct rich_compare m
      → Distinct rich_compare (modify rich_compare f m k)
  unfolding get modify
  modify-Distinct f [] k h = tt
  modify-Distinct f ((j, e) ∷ m) k (here, rest) =
      ground (arith, modify-Distinct f m k rest, get-modify lawful k j f m)

  pub get-append :
      (m : Map Obj V) (k q : Key Obj) (e : SieveEntry V)
      → get rich_compare (m ++ (k, e) ∷ []) q ≡ elim (get rich_compare m q) [
        | found e' ↦ found e'
        | absent ↦ elim (key_eq rich_compare q k) [
          | equal ↦ found e
          | differs ↦ absent
          | raised ↦ failed
        ]
        | failed ↦ failed
      ]
  unfolding get
  get-append [] k q e = ground arith
  get-append ((j, e') ∷ m) k q e = ground (arith, get-append m k q e)

  pub append-Distinct :
      (m : Map Obj V) (k : Key Obj) (e : SieveEntry V)
      → Distinct rich_compare m
      → get rich_compare m k ≡ absent
      → Distinct rich_compare (m ++ (k, e) ∷ [])
  unfolding get
  append-Distinct [] k e h new = (refl, tt)
  append-Distinct ((j, e') ∷ m) k e (here, rest) new = ground (
    arith,
    append-Distinct m k e rest,
    get-append m k j e,
    key_eq_sym lawful j k,
    key_eq_quiet lawful k j,
  )
