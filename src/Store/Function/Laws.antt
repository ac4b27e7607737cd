-- ===== src/Store/Function/Laws.antt =====
-- What the methods of `CachedFunction` promise.
use warp_cache.Base.{ℕ, ◌≤◌, ◌≡◌, refl, ◌∙◌, arith, false, some, length, ==_refl}
use warp_cache.Store.Map
use warp_cache.Store.Map.{
  Compare, equal, differs, raised, Key, SieveEntry, Map, Probe, found, absent, failed, key_eq,
  IsEquality, key_eq_self, key_eq_quiet, get-modify, length-modify, get_quiet, length-remove,
}
use warp_cache.Store.Map.Laws.{remove-Distinct, modify-Distinct, found_of_remove}
use warp_cache.Store.Shard.{Shard, insert_new, fresh}
use warp_cache.Store.Invariant.{IsShard, Queued}
use warp_cache.Store.Room.{Inserted, insert_new-Inserted}
use warp_cache.Store.Function.{Cached, expired, hit, shard_index, shard_of, with_shard, read, set}

module _ {Obj V : Type 0} (rich_compare : Obj → Obj → Compare) where
  -- Every shard is well-formed, of capacity `cap`, at least 1, and holds at most so many entries.
  pub record IsCached (cap : ℕ) (c : Cached Obj V) : Type 0 where
    pub shards : (i : ℕ) → IsShard rich_compare (c.shards i)
    pub positive : 1 ≤ cap
    pub capacity : (i : ℕ) → (c.shards i).capacity ≡ cap
    pub within : (i : ℕ) → length (c.shards i).map ≤ cap

module _ {Obj V : Type 0} {rich_compare : Obj → Obj → Compare}
    (lawful : IsEquality rich_compare) where
  -- a change of one entry keeps the shard well-formed
  pub modify-IsShard :
      (f : SieveEntry V → SieveEntry V) (s : Shard Obj V) (key : Key Obj)
      → IsShard rich_compare s
      → IsShard rich_compare (record s { map = Map.modify rich_compare f s.map key })
  modify-IsShard f s key valid = record {
    covered = λ k e h. go k e (Map.get rich_compare s.map k) refl h;
    distinct = modify-Distinct lawful f s.map key valid.distinct;
  }
    where
      go :
          (k : Key Obj) (e : SieveEntry V) (r : Probe (SieveEntry V))
          → Map.get rich_compare s.map k ≡ r
          → Map.get rich_compare (Map.modify rich_compare f s.map key) k ≡ found e
          → Queued rich_compare s.order k
      go k e (found e') p h = valid.covered k e' p
      go k e absent p h = absurd (ground (arith, get-modify lawful key k f s.map))
      go k e failed p h = absurd (get_quiet lawful s.map k p)

  pub remove-IsShard :
      (s : Shard Obj V) (key : Key Obj)
      → IsShard rich_compare s
      → IsShard rich_compare (record s { map = Map.remove rich_compare s.map key })
  remove-IsShard s key valid = record {
    covered =
        λ k e h. let (e', old) = found_of_remove lawful s.map key k h in valid.covered k e' old;
    distinct = remove-Distinct lawful s.map key valid.distinct;
  }

  module _ {cap : ℕ} {c : Cached Obj V} (valid : IsCached rich_compare cap c) (key : Key Obj) where
    pub with_shard-IsCached :
        (s : Shard Obj V)
        → IsShard rich_compare s
        → s.capacity ≡ cap
        → length s.map ≤ cap
        → IsCached rich_compare cap (with_shard rich_compare c key s)
    with_shard-IsCached s shard same small = record {
      shards = λ i. ground (arith, valid.shards i);
      positive = valid.positive;
      capacity = λ i. ground (arith, valid.capacity i);
      within = λ i. ground (arith, valid.within i);
    }

    abbrev here : Shard Obj V
    here = shard_of rich_compare c key

    insert_here :
        (value : V) (now : ℕ)
        → Map.get rich_compare here.map key ≡ absent
        → (s' : Shard Obj V) × (insert_new rich_compare here key value now ≡ some s')
          × Inserted lawful here key value now s'
    insert_here value now new =
        insert_new-Inserted lawful here key value now (valid.shards _)
          (omega (arith, valid.positive, valid.capacity (shard_index rich_compare c key))) new

    -- The cache after a value was stored under the key at the time `now`.
    pub record Stores (value : V) (now : ℕ) (c' : Cached Obj V) : Type 0 where
      pub valid' : IsCached rich_compare cap c'
      pub stored :
          Map.get rich_compare (shard_of rich_compare c' key).map key ≡ found (fresh value now)
      pub ttl : c'.ttl ≡ c.ttl
      pub active : c'.active ≡ c.active

    update_here :
        (s : Shard Obj V) → shard_of rich_compare (with_shard rich_compare c key s) key ≡ s
    unfolding shard_index
    update_here s = rw (==_refl (shard_index rich_compare c key))

    pub Inserted-Stores :
        (s : Shard Obj V) (value : V) (now : ℕ) (s' : Shard Obj V)
        → s.capacity ≡ here.capacity
        → Inserted lawful s key value now s'
        → Stores value now (with_shard rich_compare c key s')
    Inserted-Stores s value now s' same ins = record {
      valid' =
          with_shard-IsCached s' ins.valid
            (ins.capacity ∙ same ∙ valid.capacity (shard_index rich_compare c key))
            (omega (
              arith,
              ins.within,
              ins.capacity,
              same,
              valid.capacity (shard_index rich_compare c key),
            ));
      stored = rw (update_here s') ins.stored;
      ttl = refl;
      active = refl;
    }

    set_found :
        (value : V) (now : ℕ) {e : SieveEntry V}
        → c.active ≡ false
        → Map.get rich_compare here.map key ≡ found e
        → set rich_compare c key value now
          ≡ some (
            with_shard rich_compare c key
                (record here { map = Map.insert rich_compare here.map key (fresh value now) }),
            false,
          )
    unfolding set
    set_found value now idle f = ground arith

    set_absent :
        (value : V) (now : ℕ) {s' : Shard Obj V}
        → c.active ≡ false
        → Map.get rich_compare here.map key ≡ absent
        → insert_new rich_compare here key value now ≡ some s'
        → set rich_compare c key value now ≡ some (with_shard rich_compare c key s', false)
    unfolding set
    set_absent value now idle f ended = ground arith

    replaced-Stores :
        (value : V) (now : ℕ) {e : SieveEntry V}
        → Map.get rich_compare here.map key ≡ found e
        → Stores value now (
            with_shard rich_compare c key
              (record here { map = Map.insert rich_compare here.map key (fresh value now) }))
    replaced-Stores value now f =
        let same : Map.insert rich_compare here.map key (fresh value now)
            ≡ Map.modify rich_compare (λ _. fresh value now) here.map key =
          unfold Map.insert in rw (Map.insert, f) in
        let s' : Shard Obj V = record here {
          map = Map.modify rich_compare (λ _. fresh value now) here.map key;
        } in
        rw same (record {
          valid' =
              with_shard-IsCached s'
                (modify-IsShard (λ _. fresh value now) here key (valid.shards _))
                (valid.capacity (shard_index rich_compare c key))
                (rw (length-modify lawful (λ _. fresh value now) here.map key) (valid.within _));
          stored = rw (update_here s') (
              ground (
                arith,
                get-modify lawful key key (λ _. fresh value now) here.map,
                key_eq_self lawful key,
                f,
              ));
          ttl = refl;
          active = refl;
        })

    -- On a well-formed cache that is not in use, `set` ends, leaves no exception pending and a
    -- well-formed cache in which the key holds the new value, stamped with the time of the call.
    pub set-Stores :
        (value : V) (now : ℕ)
        → c.active ≡ false
        → (c' : Cached Obj V) × (set rich_compare c key value now ≡ some (c', false))
          × Stores value now c'
    set-Stores value now idle = go (Map.get rich_compare here.map key) refl
      where
        go :
            (r : Probe (SieveEntry V))
            → Map.get rich_compare here.map key ≡ r
            → (c' : Cached Obj V) × (set rich_compare c key value now ≡ some (c', false))
              × Stores value now c'
        go (found e) p = (_, set_found value now idle p, replaced-Stores value now p)
        go absent p =
            let (s', ended, ins) = insert_here value now p in
            (_, set_absent value now idle p ended, Inserted-Stores here value now s' refl ins)
        go failed p = absurd (get_quiet lawful here.map key p)

module _ {Obj V : Type 0} {rich_compare : Obj → Obj → Compare} (lawful : IsEquality rich_compare)
    {cap : ℕ} {c : Cached Obj V} (valid : IsCached rich_compare cap c) (key : Key Obj) where
  -- A stored value that has not expired is a hit.
  pub read-Stores :
      {value : V} {now : ℕ} {c' : Cached Obj V} (later : ℕ)
      → Stores lawful valid key value now c'
      → c.active ≡ false
      → expired c.ttl now later ≡ false
      → (read rich_compare c' key later).1 ≡ hit value
  unfolding read
  read-Stores {value} {now} {c'} later st idle alive =
      let idle' : c'.active ≡ false = st.active ∙ idle in
      let alive' : expired c'.ttl now later ≡ false = rw (st.ttl) alive in
      rw (read, idle', st.stored, alive')

  -- On a well-formed cache that is not in use, `set` ends with a well-formed cache, and the next
  -- call, a read of the key, is a hit with the stored value until its lifetime has passed.
  pub read-set :
      (value : V) (now later : ℕ)
      → c.active ≡ false
      → expired c.ttl now later ≡ false
      → (c' : Cached Obj V) × (set rich_compare c key value now ≡ some (c', false))
        × IsCached rich_compare cap c'
        × ((read rich_compare c' key later).1 ≡ hit value)
  read-set value now later idle alive =
      let (c', ended, st) = set-Stores lawful valid key value now idle in
      (c', ended, st.valid', read-Stores later st idle alive)
