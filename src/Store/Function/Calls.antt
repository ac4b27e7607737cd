-- ===== src/Store/Function/Calls.antt =====
-- `__call__`: hits, misses, and the invariant across a wrapped function that may call back.
use warp_cache.Base.{ℕ, ◌≡◌, refl, arith, true, false, Bool-cases, inl, inr, some}
use warp_cache.Store.Map
use warp_cache.Store.Map.{
  Compare, Key, SieveEntry, Map, Probe, found, absent, failed, IsEquality, get_quiet, length-modify,
  length-remove,
}
use warp_cache.Store.Map.Laws.{get-remove_self}
use warp_cache.Store.Shard.{Shard, set_visited, insert_new}
use warp_cache.Store.Room.{Inserted, insert_new-Inserted}
use warp_cache.Store.Function.{
  Cached, expired, Lookup, Done, returned, shard_index, shard_of, with_shard, mark, count_hit,
  count_miss, store_result, call_finish, read,
}
use warp_cache.Store.Function.Laws.{
  IsCached, modify-IsShard, remove-IsShard, with_shard-IsCached, Stores, Inserted-Stores,
  read-Stores,
}

module _ {Obj V : Type 0} {rich_compare : Obj → Obj → Compare} (lawful : IsEquality rich_compare)
    {cap : ℕ} {c : Cached Obj V} (valid : IsCached rich_compare cap c) (key : Key Obj) where
  pub count_miss-IsCached : IsCached rich_compare cap (count_miss rich_compare c)
  count_miss-IsCached = record {
    shards = valid.shards;
    positive = valid.positive;
    capacity = valid.capacity;
    within = valid.within;
  }

  pub mark-IsCached : IsCached rich_compare cap (count_hit rich_compare (mark rich_compare c key))
  mark-IsCached =
      let s = shard_of rich_compare c key in
      let marked =
        with_shard-IsCached lawful valid key
          (record s { map = Map.modify rich_compare (set_visited true) s.map key })
          (modify-IsShard lawful (set_visited true) s key (valid.shards _))
          (valid.capacity (shard_index rich_compare c key))
          (rw (length-modify lawful (set_visited true) s.map key) (valid.within _)) in
      record {
        shards = marked.shards;
        positive = marked.positive;
        capacity = marked.capacity;
        within = marked.within;
      }

  abbrev swept : Shard Obj V
  swept = record (shard_of rich_compare c key) {
    map = Map.remove rich_compare (shard_of rich_compare c key).map key;
  }

  swept_insert :
      (result : V) (now : ℕ)
      → (s' : Shard Obj V) × (insert_new rich_compare swept key result now ≡ some s')
        × Inserted lawful swept key result now s'
  swept_insert result now =
      let s = shard_of rich_compare c key in
      insert_new-Inserted lawful swept key result now (remove-IsShard lawful s key (valid.shards _))
        (omega (arith, valid.positive, valid.capacity (shard_index rich_compare c key)))
        (get-remove_self lawful s.map key (valid.shards (shard_index rich_compare c key)).distinct)

  -- no entry under the key, or one that has expired
  abbrev pub Missing : ℕ → Probe (SieveEntry V) → Type 0
  Missing now (found e) = expired c.ttl e.created_at now ≡ true
  Missing now absent = Unit
  Missing now failed = ⊥

  pub store-Missing :
      (result : V) (now : ℕ) (r : Probe (SieveEntry V)) {s' : Shard Obj V}
      → Map.get rich_compare (shard_of rich_compare c key).map key ≡ r
      → Missing now r
      → insert_new rich_compare swept key result now ≡ some s'
      → store_result rich_compare c key result now
        ≡ some (count_miss rich_compare (with_shard rich_compare c key s'), returned result)
  unfolding store_result
  store-Missing result now (found e) p m h = ground arith
  store-Missing result now absent p m h = ground arith
  store-Missing result now failed p m h = absurd m

  store_present :
      (result : V) (now : ℕ) {e : SieveEntry V}
      → Map.get rich_compare (shard_of rich_compare c key).map key ≡ found e
      → expired c.ttl e.created_at now ≡ false
      → store_result rich_compare c key result now
        ≡ some (count_miss rich_compare c, returned result)
  unfolding store_result
  store_present result now p alive = ground arith

  -- On a well-formed cache that is not in use and where the key is missing or expired, the slow
  -- path returns the result and keeps the cache well-formed, and the next read is a hit with that
  -- result until its lifetime has passed.
  pub store_result-read :
      (result : V) (now later : ℕ)
      → c.active ≡ false
      → Missing now (Map.get rich_compare (shard_of rich_compare c key).map key)
      → expired c.ttl now later ≡ false
      → (c' : Cached Obj V) × (call_finish rich_compare c key true result now
          ≡ some (c', returned result))
        × IsCached rich_compare cap c'
        × ((read rich_compare c' key later).1 ≡ Lookup.hit result)
  unfolding call_finish
  store_result-read result now later idle missing alive =
      let (s', ended, ins) = swept_insert result now in
      let st = Inserted-Stores lawful valid key swept result now s' refl ins in
      let counted : Stores lawful valid key result now
          (count_miss rich_compare (with_shard rich_compare c key s')) =
        record {
          valid' = record {
            shards = st.valid'.shards;
            positive = st.valid'.positive;
            capacity = st.valid'.capacity;
            within = st.valid'.within;
          };
          stored = unfold shard_index in st.stored;
          ttl = st.ttl;
          active = st.active;
        } in
      let run = store-Missing result now _ refl missing ended in
      (
        count_miss rich_compare (with_shard rich_compare c key s'),
        ground arith,
        counted.valid',
        read-Stores lawful valid key later counted idle alive,
      )

  pub store_result-IsCached :
      (result : V) (now : ℕ)
      → (c' : Cached Obj V) × (d : Done V) × (store_result rich_compare c key result now
          ≡ some (c', d))
        × IsCached rich_compare cap c'
  store_result-IsCached result now =
      go (Map.get rich_compare (shard_of rich_compare c key).map key) refl
    where
      inserting :
          (r : Probe (SieveEntry V))
          → Map.get rich_compare (shard_of rich_compare c key).map key ≡ r
          → Missing now r
          → (c' : Cached Obj V) × (d : Done V) × (store_result rich_compare c key result now
              ≡ some (c', d))
            × IsCached rich_compare cap c'
      inserting r p m =
          let (s', ended, ins) = swept_insert result now in
          let st = Inserted-Stores lawful valid key swept result now s' refl ins in
          (
            _,
            _,
            store-Missing result now r p m ended,
            record {
              shards = st.valid'.shards;
              positive = st.valid'.positive;
              capacity = st.valid'.capacity;
              within = st.valid'.within;
            },
          )

      go :
          (r : Probe (SieveEntry V))
          → Map.get rich_compare (shard_of rich_compare c key).map key ≡ r
          → (c' : Cached Obj V) × (d : Done V) × (store_result rich_compare c key result now
              ≡ some (c', d))
            × IsCached rich_compare cap c'
      go absent p = inserting absent p tt
      go failed p = absurd (get_quiet lawful _ key p)
      go (found e) p = elim (Bool-cases (expired c.ttl e.created_at now)) [
        | inl old ↦ inserting (found e) p old
        | inr alive ↦ (_, _, store_present result now p alive, count_miss-IsCached)
      ]
