-- ===== src/Store/Order.antt =====
-- How the queue of a shard grows, and how `set` meets a comparison that raises.
use warp_cache.Base.{ℕ, suc, ◌<◌, ◌≡◌, arith, true, some, [], ◌∷◌, ◌++◌, length, length-append}
use warp_cache.Store.Map
use warp_cache.Store.Map.{
  Compare, Key, SieveEntry, Map, Probe, found, absent, failed, IsEquality, length-remove,
}
use warp_cache.Store.Map.Laws.{get-remove_self, Distinct}
use warp_cache.Store.Function.Laws.{IsCached}
use warp_cache.Store.Function.Calls.{store-Missing}
use warp_cache.Store.Shard.{Shard, make_room, insert_new, fresh}
use warp_cache.Store.Function.{
  Cached, expired, returned, shard_index, shard_of, with_shard, count_miss, store_result,
}

-- storing a result over an expired entry, in a shard with room
module _ {Obj V : Type 0} {rich_compare : Obj → Obj → Compare}
    (lawful : IsEquality rich_compare) where
  roomy_insert :
      (s : Shard Obj V) (key : Key Obj) (value : V) (now : ℕ)
      → length s.map < s.capacity
      → insert_new rich_compare s key value now
        ≡ some (record s {
          map = Map.insert rich_compare s.map key (fresh value now);
          order = s.order ++ key ∷ [];
        })
  unfolding insert_new make_room
  roomy_insert s key value now room = ground arith

  replaced_length :
      (s : Shard Obj V) (key : Key Obj) (value : V) (now : ℕ) {e : SieveEntry V}
      → Map.get rich_compare s.map key ≡ found e
      → Distinct rich_compare s.map
      → length (Map.insert rich_compare (Map.remove rich_compare s.map key) key (fresh value now))
        ≡ length s.map
  unfolding Map.insert
  replaced_length s key value now {e} p distinct =
      let gone = Map.remove rich_compare s.map key in
      rw (length, Map.insert, get-remove_self lawful s.map key distinct)
        (omega (
          arith,
          length-append gone ((key, fresh value now) ∷ []),
          length-remove lawful s.map key {e = e} p,
        ))

  -- If Python's == is an equivalence on all objects that never raises:
  -- when a call stores its result over an expired entry of a well-formed cache, the shard holds as
  -- many entries as before, while its queue is one element longer: the old element is not taken out.
  pub store_result-queue :
      {cap : ℕ} (c : Cached Obj V) (key : Key Obj) (result : V) (now : ℕ) {e : SieveEntry V}
      → IsCached rich_compare cap c
      → Map.get rich_compare (shard_of rich_compare c key).map key ≡ found e
      → expired c.ttl e.created_at now ≡ true
      → (s' : Shard Obj V) × (store_result rich_compare c key result now
          ≡ some (count_miss rich_compare (with_shard rich_compare c key s'), returned result))
        × (length s'.map ≡ length (shard_of rich_compare c key).map)
        × (length s'.order ≡ suc (length (shard_of rich_compare c key).order))
  store_result-queue c key result now {e} valid p old =
      let s = shard_of rich_compare c key in
      let swept : Shard Obj V = record s { map = Map.remove rich_compare s.map key } in
      let ended = roomy_insert swept key result now (
        omega (
          arith,
          length-remove lawful s.map key {e = e} p,
          valid.within (shard_index rich_compare c key),
          valid.capacity (shard_index rich_compare c key),
        )) in
      (
        _,
        store-Missing lawful valid key result now (found e) p old ended,
        replaced_length s key result now {e = e} p
            (valid.shards (shard_index rich_compare c key)).distinct,
        omega (arith, length-append s.order (key ∷ [])),
      )
