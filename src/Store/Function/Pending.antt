-- ===== src/Store/Function/Pending.antt =====
-- `set` when the comparison with a key of the map raises: the exception stays pending during the insertion.
use warp_cache.Base.{ℕ, ◌≤◌, ◌≡◌, sym, subst, arith, true, false, some, length}
use warp_cache.Store.Map
use warp_cache.Store.Map.{Compare, pending_compare, Key, Probe, failed}
use warp_cache.Store.Raised.{Overflowed, insert_new-Overflowed}
use warp_cache.Store.Function.{Cached, shard_index, shard_of, with_shard, set}

module _ {Obj V : Type 0} (rich_compare : Obj → Obj → Compare) (c : Cached Obj V)
    (key : Key Obj) where
  -- On a cache that is not in use, if the comparison with a key of a shard at its capacity raises: set inserts
  -- the key and leaves the exception pending; no entry of the shard is evicted, so it holds one more than before, and
  -- its queue is the new key alone.
  pub set-Overflowed :
      (value : V) (now : ℕ)
      → c.active ≡ false
      → Map.get rich_compare (shard_of rich_compare c key).map key ≡ failed
      → (shard_of rich_compare c key).capacity ≤ length (shard_of rich_compare c key).map
      → (c' : Cached Obj V) × (set rich_compare c key value now ≡ some (c', true))
        × Overflowed (shard_of rich_compare c key) key value now (shard_of rich_compare c' key)
  unfolding set shard_index
  set-Overflowed value now idle raised full =
      let s = shard_of rich_compare c key in
      let (s', ended, o) = insert_new-Overflowed s key value now full in
      let same : shard_of rich_compare (with_shard rich_compare c key s') key ≡ s' = ground arith in
      (
        with_shard rich_compare c key s',
        ground arith,
        subst (λ t. Overflowed s key value now t) (sym same) o,
      )
