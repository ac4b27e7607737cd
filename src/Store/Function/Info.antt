-- ===== src/Store/Function/Info.antt =====
-- The size that `cache_info` of src/store.rs reports.
use warp_cache.Base.{ℕ, zero, suc, ◌*◌, ◌≤◌, arith, length}
use warp_cache.Store.Map.{Compare}
use warp_cache.Store.Shard.{Shard}
use warp_cache.Store.Function.{Cached, cache_info, total_size}
use warp_cache.Store.Function.Laws.{IsCached}

total_size-le :
    {Obj V : Type 0} (cap : ℕ) (shards : ℕ → Shard Obj V) (n : ℕ)
    → ((i : ℕ) → length (shards i).map ≤ cap)
    → total_size shards n ≤ n * cap
unfolding total_size
total_size-le cap shards zero h = omega arith
total_size-le cap shards (suc n) h = omega (arith, total_size-le cap shards n h, h n)

-- The size that `cache_info` reports for a well-formed cache is at most the number of shards times
-- the capacity of a shard.
pub current_size-le :
    {Obj V : Type 0} {rich_compare : Obj → Obj → Compare} {cap : ℕ} (c : Cached Obj V)
    → IsCached rich_compare cap c
    → (cache_info c).current_size ≤ c.n_shards * cap
unfolding cache_info
current_size-le {cap} c valid = ground (arith, total_size-le cap c.shards c.n_shards valid.within)
