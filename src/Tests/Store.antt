-- ===== src/Tests/Store.antt =====
-- A shard with one visited entry, and its eviction.
use warp_cache.Base.{ℕ, ◌≡◌, refl, arith, true, some, [], ◌∷◌, ◌==◌, if◌then◌else◌}
use warp_cache.Store.Map
use warp_cache.Store.Map.{
  Compare, equal, differs, raised, Key, SieveEntry, found, absent, key_eq, IsEquality,
}
use warp_cache.Store.Shard.{Shard, evict_one}
use warp_cache.Store.Invariant.{Queued, IsShard, Evicts}
use warp_cache.Store.Evict.{evict_one-Evicts}

-- Python's `==` on integers
abbrev pub compare_ints : ℕ → ℕ → Compare
compare_ints a b = if a == b then equal else differs

pub compare-IsEquality : IsEquality compare_ints
compare-IsEquality = record {
  reflexive = λ a. ground arith;
  symmetric = λ a b. ground arith;
  transitive = λ a b c h k. ground arith;
  quiet = λ a b. ground arith;
}

abbrev pub key_a : Key ℕ
key_a = record { hash = 5; key_obj = 1 }

abbrev pub key_b : Key ℕ
key_b = record { hash = 5; key_obj = 2 }

abbrev full_shard : Shard ℕ ℕ
full_shard = record {
  map = (key_a, record { value = 10; created_at = 0; visited = true }) ∷ [];
  order = key_a ∷ [];
  hand = 0;
  capacity = 1;
}

full-covered :
    (k : Key ℕ) (e : SieveEntry ℕ)
    → Map.get compare_ints full_shard.map k ≡ found e
    → Queued compare_ints full_shard.order k
unfolding Map.get key_eq
full-covered k e h = record { place = 0; name = key_a; there = refl; same = ground arith }

full-IsShard : IsShard compare_ints full_shard
unfolding Map.get
full-IsShard = record { covered = full-covered; distinct = (refl, tt) }

evict_one-Evicts_example :
    (s' : Shard ℕ ℕ) × (evict_one compare_ints full_shard ≡ some s')
    × Evicts compare_ints full_shard s'
evict_one-Evicts_example = evict_one-Evicts compare-IsEquality full_shard full-IsShard (omega arith)
