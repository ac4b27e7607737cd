-- ===== src/Store/Invariant.antt =====
-- A well-formed shard, what an eviction does to it, and where the scan of `evict_one` stands.
use warp_cache.Base.{
  ℕ, suc, ◌+◌, ◌-◌, ◌≤◌, ◌<◌, ◌≡◌, ◌≢◌, true, ◌⊎◌, ltb, if◌then◌else◌, some, List, length,
}
use warp_cache.Store.Seq.{get_elem?}
use warp_cache.Store.Map
use warp_cache.Store.Map.{
  Compare, equal, differs, raised, Key, SieveEntry, Map, found, absent, failed, key_eq, IsEquality,
  key_eq_self, key_eq_sym, key_eq_trans, key_eq_quiet, get-modify, length-remove, length-modify,
  get_quiet, get_congr,
}
use warp_cache.Store.Map.Laws.{Distinct, value_at}
use warp_cache.Store.Shard.{Shard, status}

-- how far the hand is past position `p`, going round
abbrev pub back : ℕ → ℕ → ℕ → ℕ
back len hand p = if ltb p hand then hand - p else hand + len - p

module _ {Obj : Type 0} (rich_compare : Obj → Obj → Compare) where
  -- a place in the queue for the key
  pub record Queued (order : List (Key Obj)) (k : Key Obj) : Type 0 where
    pub place : ℕ
    pub name : Key Obj
    pub there : get_elem? order place ≡ some name
    pub same : key_eq rich_compare name k ≡ equal

module _ {Obj V : Type 0} (rich_compare : Obj → Obj → Compare) where
  -- Every entry has its key in the queue, and no key has two entries. The queue may hold keys that
  -- are gone from the map, and a key twice.
  pub record IsShard (s : Shard Obj V) : Type 0 where
    pub covered :
        (k : Key Obj) (e : SieveEntry V)
        → Map.get rich_compare s.map k ≡ found e
        → Queued rich_compare s.order k
    pub distinct : Distinct rich_compare s.map

  -- What an eviction does: one entry less, under the victim's key; every other key keeps its value;
  -- the queue gets shorter.
  pub record Evicts (s s' : Shard Obj V) : Type 0 where
    pub victim : Key Obj
    pub one_less : suc (length s'.map) ≡ length s.map
    pub spared :
        (q : Key Obj)
        → key_eq rich_compare q victim ≡ differs
        → value_at rich_compare s'.map q ≡ value_at rich_compare s.map q
    pub gone : Map.get rich_compare s'.map victim ≡ absent
    pub shorter : length s'.order < length s.order
    pub valid : IsShard s'
    pub capacity : s'.capacity ≡ s.capacity

  -- The state of the loop: the positions that the hand passed last, `scanned` of them, are unvisited.
  pub record Scan (n : ℕ) (s : Shard Obj V) (scanned : ℕ) : Type 0 where
    pub valid : IsShard s
    pub filled : 0 < length s.map
    pub bound : length s.order ≤ n
    pub budget : scanned ≤ n
    pub hand_ok : (s.hand ≤ length s.order) ⊎ (scanned ≡ 0)
    pub cleared :
        (p : ℕ) (k : Key Obj)
        → get_elem? s.order p ≡ some k
        → back (length s.order) s.hand p ≤ scanned
        → status rich_compare s k ≢ some true
