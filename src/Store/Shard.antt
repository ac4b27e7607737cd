-- ===== src/Store/Shard.antt =====
-- One shard: `evict_one` and the insertion that makes room first.
use warp_cache.Base.{
  ℕ, zero, suc, ◌+◌, ◌*◌, Bool, true, false, ltb, leb, if◌then◌else◌, Option, none, some, List, [],
  ◌∷◌, ◌++◌, length,
}
use warp_cache.Store.Seq.{get_elem?, remove_index}
use warp_cache.Store.Map
use warp_cache.Store.Map.{Compare, Key, SieveEntry, Map, Probe, found, absent, failed}

pub record Shard (Obj V : Type 0) : Type 0 where
  pub map : Map Obj V
  pub order : List (Key Obj)
  pub hand : ℕ
  pub capacity : ℕ

abbrev pub is_empty {ℓ} : {A : Type ℓ} → List A → Bool
is_empty [] = true
is_empty (x ∷ xs) = false

module _ {V : Type 0} where
  abbrev pub fresh : V → ℕ → SieveEntry V
  fresh value now = record { value = value; created_at = now; visited = false }

  abbrev pub set_visited : Bool → SieveEntry V → SieveEntry V
  set_visited b e = record e { visited = b }

module _ {Obj V : Type 0} where
  -- `order.remove(hand)`, and the hand goes back to 0 if it left a queue that is not empty
  unfoldable pub drop_hand : Shard Obj V → Shard Obj V
  drop_hand s =
      let order = remove_index s.order s.hand in
      let hand =
        if leb (length order) s.hand then (if is_empty order then s.hand else 0) else s.hand in
      record s { order = order; hand = hand }

  -- `if hand >= order.len() { hand = 0 }`
  unfoldable pub wrap_hand : Shard Obj V → Shard Obj V
  wrap_hand s = record s { hand = if leb (length s.order) s.hand then 0 else s.hand }

module _ {Obj V : Type 0} (rich_compare : Obj → Obj → Compare) where
  -- `map.get(&key).map(|e| e.visited.load())`; a probe that raised reads as a miss
  unfoldable pub status : Shard Obj V → Key Obj → Option Bool
  status s key = elim (Map.get rich_compare s.map key) [
    | found e ↦ some e.visited
    | absent ↦ none
    | failed ↦ none
  ]

  -- the second chance: the bit is cleared, and the hand moves on
  unfoldable pub pass_over : Shard Obj V → Key Obj → Shard Obj V
  pass_over s key = record s {
    map = Map.modify rich_compare (set_visited false) s.map key;
    hand = s.hand + 1;
  }

  unfoldable pub evict_at : Shard Obj V → Key Obj → Shard Obj V
  unfolding drop_hand
  evict_at s key = drop_hand (record s { map = Map.remove rich_compare s.map key })

  -- The `while` loop of `evict_one`, on fuel: `none` means that the fuel ran out.
  unfoldable pub evict_loop : ℕ → ℕ → Shard Obj V → ℕ → Option (Shard Obj V)
  unfolding status drop_hand wrap_hand pass_over evict_at
  evict_loop zero initial_len s scanned = none
  evict_loop (suc fuel) initial_len s scanned =
      let w = wrap_hand s in
      let turn : Option (Shard Obj V) = elim (get_elem? w.order w.hand) [
        | none ↦ some w
        | some key ↦ elim (status w key) [
          | none ↦ evict_loop fuel initial_len (drop_hand w) scanned
          | some true ↦ evict_loop fuel initial_len (pass_over w key) (scanned + 1)
          | some false ↦ some (evict_at w key)
        ]
      ] in
      if ltb initial_len scanned then some s else (if is_empty s.order then some s else turn)

  -- Each round lowers `initial_len + 1 - scanned` plus the length of the queue.
  unfoldable pub evict_one : Shard Obj V → Option (Shard Obj V)
  unfolding evict_loop
  evict_one s = evict_loop (2 * length s.order + 2) (length s.order) s 0

  -- `while map.len() >= capacity { evict_one; if order.is_empty() { break } }`, on fuel
  unfoldable pub make_room : ℕ → Shard Obj V → Option (Shard Obj V)
  unfolding evict_one
  make_room zero s = none
  make_room (suc fuel) s =
      let turn : Option (Shard Obj V) = elim (evict_one s) [
        | none ↦ none
        | some s' ↦ let more = make_room fuel s' in if is_empty s'.order then some s' else more
      ] in
      if leb s.capacity (length s.map) then turn else some s

  -- evict if at capacity, then insert and push the key
  unfoldable pub insert_new : Shard Obj V → Key Obj → V → ℕ → Option (Shard Obj V)
  unfolding make_room
  insert_new s key value now = elim (make_room (length s.order + 1) s) [
    | none ↦ none
    | some s' ↦ some (record s' {
      map = Map.insert rich_compare s'.map key (fresh value now);
      order = s'.order ++ key ∷ [];
    })
  ]
