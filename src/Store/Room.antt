-- ===== src/Store/Room.antt =====
-- Making room and inserting: the shard stays well-formed and within its capacity.
use warp_cache.Base.{
  ℕ, zero, suc, ◌+◌, ◌≤◌, ◌<◌, ◌≡◌, ◌≢◌, refl, ap, ◌∙◌, arith, true, false, Bool-cases, inl, inr,
  leb, if◌then◌else◌, some, List, [], ◌∷◌, ◌++◌, length, length-append,
}
use warp_cache.Store.Seq.{get_elem?, get_elem?-append, get_elem?-append_last}
use warp_cache.Store.Map
use warp_cache.Store.Map.{
  Compare, equal, differs, raised, Key, SieveEntry, Map, found, absent, failed, key_eq, IsEquality,
  key_eq_self, key_eq_sym, key_eq_quiet, get_quiet, get_congr,
}
use warp_cache.Store.Map.Laws.{value_at, get-append, append-Distinct}
use warp_cache.Store.Shard.{Shard, is_empty, evict_one, make_room, insert_new, fresh}
use warp_cache.Store.Invariant.{Queued, IsShard, Evicts}
use warp_cache.Store.Evict.{evict_one-Evicts}

module _ {Obj : Type 0} {rich_compare : Obj → Obj → Compare} where
  queue_append :
      (order : List (Key Obj)) (key k : Key Obj)
      → Queued rich_compare order k
      → Queued rich_compare (order ++ key ∷ []) k
  queue_append order key k q = record {
    place = q.place;
    name = q.name;
    there = get_elem?-append order key q.place q.there;
    same = q.same;
  }

module _ {Obj V : Type 0} {rich_compare : Obj → Obj → Compare}
    (lawful : IsEquality rich_compare) where
  empty_queue :
      (s : Shard Obj V) → IsShard rich_compare s → is_empty s.order ≡ true → length s.map ≡ 0
  empty_queue s valid h = go s.map refl
    where
      none_there :
          {x : Key Obj} (xs : List (Key Obj)) (p : ℕ) → is_empty xs ≡ true → get_elem? xs p ≢ some x
      none_there [] p e = λ q. cc
      none_there (x ∷ xs) p e = λ q. absurd (ground arith)

      go : (m : Map Obj V) → s.map ≡ m → length s.map ≡ 0
      go [] e = ap (λ (x : Map Obj V). length x) e
      go ((j, e') ∷ m) e =
          let head : Map.get rich_compare s.map j ≡ found e' =
            rw e (unfold Map.get in ground (arith, key_eq_self lawful j)) in
          let q = valid.covered j e' head in absurd (none_there s.order q.place h q.there)

  absent_Evicts :
      (s s' : Shard Obj V) (k : Key Obj)
      → Evicts rich_compare s s'
      → Map.get rich_compare s.map k ≡ absent
      → Map.get rich_compare s'.map k ≡ absent
  unfolding value_at
  absent_Evicts s s' k ev h = ground (
    arith,
    ev.spared k,
    ev.gone,
    key_eq_quiet lawful k ev.victim,
    get_congr lawful s'.map k ev.victim,
    get_quiet lawful s'.map k,
  )

  record Roomy (s s' : Shard Obj V) : Type 0 where
    pub valid : IsShard rich_compare s'
    pub below : length s'.map < s'.capacity
    pub capacity : s'.capacity ≡ s.capacity
    pub absent_kept :
        (k : Key Obj)
        → Map.get rich_compare s.map k ≡ absent
        → Map.get rich_compare s'.map k ≡ absent

  room_enough :
      (fuel : ℕ) (s : Shard Obj V)
      → length s.map < s.capacity
      → make_room rich_compare (suc fuel) s ≡ some s
  unfolding make_room
  room_enough fuel s h =
      let test : leb s.capacity (length s.map) ≡ false = ground arith in rw (make_room, test)

  room_turn :
      (fuel : ℕ) (s s' : Shard Obj V)
      → s.capacity ≤ length s.map
      → evict_one rich_compare s ≡ some s'
      → make_room rich_compare (suc fuel) s
        ≡ (if is_empty s'.order then some s' else make_room rich_compare fuel s')
  unfolding make_room
  room_turn fuel s s' h run =
      let test : leb s.capacity (length s.map) ≡ true = ground arith in rw (make_room, test, run)

  make_room-Roomy :
      (fuel : ℕ) (s : Shard Obj V)
      → IsShard rich_compare s
      → 1 ≤ s.capacity
      → length s.order < fuel
      → (s' : Shard Obj V) × (make_room rich_compare fuel s ≡ some s') × Roomy s s'
  make_room-Roomy zero s valid one h = absurd (omega arith)
  make_room-Roomy (suc fuel) s valid one h = elim (Bool-cases (leb s.capacity (length s.map))) [
    | inr free ↦ (
      s,
      room_enough fuel s (ground arith),
      record { valid = valid; below = ground arith; capacity = refl; absent_kept = λ k a. a },
    )
    | inl full ↦
        let (s', run, ev) = evict_one-Evicts lawful s valid (ground arith) in
        let turn = room_turn fuel s s' (ground arith) run in
        elim (Bool-cases (is_empty s'.order)) [
          | inl e ↦ (
            s',
            turn ∙ rw e,
            record {
              valid = ev.valid;
              below = omega (arith, empty_queue s' ev.valid e, ev.capacity);
              capacity = ev.capacity;
              absent_kept = λ k a. absent_Evicts s s' k ev a;
            },
          )
          | inr e ↦
              let (s₂, run₂, r) =
                make_room-Roomy fuel s' ev.valid (omega (arith, ev.capacity))
                  (omega (arith, ev.shorter)) in
              (
                s₂,
                turn ∙ rw e run₂,
                record {
                  valid = r.valid;
                  below = r.below;
                  capacity = r.capacity ∙ ev.capacity;
                  absent_kept = λ k a. r.absent_kept k (absent_Evicts s s' k ev a);
                },
              )
        ]
  ]

  -- A well-formed shard after an insertion.
  pub record Inserted (s : Shard Obj V) (key : Key Obj) (value : V) (now : ℕ) (s' : Shard Obj V)
      : Type 0 where
    pub valid : IsShard rich_compare s'
    pub within : length s'.map ≤ s'.capacity
    pub capacity : s'.capacity ≡ s.capacity
    pub stored : Map.get rich_compare s'.map key ≡ found (fresh value now)

  insert_absent :
      (m : Map Obj V) (key : Key Obj) (e : SieveEntry V)
      → Map.get rich_compare m key ≡ absent
      → Map.insert rich_compare m key e ≡ m ++ (key, e) ∷ []
  unfolding Map.insert
  insert_absent m key e h = rw (Map.insert, h)

  append-IsShard :
      (s : Shard Obj V) (key : Key Obj) (e : SieveEntry V)
      → IsShard rich_compare s
      → Map.get rich_compare s.map key ≡ absent
      → IsShard rich_compare
          (record s { map = s.map ++ (key, e) ∷ []; order = s.order ++ key ∷ [] })
  append-IsShard s key e valid new = record {
    covered = λ k e' f. go k e' (Map.get rich_compare s.map k) refl f;
    distinct = append-Distinct lawful s.map key e valid.distinct new;
  }
    where
      go :
          (k : Key Obj) (e' : SieveEntry V) (r : Map.Probe (SieveEntry V))
          → Map.get rich_compare s.map k ≡ r
          → Map.get rich_compare (s.map ++ (key, e) ∷ []) k ≡ found e'
          → Queued rich_compare (s.order ++ key ∷ []) k
      go k e' (found old) p f = queue_append s.order key k (valid.covered k old p)
      go k e' absent p f = record {
        place = length s.order;
        name = key;
        there = get_elem?-append_last s.order key;
        same = ground (
          arith,
          get-append lawful s.map key k e,
          key_eq_sym lawful k key,
          key_eq_quiet lawful k key,
        );
      }
      go k e' failed p f = absurd (get_quiet lawful s.map k p)

  -- Inserting a new key into a well-formed shard of capacity at least 1 ends; the new shard is
  -- well-formed, holds at most its capacity, and reads the value back under the key.
  pub insert_new-Inserted :
      (s : Shard Obj V) (key : Key Obj) (value : V) (now : ℕ)
      → IsShard rich_compare s
      → 1 ≤ s.capacity
      → Map.get rich_compare s.map key ≡ absent
      → (s' : Shard Obj V) × (insert_new rich_compare s key value now ≡ some s')
        × Inserted s key value now s'
  unfolding insert_new
  insert_new-Inserted s key value now valid one new =
      let (r, run, roomy) = make_room-Roomy (length s.order + 1) s valid one (omega arith) in
      let new_r = roomy.absent_kept key new in
      let e = fresh value now in
      (
        record r { map = r.map ++ (key, e) ∷ []; order = r.order ++ key ∷ [] },
        rw (insert_new, run, insert_absent r.map key e new_r),
        record {
          valid = append-IsShard r key e roomy.valid new_r;
          within = omega (arith, length-append r.map ((key, e) ∷ []), roomy.below);
          capacity = roomy.capacity;
          stored = ground (arith, get-append lawful r.map key key e, key_eq_self lawful key, new_r);
        },
      )
