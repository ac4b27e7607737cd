-- ===== src/Store/Raised.antt =====
-- `evict_one` and an insertion while a Python exception is pending, so that no comparison is true.
use warp_cache.Base.{
  ℕ, zero, suc, ◌+◌, ◌*◌, ◌≤◌, ◌<◌, ◌≡◌, ◌⊎◌, inl, inr, refl, ap, ◌∙◌, arith, none, some, List, [],
  ◌∷◌, ◌++◌, length,
}
use warp_cache.Store.Seq.{length-remove_index, get_elem?-lt}
use warp_cache.Store.Map
use warp_cache.Store.Map.{Compare, pending_compare, Key, SieveEntry, Map, Probe, absent}
use warp_cache.Store.Shard.{
  Shard, fresh, drop_hand, wrap_hand, status, evict_loop, evict_one, make_room, insert_new,
}

List-cases {ℓ} : {A : Type ℓ} → (q : List A) → (q ≡ []) ⊎ ((k : A) × (ks : List A) × (q ≡ k ∷ ks))
List-cases [] = inl refl
List-cases (k ∷ ks) = inr (k, ks, refl)

module _ {Obj V : Type 0} where
  get_pending : (m : Map Obj V) (k : Key Obj) → Map.get pending_compare m k ≡ absent
  unfolding Map.get Map.key_eq
  get_pending [] k = refl
  get_pending ((j, e) ∷ m) k = ground (arith, get_pending m k)

  status_pending : (s : Shard Obj V) (k : Key Obj) → status pending_compare s k ≡ none
  unfolding status
  status_pending s k = ground (arith, get_pending s.map k)

  -- The queue is empty, and the rest but the hand is as before.
  record Drained (s s' : Shard Obj V) : Type 0 where
    order : s'.order ≡ []
    map : s'.map ≡ s.map
    capacity : s'.capacity ≡ s.capacity

  wrapped_lt :
      (s : Shard Obj V) (k : Key Obj) (ks : List (Key Obj))
      → s.order ≡ k ∷ ks
      → (wrap_hand s).hand < length s.order
  unfolding wrap_hand
  wrapped_lt s k ks e = ground arith

  drop_turn :
      (fuel n : ℕ) (s : Shard Obj V) (k : Key Obj) (ks : List (Key Obj))
      → s.order ≡ k ∷ ks
      → evict_loop pending_compare (suc fuel) n s 0
        ≡ evict_loop pending_compare fuel n (drop_hand (wrap_hand s)) 0
  unfolding evict_loop wrap_hand
  drop_turn fuel n s k ks e =
      let w = wrap_hand s in
      let (key, at) = get_elem?-lt s.order w.hand (wrapped_lt s k ks e) in
      ground (arith, status_pending w key)

  dropped_facts :
      (s : Shard Obj V) (k : Key Obj) (ks : List (Key Obj))
      → s.order ≡ k ∷ ks
      → let s' = drop_hand (wrap_hand s) in
        (suc (length s'.order) ≡ length s.order) × (s'.map ≡ s.map) × (s'.capacity ≡ s.capacity)
  unfolding drop_hand wrap_hand
  dropped_facts s k ks e =
      (length-remove_index s.order (wrap_hand s).hand (wrapped_lt s k ks e), refl, refl)

  drain :
      (fuel n : ℕ) (s : Shard Obj V)
      → length s.order < fuel
      → (s' : Shard Obj V) × (evict_loop pending_compare fuel n s 0 ≡ some s') × Drained s s'
  unfolding evict_loop
  drain zero n s h = absurd (omega arith)
  drain (suc fuel) n s h = elim (List-cases s.order) [
    | inl e ↦ (s, ground arith, record { order = e; map = refl; capacity = refl })
    | inr (k, ks, e) ↦
        let d = dropped_facts s k ks e in
        let (s', ended, rest) = drain fuel n (drop_hand (wrap_hand s)) (omega (arith, d.0)) in
        (
          s',
          drop_turn fuel n s k ks e ∙ ended,
          record { order = rest.order; map = rest.map ∙ d.1; capacity = rest.capacity ∙ d.2 },
        )
  ]

  evict_one-Drained :
      (s : Shard Obj V)
      → (s' : Shard Obj V) × (evict_one pending_compare s ≡ some s') × Drained s s'
  unfolding evict_one
  evict_one-Drained s = drain (2 * length s.order + 2) (length s.order) s (omega arith)

  room_drained :
      (fuel : ℕ) (s s' : Shard Obj V)
      → s.capacity ≤ length s.map
      → evict_one pending_compare s ≡ some s'
      → s'.order ≡ []
      → make_room pending_compare (suc fuel) s ≡ some s'
  unfolding make_room
  room_drained fuel s s' full ended empty = ground arith

  -- what an insertion into a full shard leaves
  pub record Overflowed (s : Shard Obj V) (key : Key Obj) (value : V) (now : ℕ) (s' : Shard Obj V)
      : Type 0 where
    pub order : s'.order ≡ key ∷ []
    pub map : s'.map ≡ s.map ++ (key, fresh value now) ∷ []
    pub capacity : s'.capacity ≡ s.capacity

  pub insert_new-Overflowed :
      (s : Shard Obj V) (key : Key Obj) (value : V) (now : ℕ)
      → s.capacity ≤ length s.map
      → (s' : Shard Obj V) × (insert_new pending_compare s key value now ≡ some s')
        × Overflowed s key value now s'
  unfolding insert_new make_room Map.insert
  insert_new-Overflowed s key value now full =
      let (s', ended, d) = evict_one-Drained s in
      (
        record s' { map = s'.map ++ (key, fresh value now) ∷ []; order = s'.order ++ key ∷ [] },
        (let one : length s.order + 1 ≡ suc (length s.order) = omega arith in
            let r =
              ap (λ f. make_room pending_compare f s) one
              ∙ room_drained (length s.order) s s' full ended d.order in
            ground (arith, get_pending s'.map key)),
        record {
          order = ap (λ o. o ++ key ∷ []) d.order;
          map = ap (λ m. m ++ (key, fresh value now) ∷ []) d.map;
          capacity = d.capacity;
        },
      )
