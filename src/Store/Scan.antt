-- ===== src/Store/Scan.antt =====
-- The rounds of the loop of `evict_one`, one for each state that a key of the queue may be in.
use warp_cache.Base.{
  ℕ, suc, ◌+◌, ◌-◌, ◌≤◌, ◌<◌, ◌≡◌, ◌≢◌, refl, sym, subst, ◌∙◌, arith, true, false, inl, none, some,
  [], ◌∷◌, length, ℕ_discrete, dec_lt,
}
use warp_cache.Store.Seq.{
  get_elem?, remove_index, length-remove_index, get_elem?-remove_index, lt_of_get_elem?,
}
use warp_cache.Store.Map
use warp_cache.Store.Map.{
  Compare, equal, differs, raised, Key, SieveEntry, Map, found, absent, failed, key_eq, IsEquality,
  key_eq_self, key_eq_sym, key_eq_trans, key_eq_quiet, get-modify, length-remove, length-modify,
  get_quiet, get_congr,
}
use warp_cache.Store.Map.Laws.{
  value_at, get-remove_ne, get-remove_self, found_of_remove, remove-Distinct, modify-Distinct,
}
use warp_cache.Store.Shard.{Shard, status, set_visited, drop_hand, wrap_hand, pass_over, evict_at}
use warp_cache.Store.Invariant.{back, Queued, Evicts, Scan}

module _ {Obj V : Type 0} {rich_compare : Obj → Obj → Compare}
    (lawful : IsEquality rich_compare) where
  head_found :
      (m : Map Obj V)
      → 0 < length m
      → (k : Key Obj) × (e : SieveEntry V) × (Map.get rich_compare m k ≡ found e)
  unfolding Map.get
  head_found [] h = absurd (omega arith)
  head_found ((j, e) ∷ m) h = (j, e, ground (arith, key_eq_self lawful j))

  module _ {n : ℕ} {s : Shard Obj V} {scanned : ℕ} (scan : Scan rich_compare n s scanned) where
    pub queue_filled : 0 < length s.order
    queue_filled =
        let (k, e, f) = head_found s.map scan.filled in
        let q = scan.valid.covered k e f in omega (arith, lt_of_get_elem? s.order q.place q.there)

    pub wrapped_lt : (wrap_hand s).hand < length s.order
    unfolding wrap_hand
    wrapped_lt = ground (arith, queue_filled)

    pub wrap-Scan : Scan rich_compare n (wrap_hand s) scanned
    unfolding wrap_hand status
    wrap-Scan = record {
      valid = record { covered = scan.valid.covered; distinct = scan.valid.distinct };
      filled = scan.filled;
      bound = scan.bound;
      budget = scan.budget;
      hand_ok = ground (arith, queue_filled);
      cleared = λ p k there near.
          let lt = lt_of_get_elem? s.order p there in
          scan.cleared p k there (ground (arith, scan.hand_ok));
    }

  module _ {n : ℕ} {s : Shard Obj V} {scanned : ℕ} (scan : Scan rich_compare n s scanned)
      (key : Key Obj) (hand_lt : s.hand < length s.order)
      (here : get_elem? s.order s.hand ≡ some key) where
    status_pass :
        (k : Key Obj)
        → status rich_compare (pass_over rich_compare s key) k ≡ some true
        → (status rich_compare s k ≡ some true) × (key_eq rich_compare k key ≢ equal)
    unfolding status pass_over
    status_pass k h = ground (arith, get-modify lawful key k (set_visited false) s.map)

    found_pass :
        (k : Key Obj) (e : SieveEntry V)
        → Map.get rich_compare (pass_over rich_compare s key).map k ≡ found e
        → (e' : SieveEntry V) × (Map.get rich_compare s.map k ≡ found e')
    unfolding pass_over
    found_pass k e h = go (Map.get rich_compare s.map k) refl
      where
        go :
            (r : Map.Probe (SieveEntry V))
            → Map.get rich_compare s.map k ≡ r
            → (e' : SieveEntry V) × (Map.get rich_compare s.map k ≡ found e')
        go (found e') p = (e', p)
        go absent p = absurd (ground (arith, get-modify lawful key k (set_visited false) s.map))
        go failed p = absurd (get_quiet lawful s.map k p)

    pass-cleared :
        status rich_compare s key ≡ some true
        → (p : ℕ) (k : Key Obj) → get_elem? s.order p ≡ some k
        → back (length s.order) (s.hand + 1) p ≤ scanned + 1
        → status rich_compare (pass_over rich_compare s key) k ≢ some true
    pass-cleared visited p k there near h =
        let (old, apart) = status_pass k h in
        let lt = lt_of_get_elem? s.order p there in
        elim (ℕ_discrete p s.hand) [
          | yes e ↦
              let same : key ≡ k =
                ground (arith, subst (λ x. get_elem? s.order x ≡ some k) e there) in
              apart (subst (λ x. key_eq rich_compare x key ≡ equal) same (key_eq_self lawful key))
          | no ne ↦ scan.cleared p k there (ground arith) old
        ]

    pub pass-Scan :
        status rich_compare s key ≡ some true
        → scanned < n
        → Scan rich_compare n (pass_over rich_compare s key) (scanned + 1)
    unfolding pass_over
    pass-Scan visited more = record {
      valid = record {
        covered = λ k e f. let (e', f') = found_pass k e f in scan.valid.covered k e' f';
        distinct = modify-Distinct lawful (set_visited false) s.map key scan.valid.distinct;
      };
      filled = omega (arith, length-modify lawful (set_visited false) s.map key, scan.filled);
      bound = scan.bound;
      budget = omega arith;
      hand_ok = inl (omega arith);
      cleared = pass-cleared visited;
    }

    -- A full round without an eviction has cleared the bit under the hand.
    pub pass_more : status rich_compare s key ≡ some true → scanned < n
    pass_more visited = elim (dec_lt scanned n) [
      | yes h ↦ h
      | no h ↦
          let bound = scan.bound in absurd (scan.cleared s.hand key here (ground arith) visited)
    ]

    drop_order : (drop_hand s).order ≡ remove_index s.order s.hand
    unfolding drop_hand
    drop_order = refl

    -- Dropping the key under the hand keeps the place of every other key.
    requeue :
        (k : Key Obj)
        → Queued rich_compare s.order k
        → key_eq rich_compare key k ≢ equal
        → Queued rich_compare (remove_index s.order s.hand) k
    requeue k q apart =
        let at = get_elem?-remove_index s.order s.hand in
        elim (dec_lt q.place s.hand) [
          | yes h ↦ record {
            place = q.place;
            name = q.name;
            there = ground (arith, at q.place, q.there);
            same = q.same;
          }
          | no h ↦
              let ne : q.place ≢ s.hand = λ e.
                let same : q.name ≡ key =
                  ground (arith, subst (λ x. get_elem? s.order x ≡ some q.name) e q.there) in
                apart (subst (λ x. key_eq rich_compare x k ≡ equal) same q.same) in
              let step : suc (q.place - 1) ≡ q.place = omega arith in
              record {
                place = q.place - 1;
                name = q.name;
                there =
                    at (q.place - 1)
                    ∙ ground
                        (arith, subst (λ x. get_elem? s.order x ≡ some q.name) (sym step) q.there);
                same = q.same;
              }
        ]

    pub drop_facts :
        (suc (length (drop_hand s).order) ≡ length s.order)
        × ((drop_hand s).hand ≤ length (drop_hand s).order)
    unfolding drop_hand
    drop_facts = ground (arith, length-remove_index s.order s.hand hand_lt)

    drop-cleared :
        (p : ℕ) (k : Key Obj)
        → get_elem? (drop_hand s).order p ≡ some k
        → back (length (drop_hand s).order) (drop_hand s).hand p ≤ scanned
        → status rich_compare (drop_hand s) k ≢ some true
    unfolding drop_hand status
    drop-cleared p k there near =
        let len = length-remove_index s.order s.hand hand_lt in
        let at = get_elem?-remove_index s.order s.hand p in
        let lt = lt_of_get_elem? (remove_index s.order s.hand) p there in
        elim (dec_lt p s.hand) [
          | yes h ↦ scan.cleared p k (ground arith) (ground arith)
          | no h ↦ scan.cleared (suc p) k (ground arith) (ground arith)
        ]

    status-none :
        status rich_compare s key ≡ none
        → (k : Key Obj) (e : SieveEntry V) → Map.get rich_compare s.map k ≡ found e
        → key_eq rich_compare key k ≢ equal
    unfolding status
    status-none stale k e f same = ground (arith, get_congr lawful s.map key k same)

    pub drop-Scan : status rich_compare s key ≡ none → Scan rich_compare n (drop_hand s) scanned
    drop-Scan stale =
        let facts = drop_facts in
        record {
          valid = record {
            covered = covered_rest;
            distinct = unfold drop_hand in scan.valid.distinct;
          };
          filled = unfold drop_hand in scan.filled;
          bound = omega (arith, scan.bound);
          budget = scan.budget;
          hand_ok = inl facts.1;
          cleared = drop-cleared;
        }
      where
        covered_rest :
            (k : Key Obj) (e : SieveEntry V)
            → Map.get rich_compare (drop_hand s).map k ≡ found e
            → Queued rich_compare (drop_hand s).order k
        covered_rest k e f =
            unfold drop_hand in requeue k (scan.valid.covered k e f) (status-none stale k e f)

    evict_found :
        status rich_compare s key ≡ some false
        → (e : SieveEntry V) × (Map.get rich_compare s.map key ≡ found e)
    unfolding status
    evict_found h = go (Map.get rich_compare s.map key) refl
      where
        go :
            (r : Map.Probe (SieveEntry V))
            → Map.get rich_compare s.map key ≡ r
            → (e : SieveEntry V) × (Map.get rich_compare s.map key ≡ found e)
        go (found e) p = (e, p)
        go absent p = absurd (ground arith)
        go failed p = absurd (get_quiet lawful s.map key p)

    pub evict_at-Evicts :
        status rich_compare s key ≡ some false → Evicts rich_compare s (evict_at rich_compare s key)
    unfolding evict_at drop_hand value_at
    evict_at-Evicts h =
        let (e, f) = evict_found h in
        let self = get-remove_self lawful s.map key scan.valid.distinct in
        record {
          victim = key;
          one_less = length-remove lawful s.map key f;
          spared = λ q ne. rw (get-remove_ne lawful s.map key q ne);
          gone = self;
          shorter = omega (arith, length-remove_index s.order s.hand hand_lt);
          valid = record {
            covered = λ k e' f'.
                let (e'', old) = found_of_remove lawful s.map key k f' in
                requeue k (scan.valid.covered k e'' old) (λ same.
                  ground (arith, get_congr lawful (Map.remove rich_compare s.map key) key k same));
            distinct = remove-Distinct lawful s.map key scan.valid.distinct;
          };
          capacity = refl;
        }
