-- ===== src/Store/Evict.antt =====
-- `evict_one` ends and removes exactly one entry of a well-formed, non-empty shard.
use warp_cache.Base.{
  ℕ, zero, suc, ◌+◌, ◌*◌, ◌≤◌, ◌<◌, ◌≡◌, refl, ap, ◌∙◌, arith, true, false, Option-cases, inl, inr,
  ltb, none, some, List, [], ◌∷◌, length,
}
use warp_cache.Store.Seq.{get_elem?, length-remove_index, get_elem?-lt, lt_of_get_elem?}
use warp_cache.Store.Map.{Compare, Key, IsEquality, get-modify, length-modify}
use warp_cache.Store.Map.Laws.{value_at}
use warp_cache.Store.Shard.{
  Shard, is_empty, status, set_visited, drop_hand, wrap_hand, pass_over, evict_at, evict_loop,
  evict_one,
}
use warp_cache.Store.Invariant.{IsShard, Evicts, Scan}
use warp_cache.Store.Scan.{
  queue_filled, wrapped_lt, wrap-Scan, pass-Scan, pass_more, drop_facts, drop-Scan, evict_at-Evicts,
}

module _ {Obj V : Type 0} {rich_compare : Obj → Obj → Compare}
    (lawful : IsEquality rich_compare) where
  value_pass :
      (s : Shard Obj V) (key q : Key Obj)
      → value_at rich_compare (pass_over rich_compare s key).map q ≡ value_at rich_compare s.map q
  unfolding value_at pass_over
  value_pass s key q = ground (arith, get-modify lawful key q (set_visited false) s.map)

  after_pass :
      (s s' : Shard Obj V) (key : Key Obj)
      → Evicts rich_compare (pass_over rich_compare s key) s'
      → Evicts rich_compare s s'
  after_pass s s' key ev = record {
    victim = ev.victim;
    one_less =
        ev.one_less ∙ (unfold pass_over in length-modify lawful (set_visited false) s.map key);
    spared = λ q ne. ev.spared q ne ∙ value_pass s key q;
    gone = ev.gone;
    shorter = unfold pass_over in ev.shorter;
    valid = ev.valid;
    capacity = unfold pass_over in ev.capacity;
  }

  after_drop :
      (s s' : Shard Obj V)
      → s.hand < length s.order
      → Evicts rich_compare (drop_hand s) s'
      → Evicts rich_compare s s'
  after_drop s s' lt ev = record {
    victim = ev.victim;
    one_less = unfold drop_hand in ev.one_less;
    spared = unfold drop_hand in ev.spared;
    gone = ev.gone;
    shorter = unfold drop_hand in omega (arith, ev.shorter, length-remove_index s.order s.hand lt);
    valid = ev.valid;
    capacity = unfold drop_hand in ev.capacity;
  }

  after_wrap :
      (s s' : Shard Obj V) → Evicts rich_compare (wrap_hand s) s' → Evicts rich_compare s s'
  after_wrap s s' ev = record {
    victim = ev.victim;
    one_less = unfold wrap_hand in ev.one_less;
    spared = unfold wrap_hand in ev.spared;
    gone = ev.gone;
    shorter = unfold wrap_hand in ev.shorter;
    valid = ev.valid;
    capacity = unfold wrap_hand in ev.capacity;
  }

  abbrev Ends : ℕ → ℕ → Shard Obj V → ℕ → Type 0
  Ends fuel n s scanned =
      (s' : Shard Obj V) × (evict_loop rich_compare fuel n s scanned ≡ some s')
      × Evicts rich_compare s s'

  module _ (fuel n : ℕ) (s : Shard Obj V) (scanned : ℕ) (key : Key Obj) (more : scanned ≤ n)
      (filled : 0 < length s.order)
      (here : get_elem? (wrap_hand s).order (wrap_hand s).hand ≡ some key) where
    not_empty : is_empty s.order ≡ false
    not_empty = go s.order filled
      where
        go : (xs : List (Key Obj)) → 0 < length xs → is_empty xs ≡ false
        go [] h = absurd (omega arith)
        go (x ∷ xs) h = refl

    in_budget : ltb n scanned ≡ false
    in_budget = ground arith

    loop_pass :
        status rich_compare (wrap_hand s) key ≡ some true
        → evict_loop rich_compare (suc fuel) n s scanned
          ≡ evict_loop rich_compare fuel n (pass_over rich_compare (wrap_hand s) key) (scanned + 1)
    unfolding evict_loop evict_at
    loop_pass st = rw (evict_loop, in_budget, not_empty, here, st)

    loop_evict :
        status rich_compare (wrap_hand s) key ≡ some false
        → evict_loop rich_compare (suc fuel) n s scanned
          ≡ some (evict_at rich_compare (wrap_hand s) key)
    unfolding evict_loop evict_at
    loop_evict st = rw (evict_loop, in_budget, not_empty, here, st)

    loop_drop :
        status rich_compare (wrap_hand s) key ≡ none
        → evict_loop rich_compare (suc fuel) n s scanned
          ≡ evict_loop rich_compare fuel n (drop_hand (wrap_hand s)) scanned
    unfolding evict_loop evict_at
    loop_drop st = rw (evict_loop, in_budget, not_empty, here, st)

  loop-Ends :
      (fuel n : ℕ) (s : Shard Obj V) (scanned : ℕ)
      → Scan rich_compare n s scanned
      → n + length s.order < fuel + scanned
      → Ends fuel n s scanned
  loop-Ends zero n s scanned scan h = absurd (omega (arith, scan.budget, queue_filled lawful scan))
  loop-Ends (suc fuel) n s scanned scan h =
      let w = wrap_hand s in
      let in_queue = queue_filled lawful scan in
      let scan_w = wrap-Scan lawful scan in
      let lt = wrapped_lt lawful scan in
      let same_order : w.order ≡ s.order = unfold wrap_hand in refl in
      let lt_w : w.hand < length w.order = rw same_order lt in
      let (key, here) = get_elem?-lt w.order w.hand lt_w in
      elim (Option-cases (status rich_compare w key)) [
        | inl stale ↦
            let scan' = drop-Scan lawful scan_w key lt_w here stale in
            let facts = drop_facts lawful scan_w key lt_w here in
            let (s', run, ev) =
              loop-Ends fuel n (drop_hand w) scanned scan'
                (omega (arith, facts.0, ap (λ (x : List (Key Obj)). length x) same_order)) in
            (
              s',
              loop_drop fuel n s scanned key scan.budget in_queue here stale ∙ run,
              after_wrap s s' (after_drop w s' lt_w ev),
            )
        | inr (true, visited) ↦
            let more = pass_more lawful scan_w key lt_w here visited in
            let scan' = pass-Scan lawful scan_w key lt_w here visited more in
            let (s', run, ev) =
              loop-Ends fuel n (pass_over rich_compare w key) (scanned + 1) scan' (
                unfold pass_over in
                omega (arith, ap (λ (x : List (Key Obj)). length x) same_order)) in
            (
              s',
              loop_pass fuel n s scanned key scan.budget in_queue here visited ∙ run,
              after_wrap s s' (after_pass w s' key ev),
            )
        | inr (false, unvisited) ↦ (
          evict_at rich_compare w key,
          loop_evict fuel n s scanned key scan.budget in_queue here unvisited,
          after_wrap s _ (evict_at-Evicts lawful scan_w key lt_w here unvisited),
        )
      ]

  -- If Python's == is an equivalence on all objects that never raises:
  -- on a well-formed shard with an entry, `evict_one` ends within its fuel and removes exactly one
  -- entry: the map has one entry less, no entry under the victim's key, and the same value for every
  -- other key; the queue is shorter, and the shard is well-formed again.
  pub evict_one-Evicts :
      (s : Shard Obj V)
      → IsShard rich_compare s
      → 0 < length s.map
      → (s' : Shard Obj V) × (evict_one rich_compare s ≡ some s') × Evicts rich_compare s s'
  unfolding evict_one
  evict_one-Evicts s valid filled =
      loop-Ends (2 * length s.order + 2) (length s.order) s 0
        (record {
          valid = valid;
          filled = filled;
          bound = omega arith;
          budget = omega arith;
          hand_ok = inr refl;
          cleared = λ p k there near. absurd (ground (arith, lt_of_get_elem? s.order p there));
        })
        (omega arith)
