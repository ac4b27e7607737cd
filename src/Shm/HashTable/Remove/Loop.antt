-- ===== src/Shm/HashTable/Remove/Loop.antt =====
-- The backward-shift loop of `ht_remove` of src/shm/hashtable.rs as a whole.
use warp_cache.Base.{
  ℕ, zero, suc, ◌<◌, ◌≡◌, ◌≢◌, refl, sym, ap, subst, ◌∙◌, arith, ℕ_discrete, true, false,
  Bool-cases, inl, inr, some, update,
}
use warp_cache.Shm.Layout.{Bucket}
use warp_cache.Shm.HashTable.{next_index, should_move, shift, remove_at, empty_bucket}
use warp_cache.Shm.HashTable.Ring.{IsPow2, succ_on, dist, next_index-eq, succ_on-lt}
use warp_cache.Shm.HashTable.Probe.{is_full, Full, ideal, NoGap, dist_step, dist_self}
use warp_cache.Shm.HashTable.Insert.{Empty}
use warp_cache.Shm.HashTable.Remove.{
  clear_path, j≢q, StoredBut, Hole, dist_injective, dist_one, stay, move, Stored, Removed,
}

module _ (n : ℕ) where
  shift_stop :
      (fuel : ℕ) (ht : ℕ → Bucket) (e j : ℕ)
      → Empty (ht j)
      → shift (suc fuel) n ht e j ≡ some (ht, e)
  unfolding shift
  shift_stop fuel ht e j stop = ground arith

  shift_stay :
      (fuel : ℕ) (ht : ℕ → Bucket) (e j : ℕ)
      → Full (ht j)
      → should_move e j (ideal n (ht j)) ≡ false
      → shift (suc fuel) n ht e j ≡ shift fuel n ht e (next_index n j)
  unfolding shift
  shift_stay fuel ht e j full keep = rw keep (ground arith)

  shift_move :
      (fuel : ℕ) (ht : ℕ → Bucket) (e j : ℕ)
      → Full (ht j)
      → should_move e j (ideal n (ht j)) ≡ true
      → shift (suc fuel) n ht e j ≡ shift fuel n (update ht e (ht j)) j (next_index n j)
  unfolding shift
  shift_move fuel ht e j full go = rw go (ground arith)

  remove_at_run :
      (ht ht' : ℕ → Bucket) (r e : ℕ)
      → shift n n ht r (next_index n r) ≡ some (ht', e)
      → remove_at ht n r ≡ some (true, update ht' e empty_bucket)
  unfolding remove_at
  remove_at_run ht ht' r e run = rw (remove_at, run)

module _ {n : ℕ} (sized : IsPow2 n) {r : ℕ} {ht₀ : ℕ → Bucket} where
  finish :
      {ht : ℕ → Bucket} {e j q : ℕ}
      → Hole n r ht₀ ht e j q
      → Empty (ht j)
      → Removed n r ht₀ (update ht e empty_bucket)
  finish {ht} {e} h stop = record {
    no_gap = λ i p hi hp full near.
        let ne : i ≢ e = λ d. ground arith in
        let full_i : Full (ht i) = ground arith in
        let near_i : dist n (ideal n (ht i)) p < dist n (ideal n (ht i)) i = ground arith in
        elim (ℕ_discrete e p) [
          | yes d ↦ absurd (
              omega (arith, clear_path sized h stop i hi ne full_i, ap (dist n (ideal n (ht i))) d))
          | no d ↦ ground (arith, h.path i p hi hp ne full_i near_i)
        ];
    kept = λ b. (
      (λ (i, hi, full, same).
          (h.kept b).0 (i, hi, (λ d. ground arith), ground arith, ground arith)),
      (λ s. back b ((h.kept b).1 s)),
    );
    once = λ o i k hi hk _ _ full same.
        let ne_i : i ≢ e = λ d. ground arith in
        let ne_k : k ≢ e = λ d. ground arith in
        h.once o i k hi hk ne_i ne_k (ground arith) (ground arith);
    room = (e, h.e_lt, ground arith);
    outside = λ p hp. let ne : e ≢ p = λ d. omega (arith, h.e_lt) in ground (arith, h.outside p hp);
  }
    where
      back : (b : Bucket) → StoredBut e n ht b → Stored n (update ht e empty_bucket) b
      back b (i, hi, ne, full, same) =
          let ne' : e ≢ i = λ d. ne (sym d) in (i, hi, ground arith, ground arith)

  -- The loop ends within its fuel.
  shift-Removed :
      (fuel : ℕ) {ht : ℕ → Bucket} {e j q : ℕ}
      → Hole n r ht₀ ht e j q
      → dist n j q < fuel
      → (ht' : ℕ → Bucket) × (e' : ℕ) × (shift fuel n ht e j ≡ some (ht', e'))
        × Removed n r ht₀ (update ht' e' empty_bucket)
  shift-Removed zero h near = absurd (omega arith)
  shift-Removed (suc fuel) {ht} {e} {j} {q} h near = elim (Bool-cases (is_full (ht j))) [
    | inr stop ↦ (ht, e, shift_stop n fuel ht e j stop, finish h stop)
    | inl full ↦
        let closer : suc (dist n (succ_on n j) q) ≡ dist n j q =
          dist_step n j q h.j_lt h.q_lt (j≢q sized h full) in
        elim (Bool-cases (should_move e j (ideal n (ht j)))) [
          | inl go ↦
              let (ht', e', run, done) = shift-Removed fuel (move sized h full go) (omega arith) in
              (
                ht',
                e',
                shift_move n fuel ht e j full go ∙ rw (next_index-eq sized j h.j_lt) run,
                done,
              )
          | inr keep ↦
              let (ht', e', run, done) =
                shift-Removed fuel (stay sized h full keep) (omega arith) in
              (
                ht',
                e',
                shift_stay n fuel ht e j full keep ∙ rw (next_index-eq sized j h.j_lt) run,
                done,
              )
        ]
  ]

  start_Hole :
      (q : ℕ)
      → NoGap n ht₀
      → r < n
      → q < n
      → Full (ht₀ r)
      → Empty (ht₀ q)
      → Hole n r ht₀ ht₀ r (succ_on n r) q
  start_Hole q no_gap hr hq full empty =
      let ne : r ≢ q = λ d. ground (arith, subst (λ x. Full (ht₀ x)) d full) in
      let next = dist_one n r q hr hq ne in
      record {
        e_lt = hr;
        j_lt = succ_on-lt sized r hr;
        q_lt = hq;
        e_full = full;
        q_empty = empty;
        j_after = omega arith;
        q_after = next.1;
        path = λ i p hi hp _ full_i near. no_gap i p hi hp full_i near;
        scanned = λ i hi ne_i full_i near.
            absurd (ne_i (dist_injective n r i r hr hi hr (ground (arith, dist_self n r))));
        kept = λ b. ((λ s. s), (λ s. s));
        once = λ o. o;
        outside = λ p hp. refl;
      }

  -- Removal at a full bucket ends, and removes that entry alone.
  pub remove_at-Removed :
      (q : ℕ)
      → NoGap n ht₀
      → r < n
      → q < n
      → Full (ht₀ r)
      → Empty (ht₀ q)
      → (ht' : ℕ → Bucket) × (remove_at ht₀ n r ≡ some (true, ht')) × Removed n r ht₀ ht'
  remove_at-Removed q no_gap hr hq full empty =
      let (ht', e', run, done) =
        shift-Removed n (start_Hole q no_gap hr hq full empty)
          (ground (arith, succ_on-lt sized r hr)) in
      (
        update ht' e' empty_bucket,
        remove_at_run n ht₀ ht' r e' (rw (next_index-eq sized r hr) run),
        done,
      )
