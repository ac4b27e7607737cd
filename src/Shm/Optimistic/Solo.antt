-- ===== src/Shm/Optimistic/Solo.antt =====
-- A reader of src/shm/mod.rs whose steps nobody else's come between.
use warp_cache.Base.{
  ℕ, suc, ◌≡◌, refl, sym, ap, subst, ◌∙◌, arith, ==_refl, ◌==◌, true, List, [], ◌∷◌, update,
}
use warp_cache.Shm.Lock.{
  Shared, is_even, read_validate, Pc, idle, beginning, reading, Move, read, read_begin, System,
  StepOf, pick, Alone, stop, more,
}
use warp_cache.Shm.Lock
use warp_cache.Shm.Cache.{ht_lookup_checked}
use warp_cache.Shm.Optimistic.{Prog, ret, load, eval, Runs, begin, next, optimistic_prog, region_of}
use warp_cache.Shm.Optimistic.Eval.{optimistic-ht_lookup_checked}

module _ (i : ℕ) where
  abbrev moved : System → Pc → System
  moved s p = record { mem = s.mem; pc = update s.pc i p }

  moved-pc : (s : System) (p : Pc) → (moved s p).pc i ≡ p
  moved-pc s p = ground arith

  step_to : (s : System) (p p' : Pc) → s.pc i ≡ p → Move s.mem p s.mem p' → StepOf i s (moved s p')
  step_to s p p' here move = pick (subst (λ x. Move s.mem x s.mem p') (sym here) move)

  -- Thread `i` alone comes from `s` to the end of its loads, with this result.
  record Ends {A : Type 0} (p : Prog A) (s : System) (seq : ℕ) (result : A) : Type 0 where
    pub steps : ℕ
    pub seen : List (ℕ × ℕ)
    pub state : System
    pub alone : Alone i s steps state
    pub kept : state.mem ≡ s.mem
    pub at_end : state.pc i ≡ reading seq seen
    pub run : Runs p seen (ret result)

  ends :
      {A : Type 0} (p q : Prog A) (s : System) (seq : ℕ) (seen : List (ℕ × ℕ))
      → s.pc i ≡ reading seq seen
      → Runs p seen q
      → Ends p s seq (eval s.mem.data_words q)
  unfolding eval
  ends p (ret x) s seq seen here run = record {
    steps = 0;
    seen = seen;
    state = s;
    alone = stop;
    kept = refl;
    at_end = here;
    run = run;
  }
  ends p (load a k) s seq seen here run =
      let v = s.mem.data_words a in
      let s' = moved s (reading seq ((a, v) ∷ seen)) in
      let e = ends p (k v) s' seq ((a, v) ∷ seen) (moved-pc s _) (next a v run) in
      record {
        steps = suc e.steps;
        seen = e.seen;
        state = e.state;
        alone = more (step_to s _ _ here (Lock.load a)) e.alone;
        kept = e.kept;
        at_end = e.at_end;
        run = e.run;
      }

-- A reader that starts when the counter is even and that nobody disturbs gets through its loads in finitely many
-- steps of its own: it changes nothing, its result is that of the lookup on the region in memory, and
-- `read_validate` returns true, so that it does not try again.
pub undisturbed_read :
    (i : ℕ) (s : System) (now key_hash : ℕ) (key_bytes : List ℕ)
    → s.pc i ≡ idle
    → is_even s.mem.seq ≡ true
    → (n : ℕ) × (seen : List (ℕ × ℕ)) × (t : System) × Alone i s n t
      × (t.mem ≡ s.mem)
      × (t.pc i ≡ reading s.mem.seq seen)
      × Runs
          (optimistic_prog now key_hash key_bytes)
          seen
          (ret (ht_lookup_checked (region_of s.mem.data_words) now key_hash key_bytes))
      × (read_validate t.mem s.mem.seq ≡ true)
unfolding read_validate
undisturbed_read i s now key_hash key_bytes here even =
    let p = optimistic_prog now key_hash key_bytes in
    let b = moved i s beginning in
    let r = moved i b (reading s.mem.seq []) in
    let e = ends i p p r s.mem.seq [] (moved-pc i b _) begin in
    let same = optimistic-ht_lookup_checked s.mem.data_words now key_hash key_bytes in
    (
      suc (suc e.steps),
      e.seen,
      e.state,
      more (step_to i s _ _ here read)
          (more (step_to i b _ _ (moved-pc i s _) (read_begin even)) e.alone),
      e.kept,
      e.at_end,
      subst (λ x. Runs p e.seen (ret x)) same e.run,
      ap (λ m. m.seq == s.mem.seq) e.kept ∙ ==_refl s.mem.seq,
    )
