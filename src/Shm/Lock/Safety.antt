-- ===== src/Shm/Lock/Safety.antt =====
-- What the seqlock of src/shm/lock.rs promises to writers and readers.
use warp_cache.Base.{ℕ, ◌%◌, ◌^◌, ◌<◌, ◌≡◌, ◌≢◌, subst, arith, true, List, update}
use warp_cache.Shm.Lock.{Shared, read_validate, Pc, reading, writing, System, Reach, Alone, holds}
use warp_cache.Shm.Lock.Invariant.{Seen, Local, Reach-Inv}

-- In every state that is reached in fewer than 2^64 steps, at most one thread holds the write lock.
pub one_writer :
    {data_words : ℕ → ℕ} {k : ℕ} {s : System} (i j : ℕ)
    → k < 2 ^ 64
    → Reach data_words k s
    → holds (s.pc i) ≡ true
    → holds (s.pc j) ≡ true
    → i ≡ j
one_writer i j small r = (Reach-Inv small r).unique i j

-- In every state that is reached in fewer than 2^64 steps: if `read_validate` of a reader returns
-- true, then all words it has read, in whatever order, are those in memory at this moment, and no
-- thread is writing.
pub validated_read :
    {data_words : ℕ → ℕ} {k : ℕ} {s : System} (i q : ℕ) (seen : List (ℕ × ℕ))
    → k < 2 ^ 64
    → Reach data_words k s
    → s.pc i ≡ reading q seen
    → read_validate s.mem q ≡ true
    → Seen s.mem.data_words seen × ((j : ℕ) → s.pc j ≢ writing)
unfolding read_validate
validated_read {s = s} i q seen small r here valid =
    let inv = Reach-Inv small r in
    let l = subst (λ p. Local s.mem p) here (inv.locals i) in
    let same : s.mem.seq ≡ q = ground arith in
    (
      l.2 same,
      (λ j e.
          let odd = subst (λ p. Local s.mem p) e (inv.locals j) in omega (arith, l.1, same, odd)),
    )

-- Thread `i` alone gets to a state in which the lock is free and the counter even.
abbrev Leaves : ℕ → System → ℕ → Type 0
Leaves i s n = (t : System) × Alone i s n t × (t.mem.write_lock ≡ 0) × (t.mem.seq % 2 ≡ 0)

module _ (i : ℕ) where
  abbrev moved : System → Shared → Pc → System
  moved s m p = record { mem = m; pc = update s.pc i p }
