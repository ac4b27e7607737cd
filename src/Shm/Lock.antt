-- ===== src/Shm/Lock.antt =====
-- src/shm/lock.rs: the seqlock, one access to shared memory at a time. Threads of all processes
-- interleave in any order; the memory orderings of the atomics are not part of the model, which is
-- sequentially consistent. `data` are the words that the lock protects.
pub mod Invariant
pub mod Safety
pub mod Atomic
use warp_cache.Base.{
  ℕ, suc, ◌+◌, ◌%◌, ◌^◌, ◌≡◌, ◌≢◌, ◌==◌, Bool, true, false, List, [], ◌∷◌, update, bit_and,
}

-- `ShmSeqLock`, behind its two pointers, and what it protects
pub record Shared : Type 0 where
  pub seq : ℕ  -- u64
  pub write_lock : ℕ  -- u32
  pub data_words : ℕ → ℕ

-- `ShmSeqLock::init` over memory with any data
unfoldable pub init : (ℕ → ℕ) → Shared
init data_words = record { seq = 0; write_lock = 0; data_words = data_words }

-- `seq & 1 == 0`
unfoldable pub is_even : ℕ → Bool
is_even seq = bit_and seq 1 == 0

unfoldable pub read_validate : Shared → ℕ → Bool
read_validate m seq = m.seq == seq

-- `seq.store(prev + 1)`
abbrev pub store_seq : Shared → ℕ → Shared
store_seq m prev = record m { seq = (prev + 1) % 2 ^ 64 }

-- Where a thread stands, with the local variables that are live there.
pub data Pc : Type 0 where
  idle : Pc
  beginning : Pc  -- the loop of `read_begin`
  reading : (seq : ℕ) → (seen : List (ℕ × ℕ)) → Pc  -- after `read_begin`, with the words read so far
  validated : (seen : List (ℕ × ℕ)) → Pc  -- `read_validate` has returned true
  spinning : Pc  -- the inner loop of `write_lock`
  trying : Pc  -- before its compare-exchange
  locked : Pc  -- behind it
  entering : (prev : ℕ) → Pc  -- before the store that makes the counter odd
  writing : Pc  -- after `write_lock`
  leaving : (prev : ℕ) → Pc  -- in `write_unlock`, before the store that makes the counter even
  released : Pc  -- before the store to the spinlock

-- One step of one thread.
pub data Move (m : Shared) : Pc → Shared → Pc → Type 0 where
  read : Move m idle m beginning
  wait_even : is_even m.seq ≡ false → Move m beginning m beginning
  read_begin : is_even m.seq ≡ true → Move m beginning m (reading m.seq [])
  load :
      {q : ℕ} {seen : List (ℕ × ℕ)} (a : ℕ)
      → Move m (reading q seen) m (reading q ((a, m.data_words a) ∷ seen))
  valid :
      {q : ℕ} {seen : List (ℕ × ℕ)}
      → read_validate m q ≡ true
      → Move m (reading q seen) m (validated seen)
  retry :
      {q : ℕ} {seen : List (ℕ × ℕ)}
      → read_validate m q ≡ false
      → Move m (reading q seen) m beginning
  finish : {seen : List (ℕ × ℕ)} → Move m (validated seen) m idle
  write : Move m idle m spinning
  wait_free : m.write_lock ≢ 0 → Move m spinning m spinning
  see_free : m.write_lock ≡ 0 → Move m spinning m trying
  cas_win : m.write_lock ≡ 0 → Move m trying (record m { write_lock = 1 }) locked
  cas_fail : Move m trying m spinning  -- lost, or spurious: `compare_exchange_weak`
  load_enter : Move m locked m (entering m.seq)
  store_enter : {prev : ℕ} → Move m (entering prev) (store_seq m prev) writing
  store : (a v : ℕ) → Move m writing (record m { data_words = update m.data_words a v }) writing
  load_leave : Move m writing m (leaving m.seq)
  store_leave : {prev : ℕ} → Move m (leaving prev) (store_seq m prev) released
  unlock : Move m released (record m { write_lock = 0 }) idle

pub record System : Type 0 where
  pub mem : Shared
  pub pc : ℕ → Pc

-- Thread `i` moves.
pub data StepOf (i : ℕ) (s : System) : System → Type 0 where
  pick :
      {m : Shared} {p : Pc}
      → Move s.mem (s.pc i) m p
      → StepOf i s (record { mem = m; pc = update s.pc i p })

-- The states after `k` steps of any threads.
pub data Reach (data_words : ℕ → ℕ) : ℕ → System → Type 0 where
  start : Reach data_words 0 (record { mem = init data_words; pc = λ _. idle })
  later :
      {k : ℕ} {s t : System} (i : ℕ)
      → Reach data_words k s
      → StepOf i s t
      → Reach data_words (k + 1) t

-- Thread `i` alone makes `n` steps.
pub data Alone (i : ℕ) : System → ℕ → System → Type 0 where
  stop : {s : System} → Alone i s 0 s
  more : {n : ℕ} {s t u : System} → StepOf i s t → Alone i t n u → Alone i s (suc n) u

-- between the compare-exchange that won and the store that releases the spinlock
abbrev pub holds : Pc → Bool
holds locked = true
holds (entering _) = true
holds writing = true
holds (leaving _) = true
holds released = true
holds _ = false
