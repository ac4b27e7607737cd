-- ===== src/Shm/Lock/Atomic.antt =====
-- A writer between `write_lock` and `write_unlock` of src/shm/lock.rs, while other threads go on.
use warp_cache.Base.{
  ℕ, ◌+◌, ◌^◌, ◌<◌, ◌≡◌, ◌≢◌, ◌⊎◌, inl, inr, refl, sym, ap, subst, ◌∙◌, arith, List, [], ◌∷◌,
  update,
}
use warp_cache.Shm.Lock.{
  Shared, Pc, writing, Move, read, wait_even, read_begin, load, valid, retry, finish, write,
  wait_free, see_free, cas_win, cas_fail, load_enter, store_enter, store, load_leave, store_leave,
  unlock, System, StepOf, pick, Reach, later, holds,
}
use warp_cache.Shm.Lock.Invariant.{Reach-Inv}

-- the words after stores, the last one first
unfoldable pub apply : List (ℕ × ℕ) → (ℕ → ℕ) → ℕ → ℕ
apply [] w = w
apply ((a, v) ∷ log) w = update (apply log w) a v

abbrev pub stored : ℕ → System → ℕ → ℕ → System
stored i t a v = record {
  mem = record t.mem { data_words = update t.mem.data_words a v };
  pc = update t.pc i writing;
}

-- Steps of all threads while thread `i` writes, with the stores of `i` and how many steps there were.
pub data Writes (i : ℕ) (s : System) : List (ℕ × ℕ) → ℕ → System → Type 0 where
  now : Writes i s [] 0 s
  own :
      {log : List (ℕ × ℕ)} {n : ℕ} {t : System} (a v : ℕ)
      → Writes i s log n t
      → Writes i s ((a, v) ∷ log) (n + 1) (stored i t a v)
  other :
      {log : List (ℕ × ℕ)} {n : ℕ} {t u : System} (j : ℕ)
      → j ≢ i
      → Writes i s log n t
      → StepOf j t u
      → Writes i s log (n + 1) u

-- only a thread that writes changes the words
pub Move-words :
    {m m' : Shared} {p p' : Pc} → Move m p m' p' → (p ≡ writing) ⊎ (m'.data_words ≡ m.data_words)
Move-words read = inr refl
Move-words (wait_even _) = inr refl
Move-words (read_begin _) = inr refl
Move-words (load a) = inr refl
Move-words (valid _) = inr refl
Move-words (retry _) = inr refl
Move-words finish = inr refl
Move-words write = inr refl
Move-words (wait_free _) = inr refl
Move-words (see_free _) = inr refl
Move-words (cas_win _) = inr refl
Move-words cas_fail = inr refl
Move-words load_enter = inr refl
Move-words store_enter = inr refl
Move-words (store a v) = inl refl
Move-words load_leave = inr refl
Move-words store_leave = inr refl
Move-words unlock = inr refl

-- where the writer and the memory are after `n` more steps
abbrev Written : (ℕ → ℕ) → ℕ → ℕ → System → List (ℕ × ℕ) → System → Type 0
Written data_words k i s log t =
    Reach data_words k t × (t.pc i ≡ writing) × (t.mem.data_words ≡ apply log s.mem.data_words)

other-Written :
    {data_words : ℕ → ℕ} {k : ℕ} (i j : ℕ) (s : System) (log : List (ℕ × ℕ)) {t u : System}
    → k < 2 ^ 64
    → j ≢ i
    → Written data_words k i s log t
    → StepOf j t u
    → Written data_words (k + 1) i s log u
other-Written i j s log {t = t} small ne (r, here, words) (pick {m} {p} move) =
    let same : m.data_words ≡ t.mem.data_words = elim (Move-words move) [
      | inr e ↦ e
      | inl w ↦ absurd (ne ((Reach-Inv small r).unique j i (ap holds w) (ap holds here)))
    ] in
    (later j r (pick move), ground arith, same ∙ words)

-- The stores of a writer are one change for all others: from a state reached in `k` steps in which thread `i` writes,
-- whatever steps the other threads make in between, as long as fewer than 2^64 are made in all, the words are those
-- of that state with the stores of `i`, in their order, and `i` still writes.
pub atomic_write :
    {data_words : ℕ → ℕ} {k : ℕ} (i : ℕ) {s t : System} {log : List (ℕ × ℕ)} {n : ℕ}
    → k + n < 2 ^ 64
    → Reach data_words k s
    → s.pc i ≡ writing
    → Writes i s log n t
    → Reach data_words (k + n) t
      × (t.pc i ≡ writing)
      × (t.mem.data_words ≡ apply log s.mem.data_words)
unfolding apply
atomic_write {data_words} {k} i {s} small r here now =
    (subst (λ x. Reach data_words x s) (omega arith) r, here, refl)
atomic_write {data_words} {k} i {s} small r here (own {n = n} {t = t} a v w) =
    let (r', here', words) = atomic_write i (omega arith) r here w in
    let assoc : k + n + 1 ≡ k + (n + 1) = omega arith in
    (
      subst (λ x. Reach data_words x (stored i t a v)) assoc
          (later i r' (
            pick (subst (λ p. Move t.mem p (stored i t a v).mem writing) (sym here') (store a v)))),
      ground arith,
      ap (λ x. update x a v) words,
    )
atomic_write {data_words} {k} i {s} small r here (other {log = log} {n = n} {u = u} j ne w step) =
    let ih = atomic_write i (omega arith) r here w in
    let assoc : k + n + 1 ≡ k + (n + 1) = omega arith in
    let (r', here', words) = other-Written i j s log (omega arith) ne ih step in
    (subst (λ x. Reach data_words x u) assoc r', here', words)
