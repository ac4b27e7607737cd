-- ===== src/Shm/Lock/Invariant.antt =====
-- The seqlock of src/shm/lock.rs after every step of any thread.
use warp_cache.Base.{
  ℕ, ◌+◌, ◌%◌, ◌^◌, ◌≤◌, ◌<◌, ◌≡◌, ◌≢◌, refl, sym, ap, subst, ◌∙◌, arith, ℕ_discrete, Bool, true,
  false, List, [], ◌∷◌, update, bit_and,
}
use warp_cache.Base.Bits.{bit_and_mask}
use warp_cache.Shm.Lock.{
  Shared, init, is_even, store_seq, Pc, idle, reading, locked, entering, writing, leaving, released,
  Move, read, wait_even, read_begin, load, valid, retry, finish, write, wait_free, see_free,
  cas_win, cas_fail, load_enter, store_enter, store, load_leave, store_leave, unlock, System,
  StepOf, pick, Reach, start, later, holds,
}

pub is_even-parity : (q : ℕ) → is_even q ≡ true → q % 2 ≡ 0
unfolding is_even
is_even-parity q h = omega (arith, bit_and_mask 1 q, (let e : bit_and q 1 ≡ 0 = ground arith in e))

-- the words that were read are those in memory
unfoldable pub Seen : (ℕ → ℕ) → List (ℕ × ℕ) → Type 0
Seen words [] = Unit
Seen words ((a, v) ∷ seen) = (words a ≡ v) × Seen words seen

-- What the locals of a thread say about the memory.
abbrev pub Local : Shared → Pc → Type 0
Local m (reading q seen) = (q ≤ m.seq) × (q % 2 ≡ 0) × (m.seq ≡ q → Seen m.data_words seen)
Local m locked = m.seq % 2 ≡ 0
Local m (entering prev) = (prev ≡ m.seq) × (m.seq % 2 ≡ 0)
Local m writing = m.seq % 2 ≡ 1
Local m (leaving prev) = (prev ≡ m.seq) × (m.seq % 2 ≡ 1)
Local m released = m.seq % 2 ≡ 0
Local m _ = Unit

pub record Inv (k : ℕ) (m : Shared) (pc : ℕ → Pc) : Type 0 where
  pub few : m.seq ≤ k
  pub held : (i : ℕ) → holds (pc i) ≡ true → m.write_lock ≢ 0
  pub unique : (i j : ℕ) → holds (pc i) ≡ true → holds (pc j) ≡ true → i ≡ j
  pub holder : m.write_lock ≢ 0 → (i : ℕ) × (holds (pc i) ≡ true)
  pub quiet : m.write_lock ≡ 0 → m.seq % 2 ≡ 0
  pub locals : (i : ℕ) → Local m (pc i)

-- what a move changes: nothing, the counter from inside, a word while the counter is odd, the spinlock
pub data Effect (m : Shared) (p p' : Pc) : Shared → Type 0 where
  same : holds p ≡ holds p' → Effect m p p' m
  count : {q : ℕ} → holds p ≡ true → holds p' ≡ true → q ≡ m.seq → Effect m p p' (store_seq m q)
  words :
      (w : ℕ → ℕ)
      → holds p ≡ true
      → holds p' ≡ true
      → m.seq % 2 ≡ 1
      → Effect m p p' (record m { data_words = w })
  take : m.write_lock ≡ 0 → holds p' ≡ true → Effect m p p' (record m { write_lock = 1 })
  give :
      holds p ≡ true
      → holds p' ≡ false
      → m.seq % 2 ≡ 0
      → Effect m p p' (record m { write_lock = 0 })

Move-Effect : {m m' : Shared} {p p' : Pc} → Local m p → Move m p m' p' → Effect m p p' m'
Move-Effect l read = same refl
Move-Effect l (wait_even _) = same refl
Move-Effect l (read_begin _) = same refl
Move-Effect l (load _) = same refl
Move-Effect l (valid _) = same refl
Move-Effect l (retry _) = same refl
Move-Effect l finish = same refl
Move-Effect l write = same refl
Move-Effect l (wait_free _) = same refl
Move-Effect l (see_free _) = same refl
Move-Effect l (cas_win e) = take e refl
Move-Effect l cas_fail = same refl
Move-Effect l load_enter = same refl
Move-Effect l store_enter = count refl refl l.0
Move-Effect l (store a v) = words _ refl refl l
Move-Effect l load_leave = same refl
Move-Effect l store_leave = count refl refl l.0
Move-Effect l unlock = give refl refl l

-- The locals of the thread that moves.
Move-Local :
    {k : ℕ} {m m' : Shared} {p p' : Pc}
    → m.seq ≤ k
    → k + 1 < 2 ^ 64
    → (m.write_lock ≡ 0 → m.seq % 2 ≡ 0)
    → Local m p
    → Move m p m' p'
    → Local m' p'
unfolding Seen
Move-Local few small quiet l (read_begin e) = (omega arith, is_even-parity _ e, λ _. tt)
Move-Local few small quiet l (load a) = (l.0, l.1, λ e. (refl, l.2 e))
Move-Local few small quiet l (cas_win e) = quiet e
Move-Local few small quiet l load_enter = (refl, l)
Move-Local few small quiet l store_enter = omega (arith, l.0, l.1)
Move-Local few small quiet l (store a v) = l
Move-Local few small quiet l load_leave = (refl, l)
Move-Local few small quiet l store_leave = omega (arith, l.0, l.1)
Move-Local few small quiet l read = tt
Move-Local few small quiet l (wait_even _) = tt
Move-Local few small quiet l (valid _) = tt
Move-Local few small quiet l (retry _) = tt
Move-Local few small quiet l finish = tt
Move-Local few small quiet l write = tt
Move-Local few small quiet l (wait_free _) = tt
Move-Local few small quiet l (see_free _) = tt
Move-Local few small quiet l cas_fail = tt
Move-Local few small quiet l unlock = tt

Local-lock : (m : Shared) (w : ℕ) (p : Pc) → Local m p → Local (record m { write_lock = w }) p
Local-lock m w (reading q seen) l = l
Local-lock m w locked l = l
Local-lock m w (entering prev) l = l
Local-lock m w writing l = l
Local-lock m w (leaving prev) l = l
Local-lock m w released l = l
Local-lock m w _ l = tt

-- A reader that a writer has overtaken has nothing to say.
Local-outside :
    (m m' : Shared) (p : Pc)
    → holds p ≡ false
    → ((q : ℕ) → q ≤ m.seq → q % 2 ≡ 0 → (q ≤ m'.seq) × (m'.seq ≢ q))
    → Local m p
    → Local m' p
Local-outside m m' (reading q seen) out past l =
    ((past q l.0 l.1).0, l.1, λ e. absurd ((past q l.0 l.1).1 e))
Local-outside m m' locked out past l = absurd (ground arith)
Local-outside m m' (entering prev) out past l = absurd (ground arith)
Local-outside m m' writing out past l = absurd (ground arith)
Local-outside m m' (leaving prev) out past l = absurd (ground arith)
Local-outside m m' released out past l = absurd (ground arith)
Local-outside m m' _ out past l = tt

Effect-Local :
    {k : ℕ} {m m' : Shared} {p p' : Pc} (p2 : Pc)
    → m.seq ≤ k
    → k + 1 < 2 ^ 64
    → (holds p ≡ true → holds p2 ≡ false)
    → Effect m p p' m'
    → Local m p2
    → Local m' p2
Effect-Local p2 few small out (same _) l = l
Effect-Local {m} p2 few small out (count {q} h _ e) l =
    Local-outside m (store_seq m q) p2 (out h) (λ q' lo even. (omega arith, omega arith)) l
Effect-Local {m} p2 few small out (words w h _ odd) l =
    Local-outside m (record m { data_words = w }) p2 (out h) (λ q lo even. (lo, λ d. omega arith)) l
Effect-Local {m} p2 few small out (take _ _) l = Local-lock m 1 p2 l
Effect-Local {m} p2 few small out (give _ _ _) l = Local-lock m 0 p2 l

not_true : (b : Bool) → b ≢ true → b ≡ false
not_true b h = ground arith

-- The part of the invariant about the spinlock.
record Lock (m : Shared) (pc : ℕ → Pc) : Type 0 where
  pub held : (i : ℕ) → holds (pc i) ≡ true → m.write_lock ≢ 0
  pub unique : (i j : ℕ) → holds (pc i) ≡ true → holds (pc j) ≡ true → i ≡ j
  pub holder : m.write_lock ≢ 0 → (i : ℕ) × (holds (pc i) ≡ true)
  pub quiet : m.write_lock ≡ 0 → m.seq % 2 ≡ 0

Effect-few : {k : ℕ} {m m' : Shared} {p p' : Pc} → m.seq ≤ k → Effect m p p' m' → m'.seq ≤ k + 1
Effect-few few (same _) = omega arith
Effect-few few (count _ _ e) = omega arith
Effect-few few (words _ _ _ _) = omega arith
Effect-few few (take _ _) = omega arith
Effect-few few (give _ _ _) = omega arith

module _ {k : ℕ} {m : Shared} {pc : ℕ → Pc} (inv : Inv k m pc) (i : ℕ) where
  other_out : (j : ℕ) → i ≢ j → holds (pc i) ≡ true → holds (pc j) ≡ false
  other_out j ne h = not_true _ (λ h'. ne (inv.unique i j h h'))

  -- The mover holds the lock as before, so all threads do.
  keep :
      {m' : Shared} (p' : Pc)
      → m'.write_lock ≡ m.write_lock
      → (m.write_lock ≡ 0 → m'.seq ≡ m.seq)
      → holds (pc i) ≡ holds p'
      → Lock m' (update pc i p')
  keep {m'} p' word seq e =
      let stays : (j : ℕ) → holds (update pc i p' j) ≡ holds (pc j) = λ j. elim (ℕ_discrete i j) [
        | yes d ↦
            let at : update pc i p' j ≡ p' = ground arith in
            ap holds at ∙ (sym e ∙ ap (λ x. holds (pc x)) d)
        | no ne ↦ let at : update pc i p' j ≡ pc j = ground arith in ap holds at
      ] in
      record {
        held = λ j h z. inv.held j (sym (stays j) ∙ h) (sym word ∙ z);
        unique = λ j l hj hl. inv.unique j l (sym (stays j) ∙ hj) (sym (stays l) ∙ hl);
        holder = λ ne. let (j, h) = inv.holder (λ z. ne (word ∙ z)) in (j, stays j ∙ h);
        quiet = λ z. let z' = sym word ∙ z in ap (λ x. x % 2) (seq z') ∙ inv.quiet z';
      }

  Effect-Lock : {m' : Shared} {p' : Pc} → Effect m (pc i) p' m' → Lock m' (update pc i p')
  Effect-Lock (same e) = keep _ refl (λ z. refl) e
  Effect-Lock (count h h' e) = keep _ refl (λ z. absurd (inv.held i h z)) (h ∙ sym h')
  Effect-Lock (words w h h' _) = keep _ refl (λ z. refl) (h ∙ sym h')
  Effect-Lock {p' = p'} (take z h) =
      let none_before : (j : ℕ) → holds (pc j) ≡ false = λ j. not_true _ (λ h'. inv.held j h' z) in
      let only : (j : ℕ) → holds (update pc i p' j) ≡ true → i ≡ j = λ j hj. elim (ℕ_discrete i j) [
        | yes d ↦ d
        | no ne ↦ absurd (ground (arith, none_before j))
      ] in
      record {
        held = λ j hj. omega arith;
        unique = λ j l hj hl. sym (only j hj) ∙ only l hl;
        holder = λ ne. (i, ground arith);
        quiet = λ z'. absurd (omega arith);
      }
  Effect-Lock {p' = p'} (give h h' even) =
      let none_after : (j : ℕ) → holds (update pc i p' j) ≡ false = λ j. elim (ℕ_discrete i j) [
        | yes d ↦ ground arith
        | no ne ↦ ground (arith, other_out j ne h)
      ] in
      record {
        held = λ j hj. absurd (ground (arith, none_after j));
        unique = λ j l hj hl. absurd (ground (arith, none_after j));
        holder = λ ne. absurd (omega arith);
        quiet = λ z. even;
      }

  step-Inv :
      {m' : Shared} {p' : Pc}
      → k + 1 < 2 ^ 64
      → Move m (pc i) m' p'
      → Inv (k + 1) m' (update pc i p')
  step-Inv {m'} {p'} small move =
      let own = inv.locals i in
      let effect = Move-Effect own move in
      let lock = Effect-Lock effect in
      record {
        few = Effect-few inv.few effect;
        held = lock.held;
        unique = lock.unique;
        holder = lock.holder;
        quiet = lock.quiet;
        locals = λ j. elim (ℕ_discrete i j) [
          | yes d ↦
              let at : update pc i p' j ≡ p' = ground arith in
              subst (λ x. Local m' x) (sym at) (Move-Local inv.few small inv.quiet own move)
          | no ne ↦
              let at : update pc i p' j ≡ pc j = ground arith in
              subst (λ x. Local m' x) (sym at)
                (Effect-Local (pc j) inv.few small (other_out j ne) effect (inv.locals j))
        ];
      }

start-Inv : (data_words : ℕ → ℕ) → Inv 0 (init data_words) (λ _. idle)
unfolding init
start-Inv data_words = record {
  few = omega arith;
  held = λ i h. absurd (ground arith);
  unique = λ i j h h'. absurd (ground arith);
  holder = λ ne. absurd (omega arith);
  quiet = λ z. refl;
  locals = λ i. tt;
}

pub StepOf-Inv :
    {k i : ℕ} {s t : System}
    → k + 1 < 2 ^ 64
    → Inv k s.mem s.pc
    → StepOf i s t
    → Inv (k + 1) t.mem t.pc
StepOf-Inv {i = i} small inv (pick move) = step-Inv inv i small move

-- The invariant holds in the first 2^64 states.
pub Reach-Inv :
    {data_words : ℕ → ℕ} {k : ℕ} {s : System} → k < 2 ^ 64 → Reach data_words k s → Inv k s.mem s.pc
Reach-Inv {data_words} small start = start-Inv data_words
Reach-Inv small (later i r step) = StepOf-Inv small (Reach-Inv (omega arith) r) step
