-- ===== src/Shm/Optimistic/Sections.antt =====
-- Processes that write to a shared cache of src/shm/mod.rs only under the lock of src/shm/lock.rs, one operation
-- in each critical section, and a reader without a lock.
use warp_cache.Base.{
  ℕ, ◌+◌, ◌%◌, ◌^◌, ◌≤◌, ◌<◌, ◌≡◌, ◌≢◌, ◌⊎◌, inl, inr, refl, sym, subst, ◌∙◌, arith, true, Option,
  some, List, ◌∷◌, ℤ, length,
}
use warp_cache.Shm.HashTable.Ring.{IsPow2}
use warp_cache.Shm.Region.{Region}
use warp_cache.Shm.Lock.{
  Shared, init, read_validate, Pc, idle, reading, writing, leaving, Move, read, wait_even,
  read_begin, load, valid, retry, finish, write, wait_free, see_free, cas_win, cas_fail, load_enter,
  store_enter, store, load_leave, store_leave, unlock, System, StepOf, pick, Reach, start, later,
}
use warp_cache.Shm.Lock.Invariant.{Local, Reach-Inv}
use warp_cache.Shm.Lock.Atomic.{Move-words}
use warp_cache.Shm.Cache.{OptimisticResult, ht_lookup_checked}
use warp_cache.Shm.Cache.History
use warp_cache.Shm.Cache.History.{Event, latest, get_finish-latest, Runs-Holds}
use warp_cache.Shm.Optimistic.{ret, Runs, optimistic_prog, region_of}
use warp_cache.Shm.Optimistic.Linear.{validated-ht_lookup_checked}
use warp_cache.Shm.Optimistic.Agrees.{Agrees, Agrees-ht_lookup_checked}

module _ (capacity max_key_size max_value_size : ℕ) (ttl_nanos : Option ℕ) where
  -- The words are a region that the events lead to.
  pub record Whole (events : List Event) (words : ℕ → ℕ) : Type 0 where
    pub region : Region
    pub history : History.Runs capacity max_key_size max_value_size ttl_nanos events region
    pub agrees : Agrees (region_of words) region

  -- The states after `k` steps of any threads. When a thread leaves its critical section, it has made of the
  -- region that it found one that one more event leads to, or none more.
  pub data Sections (data_words : ℕ → ℕ) : List Event → ℕ → System → Type 0 where
    begin :
        {events : List Event}
        → Whole events data_words
        → Sections data_words events 0 (record { mem = init data_words; pc = λ _. idle })
    other :
        {events : List Event} {k : ℕ} {s t : System} (i : ℕ)
        → Sections data_words events k s
        → ((q : ℕ) → s.pc i ≢ leaving q)
        → StepOf i s t
        → Sections data_words events (k + 1) t
    leave :
        {events events' : List Event} {k : ℕ} {s t : System} (i q : ℕ)
        → Sections data_words events k s
        → s.pc i ≡ leaving q
        → (events' ≡ events) ⊎ ((e : Event) × (events' ≡ e ∷ events))
        → Whole events' s.mem.data_words
        → StepOf i s t
        → Sections data_words events' (k + 1) t

-- With an even counter afterwards, no word has changed, and the counter was even before.
still :
    {m m' : Shared} {p p' : Pc}
    → Move m p m' p'
    → Local m p
    → ((q : ℕ) → p ≢ leaving q)
    → m'.seq % 2 ≡ 0
    → (m.seq % 2 ≡ 0) × (m'.data_words ≡ m.data_words)
still read l never z = (z, refl)
still (wait_even _) l never z = (z, refl)
still (read_begin _) l never z = (z, refl)
still (load a) l never z = (z, refl)
still (valid _) l never z = (z, refl)
still (retry _) l never z = (z, refl)
still finish l never z = (z, refl)
still write l never z = (z, refl)
still (wait_free _) l never z = (z, refl)
still (see_free _) l never z = (z, refl)
still (cas_win _) l never z = (z, refl)
still cas_fail l never z = (z, refl)
still load_enter l never z = (z, refl)
still store_enter l never z = absurd (omega (arith, l.0, l.1, z))
still (store a v) l never z = absurd (omega (arith, l, z))
still load_leave l never z = (z, refl)
still (store_leave {prev}) l never z = absurd (never prev refl)
still unlock l never z = (z, refl)

module _ (capacity max_key_size max_value_size : ℕ) (ttl_nanos : Option ℕ)
    (data_words : ℕ → ℕ) where
  abbrev Kept : List Event → ℕ → System → Type 0
  Kept events k s =
      Reach data_words k s
      × (s.mem.seq % 2 ≡ 0
          → Whole capacity max_key_size max_value_size ttl_nanos events s.mem.data_words)

  other-Kept :
      (events : List Event) (k i : ℕ) (s : System) {t : System}
      → k < 2 ^ 64
      → Kept events k s
      → ((q : ℕ) → s.pc i ≢ leaving q)
      → StepOf i s t
      → Kept events (k + 1) t
  other-Kept events k i s small (r, whole) never (pick {m} {p} move) = (
    later i r (pick move),
    (λ z.
        let (even, same) = still move ((Reach-Inv small r).locals i) never z in
        subst (λ w. Whole capacity max_key_size max_value_size ttl_nanos events w) (sym same)
          (whole even)),
  )

  leave-Kept :
      (events : List Event) (k i q : ℕ) (s : System) {t : System}
      → Reach data_words k s
      → s.pc i ≡ leaving q
      → Whole capacity max_key_size max_value_size ttl_nanos events s.mem.data_words
      → StepOf i s t
      → Kept events (k + 1) t
  leave-Kept events k i q s r here whole (pick {m} {p} move) = (
    later i r (pick move),
    (λ z. elim (Move-words move) [
      | inl w ↦ let d : leaving q ≡ writing = sym here ∙ w in absurd (ground arith)
      | inr same ↦
          subst (λ w. Whole capacity max_key_size max_value_size ttl_nanos events w) (sym same)
            whole
    ]),
  )

  Sections-Kept :
      {events : List Event} {k : ℕ} {s : System}
      → k ≤ 2 ^ 64
      → Sections capacity max_key_size max_value_size ttl_nanos data_words events k s
      → Kept events k s
  unfolding init
  Sections-Kept small (begin whole) = (start, λ z. whole)
  Sections-Kept small (other {events} {k} {s} i before never step) =
      other-Kept events k i s (omega arith) (Sections-Kept (omega arith) before) never step
  Sections-Kept small (leave {events' = events'} {k = k} {s = s} i q before here one whole step) =
      leave-Kept events' k i q s (Sections-Kept (omega arith) before).0 here whole step

module _ {capacity max_key_size max_value_size : ℕ} {ttl_nanos : Option ℕ} (low : 1 ≤ capacity)
    (high : capacity ≤ 2 ^ 30) (sizes : max_key_size + max_value_size < 2 ^ 32) where
  after_events :
      (events : List Event) (w : ℕ → ℕ) (now key_hash : ℕ) (key : List ℕ)
      (result : OptimisticResult)
      → Whole capacity max_key_size max_value_size ttl_nanos events w
      → length key < 2 ^ 32
      → result ≡ ht_lookup_checked (region_of w) now key_hash key
      → (r : Region) × History.Runs capacity max_key_size max_value_size ttl_nanos events r
        × (result ≡ ht_lookup_checked r now key_hash key)
        × ((v : List ℕ) (index : ℤ)
            → result ≡ OptimisticResult.hit v index
            → latest events key_hash key ≡ some v)
  after_events events w now key_hash key result whole small looked =
      let r = whole.region in
      let (n, held) = Runs-Holds low high sizes whole.history in
      let sized : IsPow2 r.header.ht_capacity =
        subst (λ x. IsPow2 x) (sym held.cache.shape.ht_capacity) held.cache.table.sized in
      let there =
        looked ∙ Agrees-ht_lookup_checked (region_of w) r now key_hash key whole.agrees sized in
      (
        r,
        whole.history,
        there,
        (λ v index e.
            (get_finish-latest low high sizes now key_hash key v index whole.history whole.history
              small (sym there ∙ e)).0),
      )

  -- A cache of 1 to 2^30 entries whose sizes of keys and values together are below 2^32, used by any number of processes that
  -- make one operation in each critical section. In every state reached in fewer than 2^64 steps: if a reader without a lock has run
  -- through the loads of get_optimistic to a result, for a key shorter than 2^32 bytes, and `read_validate` returns true, then the result is
  -- that of the lookup on a region to which exactly the operations lead whose critical sections have ended; and the value of a hit
  -- is the one that was inserted last under the hash and the key.
  pub get_optimistic-latest :
      {data_words : ℕ → ℕ} {events : List Event} {k : ℕ} {s : System} (i q : ℕ)
      (seen : List (ℕ × ℕ)) (now key_hash : ℕ) (key : List ℕ) (result : OptimisticResult)
      → k < 2 ^ 64
      → Sections capacity max_key_size max_value_size ttl_nanos data_words events k s
      → s.pc i ≡ reading q seen
      → Runs (optimistic_prog now key_hash key) seen (ret result)
      → read_validate s.mem q ≡ true
      → length key < 2 ^ 32
      → (r : Region) × History.Runs capacity max_key_size max_value_size ttl_nanos events r
        × (result ≡ ht_lookup_checked r now key_hash key)
        × ((v : List ℕ) (index : ℤ)
            → result ≡ OptimisticResult.hit v index
            → latest events key_hash key ≡ some v)
  unfolding read_validate
  get_optimistic-latest {data_words} {events} {k} {s} i q seen now key_hash key result small
        sections here run valid_read short =
      let (r, whole) =
        Sections-Kept capacity max_key_size max_value_size ttl_nanos data_words (omega arith)
          sections in
      let l = subst (λ p. Local s.mem p) here ((Reach-Inv small r).locals i) in
      let same : s.mem.seq ≡ q = ground arith in
      let even : s.mem.seq % 2 ≡ 0 = omega (arith, l.1, same) in
      after_events events s.mem.data_words now key_hash key result (whole even) short
        (validated-ht_lookup_checked i q seen now key_hash key result small r here run valid_read)
