-- ===== src/Shm/HashTable/Probe.antt =====
-- The search loop finds a bucket that passes its test exactly if no gap hides it.
use warp_cache.Base.{
  ℕ, zero, suc, ◌<◌, ◌≡◌, ◌≢◌, arith, Bool, true, false, Bool-cases, Option-cases, ℕ_discrete, inl,
  inr, ap, ◌∙◌, none, some, is_none, if◌then◌else◌,
}
use warp_cache.Shm.Layout.{Bucket}
use warp_cache.Shm.HashTable.{start_index, next_index, probe}
use warp_cache.Shm.HashTable.Ring.{IsPow2, succ_on, dist, start_index-lt, next_index-eq, succ_on-lt}

abbrev pub is_full : Bucket → Bool
is_full b = if is_none b.slot_index then false else true

abbrev pub Full : Bucket → Type 0
Full b = is_full b ≡ true

abbrev pub ideal : ℕ → Bucket → ℕ
ideal n b = start_index n b.hash

-- No gap on the way from the ideal position of an entry to where it stands.
abbrev pub NoGap : ℕ → (ℕ → Bucket) → Type 0
NoGap n ht =
    (i p : ℕ)
    → i < n
    → p < n
    → Full (ht i)
    → dist n (ideal n (ht i)) p < dist n (ideal n (ht i)) i
    → Full (ht p)

pub dist_step : (n a i : ℕ) → a < n → i < n → a ≢ i → suc (dist n (succ_on n a) i) ≡ dist n a i
dist_step n a i ha hi ne = ground arith

pub dist_self : (n a : ℕ) → dist n a a ≡ 0
dist_self n a = ground arith

next_path :
    (n idx i p : ℕ)
    → idx < n
    → i < n
    → p < n
    → idx ≢ i
    → dist n (succ_on n idx) p < dist n (succ_on n idx) i
    → dist n idx p < dist n idx i
next_path n idx i p h hi hp ne near_p = ground arith

module _ {n : ℕ} (sized : IsPow2 n) (ht : ℕ → Bucket) (test : Bucket → Bool) where
  pub probe_sound :
      (rounds idx : ℕ) {i : ℕ}
      → idx < n
      → probe rounds n ht test idx ≡ some i
      → (i < n) × Full (ht i) × (test (ht i) ≡ true)
  unfolding probe
  probe_sound zero idx h e = ground arith
  probe_sound (suc rounds) idx {i} h e =
      let step = next_index-eq sized idx h in
      ground
        (arith, probe_sound rounds (next_index n idx) {i = i} (rw step (succ_on-lt sized idx h)))

  probe_step :
      (rounds idx : ℕ)
      → Full (ht idx)
      → test (ht idx) ≡ false
      → probe (suc rounds) n ht test idx ≡ probe rounds n ht test (next_index n idx)
  unfolding probe
  probe_step rounds idx full fails = ground arith

  probe_here :
      (rounds idx : ℕ)
      → Full (ht idx)
      → test (ht idx) ≡ true
      → probe (suc rounds) n ht test idx ≡ some idx
  unfolding probe
  probe_here rounds idx full pass = ground arith

  pub probe_complete :
      (rounds idx i : ℕ)
      → idx < n
      → i < n
      → dist n idx i < rounds
      → Full (ht i)
      → test (ht i) ≡ true
      → ((p : ℕ) → p < n → dist n idx p < dist n idx i → Full (ht p))
      → (j : ℕ) × (probe rounds n ht test idx ≡ some j)
  probe_complete zero idx i h hi near full pass path = absurd (ground arith)
  probe_complete (suc rounds) idx i h hi near full pass path = elim (ℕ_discrete idx i) [
    | yes e ↦ (idx, probe_here rounds idx (rw e full) (rw e pass))
    | no ne ↦
        let here : Full (ht idx) =
          path idx h (ground (arith, dist_self n idx, dist_step n idx i h hi ne)) in
        elim (Bool-cases (test (ht idx))) [
          | inl t ↦ (idx, probe_here rounds idx here t)
          | inr f ↦
              let step = next_index-eq sized idx h in
              let rest =
                probe_complete rounds (succ_on n idx) i (succ_on-lt sized idx h) hi
                  (omega (arith, dist_step n idx i h hi ne)) full pass
                  (λ p hp near_p. path p hp (next_path n idx i p h hi hp ne near_p)) in
              (rest.0, rw (probe_step rounds idx here f, step) rest.1)
        ]
  ]

-- Without a bucket that passes the test the search finds none.
pub probe-none :
    {n : ℕ} (sized : IsPow2 n) (ht : ℕ → Bucket) (test : Bucket → Bool) (rounds idx : ℕ)
    → idx < n
    → ((i : ℕ) → i < n → Full (ht i) → test (ht i) ≡ false)
    → probe rounds n ht test idx ≡ none
probe-none {n} sized ht test rounds idx h fails = elim (Option-cases (probe rounds n ht test idx)) [
  | inl e ↦ e
  | inr (i, e) ↦
      let (lt, full, pass) = probe_sound sized ht test rounds idx h e in
      absurd (ground (arith, fails i lt full))
]

module _ {n : ℕ} (sized : IsPow2 n) (ht : ℕ → Bucket) (test : Bucket → Bool) where
  -- An entry that alone passes the test is found from its ideal position.
  pub probe_finds :
      (i : ℕ)
      → NoGap n ht
      → i < n
      → Full (ht i)
      → test (ht i) ≡ true
      → ((j : ℕ) → j < n → Full (ht j) → test (ht j) ≡ true → j ≡ i)
      → probe n n ht test (ideal n (ht i)) ≡ some i
  probe_finds i no_gap hi full pass only =
      let start = start_index-lt sized (ht i).hash in
      let (j, found) =
        probe_complete sized ht test n (ideal n (ht i)) i start hi (ground arith) full pass
          (λ p hp near. no_gap i p hi hp full near) in
      let (lt, full_j, pass_j) = probe_sound sized ht test n (ideal n (ht i)) start found in
      found ∙ ap some (only j lt full_j pass_j)
