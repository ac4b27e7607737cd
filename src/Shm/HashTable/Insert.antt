-- ===== src/Shm/HashTable/Insert.antt =====
-- Insertion fills one empty bucket on the probe path and leaves no gap.
use warp_cache.Base.{
  ℕ, zero, suc, ◌<◌, ◌≡◌, ◌≢◌, subst, ◌∙◌, arith, ℕ_discrete, false, Bool-cases, inl, inr, ℤ,
  update,
}
use warp_cache.Shm.Layout.{Bucket}
use warp_cache.Shm.HashTable.{start_index, next_index, insert_from, ht_insert}
use warp_cache.Shm.HashTable.Ring.{IsPow2, succ_on, dist, start_index-lt, next_index-eq, succ_on-lt}
use warp_cache.Shm.HashTable.Probe.{is_full, Full, ideal, NoGap, dist_step, dist_self}

abbrev pub Empty : Bucket → Type 0
Empty b = is_full b ≡ false

prev_path :
    (n idx k p : ℕ)
    → idx < n
    → k < n
    → p < n
    → idx ≢ k
    → idx ≢ p
    → dist n idx p < dist n idx k
    → dist n (succ_on n idx) p < dist n (succ_on n idx) k
prev_path n idx k p h hk hp ne_k ne_p near = ground arith

-- Where the new entry goes: the first empty bucket of the probe path.
pub record Place (n : ℕ) (ht : ℕ → Bucket) (idx : ℕ) (entry : Bucket) (ht' : ℕ → Bucket)
    : Type 0 where
  pub at : ℕ
  pub within : at < n
  pub was_empty : Empty (ht at)
  pub result : ht' ≡ update ht at entry
  pub path : (p : ℕ) → p < n → dist n idx p < dist n idx at → Full (ht p)

module _ {n : ℕ} (sized : IsPow2 n) (ht : ℕ → Bucket) (key_hash : ℕ) (slot_index : ℤ) where
  abbrev entry : Bucket
  entry = record { hash = key_hash; slot_index = slot_index }

  insert_here :
      (rounds idx : ℕ)
      → Empty (ht idx)
      → insert_from (suc rounds) n ht key_hash slot_index idx ≡ update ht idx entry
  unfolding insert_from
  insert_here rounds idx empty = ground arith

  insert_step :
      (rounds idx : ℕ)
      → Full (ht idx)
      → insert_from (suc rounds) n ht key_hash slot_index idx
        ≡ insert_from rounds n ht key_hash slot_index (next_index n idx)
  unfolding insert_from
  insert_step rounds idx full = ground arith

  insert_from-Place :
      (rounds idx e : ℕ)
      → idx < n
      → e < n
      → dist n idx e < rounds
      → Empty (ht e)
      → Place n ht idx entry (insert_from rounds n ht key_hash slot_index idx)
  insert_from-Place zero idx e h he near empty = absurd (ground arith)
  insert_from-Place (suc rounds) idx e h he near empty = elim (Bool-cases (is_full (ht idx))) [
    | inr here ↦ record {
      at = idx;
      within = h;
      was_empty = here;
      result = insert_here rounds idx here;
      path = λ p hp near_p. absurd (ground (arith, dist_self n idx));
    }
    | inl full ↦
        let ne : idx ≢ e = λ q. ground (arith, subst (λ x. Full (ht x)) q full) in
        let rest =
          insert_from-Place rounds (succ_on n idx) e (succ_on-lt sized idx h) he
            (omega (arith, dist_step n idx e h he ne)) empty in
        record {
          at = rest.at;
          within = rest.within;
          was_empty = rest.was_empty;
          result = insert_step rounds idx full ∙ rw (next_index-eq sized idx h) rest.result;
          path = λ p hp near_p. elim (ℕ_discrete idx p) [
            | yes q ↦ subst (λ x. Full (ht x)) q full
            | no ne_p ↦
                let ne_k : idx ≢ rest.at =
                  λ q. ground (arith, subst (λ x. Full (ht x)) q full, rest.was_empty) in
                rest.path p hp (prev_path n idx rest.at p h rest.within hp ne_k ne_p near_p)
          ];
        }
  ]

  -- The loop of `ht_insert` ends at an empty bucket.
  pub ht_insert-Place :
      (e : ℕ)
      → e < n
      → Empty (ht e)
      → Place n ht (start_index n key_hash) entry (ht_insert ht n key_hash slot_index)
  unfolding ht_insert
  ht_insert-Place e he empty =
      let start = start_index-lt sized key_hash in
      insert_from-Place n (start_index n key_hash) e start he (ground arith) empty

pub Full-at :
    (ht : ℕ → Bucket) (entry : Bucket)
    → Full entry
    → (k p : ℕ) → Full (ht p)
    → Full (update ht k entry p)
Full-at ht entry full k p h = ground arith

module _ {n : ℕ} (ht : ℕ → Bucket) (entry : Bucket) (full : Full entry) where
  pub update-NoGap :
      (k : ℕ)
      → k < n
      → NoGap n ht
      → Empty (ht k)
      → ((p : ℕ) → p < n → dist n (ideal n entry) p < dist n (ideal n entry) k → Full (ht p))
      → NoGap n (update ht k entry)
  update-NoGap k hk no_gap empty path i p hi hp full_i near = elim (ℕ_discrete k i) [
    | yes e ↦ Full-at ht entry full k p (path p hp (ground arith))
    | no ne ↦ Full-at ht entry full k p (no_gap i p hi hp (ground arith) (ground arith))
  ]
