-- ===== src/Shm/HashTable/Remove.antt =====
-- One round of the backward-shift loop of `ht_remove` of src/shm/hashtable.rs.
pub mod Loop
use warp_cache.Base.{
  ℕ, zero, suc, ◌+◌, ◌≤◌, ◌<◌, ◌≡◌, ◌≢◌, refl, sym, ap, subst, ◌∙◌, arith, ℕ_discrete, dec_lt, true,
  false, Bool-cases, inl, inr, ◌↔◌, some, update, lt→ltb, ltb→lt,
}
use warp_cache.Shm.Layout.{Bucket}
use warp_cache.Shm.HashTable.{next_index, should_move, shift, remove_at, empty_bucket}
use warp_cache.Shm.HashTable.Ring.{
  IsPow2, succ_on, dist, start_index-lt, next_index-eq, succ_on-lt, should_move-eq,
}
use warp_cache.Shm.HashTable.Probe.{is_full, Full, ideal, NoGap, dist_step, dist_self}
use warp_cache.Shm.HashTable.Insert.{Empty, Full-at}

-- A bucket other than `e` holds the entry.
abbrev pub StoredBut : ℕ → ℕ → (ℕ → Bucket) → Bucket → Type 0
StoredBut e n ht b = (i : ℕ) × (i < n) × (i ≢ e) × Full (ht i) × (ht i ≡ b)

-- No bucket is there twice, leaving out the one at `e`.
abbrev pub OnceBut : ℕ → ℕ → (ℕ → Bucket) → Type 0
OnceBut e n ht = (i k : ℕ) → i < n → k < n → i ≢ e → k ≢ e → Full (ht i) → ht i ≡ ht k → i ≡ k

-- The state of the loop: `e` is the hole, `j` the bucket that is looked at, `q` an empty bucket at
-- or behind `j`. The hole still shows an old entry.
pub record Hole (n : ℕ) (r : ℕ) (ht₀ ht : ℕ → Bucket) (e j q : ℕ) : Type 0 where
  pub e_lt : e < n
  pub j_lt : j < n
  pub q_lt : q < n
  pub e_full : Full (ht e)
  pub q_empty : Empty (ht q)
  pub j_after : 0 < dist n e j
  pub q_after : dist n e j + dist n j q ≡ dist n e q
  pub path :
      (i p : ℕ)
      → i < n
      → p < n
      → i ≢ e
      → Full (ht i)
      → dist n (ideal n (ht i)) p < dist n (ideal n (ht i)) i
      → Full (ht p)
  pub scanned :
      (i : ℕ)
      → i < n
      → i ≢ e
      → Full (ht i)
      → dist n e i < dist n e j
      → dist n (ideal n (ht i)) i ≤ dist n (ideal n (ht i)) e
  pub kept : (b : Bucket) → StoredBut e n ht b ↔ StoredBut r n ht₀ b
  pub once : OnceBut r n ht₀ → OnceBut e n ht
  pub outside : (p : ℕ) → n ≤ p → ht p ≡ ht₀ p

pub dist_injective : (n e i j : ℕ) → e < n → i < n → j < n → dist n e i ≡ dist n e j → i ≡ j
dist_injective n e i j he hi hj h = ground arith

-- A bucket behind `j` that has `e` on its path has `j` on it too.
dist_through :
    (n a e j i : ℕ)
    → a < n
    → e < n
    → j < n
    → i < n
    → dist n a e < dist n a i
    → dist n e j < dist n e i
    → dist n a j < dist n a i
dist_through n a e j i ha he hj hi h k = ground arith

dist_next :
    (n e j q : ℕ)
    → e < n
    → j < n
    → q < n
    → j ≢ q
    → dist n e j + dist n j q ≡ dist n e q
    → (dist n e (succ_on n j) ≡ suc (dist n e j))
      × (dist n e (succ_on n j) + dist n (succ_on n j) q ≡ dist n e q)
dist_next n e j q he hj hq ne h = ground arith

pub dist_one :
    (n j q : ℕ)
    → j < n
    → q < n
    → j ≢ q
    → (dist n j (succ_on n j) ≡ 1) × (dist n j (succ_on n j) + dist n (succ_on n j) q ≡ dist n j q)
dist_one n j q hj hq ne = ground arith

module _ {n : ℕ} {ht : ℕ → Bucket} {e j : ℕ} (b : Bucket) (he : e < n) (hj : j < n) (ne : e ≢ j)
    (full_j : Full (ht j)) where
  moved_back : StoredBut j n (update ht e (ht j)) b → StoredBut e n ht b
  moved_back (i, hi, ne_i, full, same) = elim (ℕ_discrete e i) [
    | yes p ↦ (j, hj, (λ q. ne (sym q)), full_j, ground arith)
    | no p ↦ (i, hi, (λ q. p (sym q)), ground arith, ground arith)
  ]

  moved : StoredBut e n ht b → StoredBut j n (update ht e (ht j)) b
  moved (i, hi, ne_i, full, same) = elim (ℕ_discrete i j) [
    | yes p ↦ (e, he, ne, ground arith, ground (arith, subst (λ x. ht x ≡ b) p same))
    | no p ↦ (i, hi, p, ground arith, ground arith)
  ]

moved_once :
    {n : ℕ} {ht : ℕ → Bucket} {e j : ℕ}
    → e < n
    → j < n
    → e ≢ j
    → Full (ht j)
    → OnceBut e n ht
    → OnceBut j n (update ht e (ht j))
moved_once {n} {ht} {e} {j} he hj ne full_j once i k hi hk ne_i ne_k full same =
    elim (ℕ_discrete e i) [
      | yes p ↦ elim (ℕ_discrete e k) [
        | yes q ↦ sym p ∙ q
        | no q ↦
            let e_j : ht j ≡ ht k = ground arith in
            absurd (ne_k (sym (once j k hj hk (λ d. ne (sym d)) (λ d. q (sym d)) full_j e_j)))
      ]
      | no p ↦ elim (ℕ_discrete e k) [
        | yes q ↦
            let e_i : ht i ≡ ht j = ground arith in
            let full_i : Full (ht i) = ground arith in
            absurd (ne_i (once i j hi hj (λ d. p (sym d)) (λ d. ne (sym d)) full_i e_i))
        | no q ↦ once i k hi hk (λ d. p (sym d)) (λ d. q (sym d)) (ground arith) (ground arith)
      ]
    ]

module _ {n : ℕ} (sized : IsPow2 n) {r : ℕ} {ht₀ ht : ℕ → Bucket} {e j q : ℕ}
    (h : Hole n r ht₀ ht e j q) where
  open h use {
    e_lt, j_lt, q_lt, e_full, q_empty, j_after, q_after, path, scanned, kept, once, outside,
  }

  e≢j : e ≢ j
  e≢j p = ground (arith, subst (λ x. 0 < dist n x j) p j_after, dist_self n j)

  at_lt : (i : ℕ) → ideal n (ht i) < n
  at_lt i = start_index-lt sized (ht i).hash

  -- At an empty bucket no entry has the hole on its path.
  pub clear_path :
      Empty (ht j)
      → (i : ℕ) → i < n
      → i ≢ e
      → Full (ht i)
      → dist n (ideal n (ht i)) i ≤ dist n (ideal n (ht i)) e
  clear_path stop i hi ne full =
      elim (dec_lt (dist n (ideal n (ht i)) e) (dist n (ideal n (ht i)) i)) [
        | no ok ↦ omega arith
        | yes bad ↦ elim (dec_lt (dist n e i) (dist n e j)) [
          | yes seen ↦ scanned i hi ne full seen
          | no unseen ↦
              let apart : dist n e i ≢ dist n e j = λ p.
                ground
                  (arith, subst (λ x. Full (ht x)) (dist_injective n e i j e_lt hi j_lt p) full) in
              let near =
                dist_through n (ideal n (ht i)) e j i (at_lt i) e_lt j_lt hi bad (omega arith) in
              absurd (ground (arith, path i j hi j_lt ne full near))
        ]
      ]

  pub j≢q : Full (ht j) → j ≢ q
  j≢q full p = ground (arith, subst (λ x. Full (ht x)) p full)

  -- The entry at `j` stays: its path does not meet the hole.
  pub stay :
      Full (ht j) → should_move e j (ideal n (ht j)) ≡ false → Hole n r ht₀ ht e (succ_on n j) q
  stay full keep =
      let next = dist_next n e j q e_lt j_lt q_lt (j≢q full) q_after in
      record {
        e_lt = e_lt;
        j_lt = succ_on-lt sized j j_lt;
        q_lt = q_lt;
        e_full = e_full;
        q_empty = q_empty;
        j_after = omega arith;
        q_after = next.1;
        path = path;
        scanned = λ i hi ne full_i near. elim (ℕ_discrete i j) [
          | yes p ↦ subst (λ x. dist n (ideal n (ht x)) x ≤ dist n (ideal n (ht x)) e) (sym p) here
          | no p ↦
              let apart : dist n e i ≢ dist n e j =
                λ d. p (dist_injective n e i j e_lt hi j_lt d) in
              scanned i hi ne full_i (omega arith)
        ];
        kept = kept;
        once = once;
        outside = outside;
      }
    where
      here : dist n (ideal n (ht j)) j ≤ dist n (ideal n (ht j)) e
      here = ground (
        arith,
        should_move-eq n e j (ideal n (ht j)) e_lt j_lt (at_lt j) e≢j,
        lt→ltb (dist n (ideal n (ht j)) e) (dist n (ideal n (ht j)) j),
      )

  -- The entry at `j` moves into the hole, and `j` becomes the hole.
  pub move :
      Full (ht j)
      → should_move e j (ideal n (ht j)) ≡ true
      → Hole n r ht₀ (update ht e (ht j)) j (succ_on n j) q
  move full go =
      let next = dist_one n j q j_lt q_lt (j≢q full) in
      record {
        e_lt = j_lt;
        j_lt = succ_on-lt sized j j_lt;
        q_lt = q_lt;
        e_full = ground arith;
        q_empty = ground arith;
        j_after = omega arith;
        q_after = next.1;
        path = λ i p hi hp ne full_i near. elim (ℕ_discrete e i) [
          | yes d ↦
              Full-at ht (ht j) full e p
                (path j p j_lt hp (λ x. e≢j (sym x)) full (at_e i p d near))
          | no d ↦
              Full-at ht (ht j) full e p
                (path i p hi hp (λ x. d (sym x)) (ground arith) (ground arith))
        ];
        scanned = λ i hi ne full_i near.
            absurd (ne (dist_injective n j i j j_lt hi j_lt (ground (arith, dist_self n j))));
        kept = λ b. (
          (λ s. (kept b).0 (moved_back b e_lt j_lt e≢j full s)),
          (λ s. moved b e_lt j_lt e≢j full ((kept b).1 s)),
        );
        once = λ o. moved_once e_lt j_lt e≢j full (once o);
        outside = λ p hp. ground (arith, outside p hp);
      }
    where
      on_path : dist n (ideal n (ht j)) e < dist n (ideal n (ht j)) j
      on_path =
          ltb→lt _ _ (sym (should_move-eq n e j (ideal n (ht j)) e_lt j_lt (at_lt j) e≢j) ∙ go)

      at_e :
          (i p : ℕ)
          → e ≡ i
          → dist n (ideal n (update ht e (ht j) i)) p < dist n (ideal n (update ht e (ht j) i)) i
          → dist n (ideal n (ht j)) p < dist n (ideal n (ht j)) j
      at_e i p d near = ground (arith, on_path)

abbrev pub Stored : ℕ → (ℕ → Bucket) → Bucket → Type 0
Stored n ht b = (i : ℕ) × (i < n) × Full (ht i) × (ht i ≡ b)

-- What `remove_at` leaves: no gap, every entry but the one at `r`, and nothing written outside.
pub record Removed (n r : ℕ) (ht ht' : ℕ → Bucket) : Type 0 where
  pub no_gap : NoGap n ht'
  pub kept : (b : Bucket) → Stored n ht' b ↔ StoredBut r n ht b
  pub once : OnceBut r n ht → OnceBut n n ht'
  pub room : (e : ℕ) × (e < n) × Empty (ht' e)
  pub outside : (p : ℕ) → n ≤ p → ht' p ≡ ht p
