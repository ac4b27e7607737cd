-- ===== src/Shm/Cache/Table/Changes.antt =====
-- One slot leaves the table of a cache, or enters it.
use warp_cache.Base.{
  ℕ, ◌^◌, ◌<◌, ◌≡◌, ◌≢◌, ◌⊎◌, inl, inr, refl, sym, ap, subst, ◌∙◌, arith, ℕ_discrete, true, some,
  List, [], ℤ, pos, update, length,
}
use warp_cache.Shm.Layout.{Bucket, Slot}
use warp_cache.Shm.HashTable.{ht_insert, ht_remove, empty_bucket}
use warp_cache.Shm.HashTable.Ring.{IsPow2}
use warp_cache.Shm.HashTable.Probe.{is_full, Full}
use warp_cache.Shm.HashTable.Insert.{ht_insert-Place, update-NoGap}
use warp_cache.Shm.HashTable.Remove.{OnceBut, Stored}
use warp_cache.Shm.HashTable.Laws.{stored_key, ht_insert_lem, ht_remove-Removed}
use warp_cache.Shm.Ordering.List.{On}
use warp_cache.Shm.Ordering.Members.{Taken}
use warp_cache.Shm.Cache.Table.{
  bucket_of, IsTableOf, slot_behind, Holds-slot, room, IsTableOf-IsIndexed,
}

pos_injective : {i j : ℕ} → ◌≡◌ {A = ℤ} (pos i) (pos j) → i ≡ j
pos_injective e = ground arith

-- Removing the key of a slot takes exactly that slot out of the table.
pub ht_remove-IsTableOf :
    {capacity n : ℕ} {ht : ℕ → Bucket} {slots : ℕ → Slot} {xs xs' : List ℕ} (i : ℕ)
    → IsTableOf capacity n ht slots xs
    → Taken i xs xs'
    → length (stored_key (slots i)) < 2 ^ 32
    → (ht' : ℕ → Bucket) × (ht_remove ht n slots (slots i).key_hash (stored_key (slots i))
        ≡ some (true, ht'))
      × IsTableOf capacity n ht' slots xs'
ht_remove-IsTableOf {n} {ht} {slots} {xs} {xs'} i table taken small =
    let (p, holds, at_p) = Holds-slot table i ((taken.there i).1 (inl refl)) in
    let (ht', run, done) =
      ht_remove-Removed (IsTableOf-IsIndexed table) (slots i).key_hash (stored_key (slots i)) small
        p holds in
    let old : (j : ℕ) → On j xs' → On j xs = λ j on. (taken.there j).1 (inr on) in
    let forth : (b : Bucket) → Stored n ht' b → (j : ℕ) × On j xs' × (b ≡ bucket_of slots j) =
      λ b s.
        let (k, hk, ne, full, e) = (done.kept b).0 s in
        let (j, on, e') = slot_behind table k hk full in
        elim ((taken.there j).0 on) [
          | inl d ↦ absurd (
              ne (
                table.once k p hk holds.within (λ z. omega arith) (λ z. omega arith) full
                  (e' ∙ (ap (λ x. bucket_of slots x) d ∙ sym at_p))))
          | inr on' ↦ (j, on', sym e ∙ e')
        ] in
    let back : (b : Bucket) → (j : ℕ) × On j xs' × (b ≡ bucket_of slots j) → Stored n ht' b =
      λ b (j, on, e).
        let (k, hk, full, e') = (table.stored b).1 (j, old j on, e) in
        (done.kept b).1 (
          k,
          hk,
          (λ d.
              let same : bucket_of slots j ≡ bucket_of slots i =
                sym e ∙ (sym e' ∙ (ap ht d ∙ at_p)) in
              taken.fresh (
                subst (λ x. On x xs') (pos_injective (ap (λ (x : Bucket). x.slot_index) same)) on)),
          full,
          e',
        ) in
    (
      ht',
      run,
      record {
        sized = table.sized;
        wide = table.wide;
        bound = λ j on. table.bound j (old j on);
        no_gap = done.no_gap;
        once = done.once (λ k q hk hq _ _ full e.
            table.once k q hk hq (λ z. omega arith) (λ z. omega arith) full e);
        stored = λ b. (forth b, back b);
        live = λ j on. table.live j (old j on);
        distinct = λ j k on on'. table.distinct j k (old j on) (old k on');
      },
    )

update_once :
    (n : ℕ) (ht : ℕ → Bucket) (at : ℕ) (b : Bucket)
    → ((k : ℕ) → k < n → Full (ht k) → ht k ≢ b)
    → Full b
    → OnceBut n n ht
    → OnceBut n n (update ht at b)
update_once n ht at b new full_b once k q hk hq ne_k ne_q full same = elim (ℕ_discrete at k) [
  | yes d ↦ elim (ℕ_discrete at q) [
    | yes d' ↦ sym d ∙ d'
    | no d' ↦
        let e : ht q ≡ b = ground arith in absurd (new q hq (subst (λ x. Full x) (sym e) full_b) e)
  ]
  | no d ↦ elim (ℕ_discrete at q) [
    | yes d' ↦
        let e : ht k ≡ b = ground arith in absurd (new k hk (subst (λ x. Full x) (sym e) full_b) e)
    | no d' ↦ once k q hk hq ne_k ne_q (ground arith) (ground arith)
  ]
]

-- Inserting a slot whose key is new puts exactly that slot into the table.
pub ht_insert-IsTableOf :
    {capacity n : ℕ} {ht : ℕ → Bucket} {slots : ℕ → Slot} {xs xs' : List ℕ} (i : ℕ)
    → IsTableOf capacity n ht slots xs'
    → Taken i xs xs'
    → i < capacity
    → (slots i).occupied ≢ 0
    → ((j : ℕ)
        → On j xs'
        → (slots j).key_hash ≡ (slots i).key_hash
        → ¬ (stored_key (slots j) ≡ stored_key (slots i)))
    → IsTableOf capacity n (ht_insert ht n (slots i).key_hash (pos i)) slots xs
ht_insert-IsTableOf {capacity} {n} {ht} {slots} {xs} {xs'} i table taken low used new =
    let (e, he, empty) = room table in
    let place = ht_insert-Place table.sized ht (slots i).key_hash (pos i) e he empty in
    let b' = bucket_of slots i in
    let added = (ht_insert_lem (IsTableOf-IsIndexed table).table (slots i).key_hash i).1 in
    let forth : (b : Bucket)
        → Stored n ht b ⊎ (b ≡ b')
        → (j : ℕ) × On j xs × (b ≡ bucket_of slots j) =
      λ b o. elim o [
        | inl s ↦ let (j, on, d) = (table.stored b).0 s in (j, (taken.there j).1 (inr on), d)
        | inr d ↦ (i, (taken.there i).1 (inl refl), d)
      ] in
    let back : (b : Bucket)
        → (j : ℕ) × On j xs × (b ≡ bucket_of slots j)
        → Stored n ht b ⊎ (b ≡ b') =
      λ b (j, on, d). elim ((taken.there j).0 on) [
        | inl z ↦ inr (d ∙ ap (λ x. bucket_of slots x) z)
        | inr o ↦ inl ((table.stored b).1 (j, o, d))
      ] in
    rw place.result (record {
      sized = table.sized;
      wide = table.wide;
      bound = λ j on. elim ((taken.there j).0 on) [
        | inl d ↦ subst (λ x. x < capacity) (sym d) low
        | inr o ↦ table.bound j o
      ];
      no_gap =
          update-NoGap ht b' refl place.at place.within table.no_gap place.was_empty place.path;
      once =
          update_once n ht place.at b'
            (λ k hk full e.
              let (j, on, e') = (table.stored b').0 (k, hk, full, e) in
              taken.fresh (
                subst (λ x. On x xs') (sym (pos_injective (ap (λ (x : Bucket). x.slot_index) e')))
                  on))
            refl table.once;
      stored = λ b. (
        (λ s. forth b ((added b).0 (subst (λ h. Stored n h b) (sym place.result) s))),
        (λ o. subst (λ h. Stored n h b) place.result ((added b).1 (back b o))),
      );
      live = λ j on. elim ((taken.there j).0 on) [
        | inl d ↦ subst (λ x. (slots x).occupied ≢ 0) (sym d) used
        | inr o ↦ table.live j o
      ];
      distinct = λ j k on on' h key. elim ((taken.there j).0 on) [
        | inl d ↦ elim ((taken.there k).0 on') [
          | inl d' ↦ d ∙ sym d'
          | inr o' ↦ absurd (
              new k o' (sym h ∙ ap (λ x. (slots x).key_hash) d)
                (sym key ∙ ap (λ x. stored_key (slots x)) d))
        ]
        | inr o ↦ elim ((taken.there k).0 on') [
          | inl d' ↦ absurd (
              new j o (h ∙ ap (λ x. (slots x).key_hash) d')
                (key ∙ ap (λ x. stored_key (slots x)) d'))
          | inr o' ↦ table.distinct j k o o' h key
        ]
      ];
    })

-- A table whose buckets are all empty stores no slot.
pub empty-IsTableOf :
    (capacity n : ℕ) (ht : ℕ → Bucket) (slots : ℕ → Slot)
    → IsPow2 n
    → capacity < n
    → ((p : ℕ) → p < n → ht p ≡ empty_bucket)
    → IsTableOf capacity n ht slots []
unfolding On
empty-IsTableOf capacity n ht slots sized wide empty =
    let no_entry : (p : ℕ) → p < n → ¬ Full (ht p) =
      λ p hp full. ground (arith, ap (λ b. is_full b) (empty p hp)) in
    record {
      sized = sized;
      wide = wide;
      bound = λ i on. absurd on;
      no_gap = λ i p hi hp full near. absurd (no_entry i hi full);
      once = λ i k hi hk ne ne' full e. absurd (no_entry i hi full);
      stored = λ b. ((λ (i, hi, full, e). absurd (no_entry i hi full)), (λ (i, on, e). absurd on));
      live = λ i on. absurd on;
      distinct = λ i j on. absurd on;
    }
