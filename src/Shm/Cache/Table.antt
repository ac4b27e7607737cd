-- ===== src/Shm/Cache/Table.antt =====
-- The hash table of a cache: the buckets that are stored are those of the slots on the list.
pub mod Changes
use warp_cache.Base.{
  ℕ, zero, suc, ◌^◌, ◌≤◌, ◌<◌, ◌≡◌, ◌≢◌, ◌⊎◌, ◌↔◌, inl, inr, refl, sym, ap, subst, ◌∙◌, arith,
  ℕ_discrete, true, Bool-cases, some, List, [], ℤ, pos, as_usize, update, length,
}
use warp_cache.Base.Pigeonhole.{pigeonhole}
use warp_cache.Shm.Layout.{Bucket, Slot}
use warp_cache.Shm.HashTable.{ht_lookup, ht_insert, ht_remove, empty_bucket}
use warp_cache.Shm.HashTable.Ring.{IsPow2}
use warp_cache.Shm.HashTable.Probe.{is_full, Full, NoGap}
use warp_cache.Shm.HashTable.Insert.{Empty, ht_insert-Place, update-NoGap}
use warp_cache.Shm.HashTable.Remove.{OnceBut, Stored}
use warp_cache.Shm.HashTable.Laws.{
  IsIndexed, Holds, stored_key, slot_of, ht_lookup_iff, ht_insert_lem, ht_remove-Removed,
}
use warp_cache.Shm.Ordering.List.{On}
use warp_cache.Shm.Ordering.Members.{Taken}

abbrev pub bucket_of : (ℕ → Slot) → ℕ → Bucket
bucket_of slots i = record { hash = (slots i).key_hash; slot_index = pos i }

-- A table of `n` buckets over the slots of `xs`, all below `capacity`, which is less than `n`.
pub record IsTableOf (capacity n : ℕ) (ht : ℕ → Bucket) (slots : ℕ → Slot) (xs : List ℕ)
    : Type 0 where
  pub sized : IsPow2 n
  pub wide : capacity < n
  pub bound : (i : ℕ) → On i xs → i < capacity
  pub no_gap : NoGap n ht
  pub once : OnceBut n n ht
  pub stored : (b : Bucket) → Stored n ht b ↔ ((i : ℕ) × On i xs × (b ≡ bucket_of slots i))
  pub live : (i : ℕ) → On i xs → (slots i).occupied ≢ 0
  pub distinct :
      (i j : ℕ)
      → On i xs
      → On j xs
      → (slots i).key_hash ≡ (slots j).key_hash
      → stored_key (slots i) ≡ stored_key (slots j)
      → i ≡ j

find_empty :
    (n : ℕ) (ht : ℕ → Bucket) → ((e : ℕ) × (e < n) × Empty (ht e)) ⊎ ((p : ℕ) → p < n → Full (ht p))
find_empty zero ht = inr (λ p h. absurd (omega arith))
find_empty (suc n) ht = elim (find_empty n ht) [
  | inl (e, he, empty) ↦ inl (e, omega arith, empty)
  | inr full ↦ elim (Bool-cases (is_full (ht n))) [
    | inr empty ↦ inl (n, omega arith, empty)
    | inl last ↦ inr (λ p h. elim (ℕ_discrete p n) [
      | yes e ↦ subst (λ k. Full (ht k)) (sym e) last
      | no ne ↦ full p (omega arith)
    ])
  ]
]

module _ {capacity n : ℕ} {ht : ℕ → Bucket} {slots : ℕ → Slot} {xs : List ℕ}
    (table : IsTableOf capacity n ht slots xs) where
  open table use {sized, wide, bound, no_gap, once, stored, live, distinct}

  -- the slot of a full bucket
  pub slot_behind : (p : ℕ) → p < n → Full (ht p) → (i : ℕ) × On i xs × (ht p ≡ bucket_of slots i)
  slot_behind p hp full = (stored (ht p)).0 (p, hp, full, refl)

  pub room : (e : ℕ) × (e < n) × Empty (ht e)
  room = elim (find_empty n ht) [
    | inl found ↦ found
    | inr full ↦
        let few : n ≤ capacity =
          pigeonhole n capacity (λ p. as_usize (ht p).slot_index)
            (λ p hp.
              let (i, on, e) = slot_behind p hp (full p hp) in
              subst (λ (b : Bucket). as_usize b.slot_index < capacity) (sym e) (bound i on))
            (λ p q hp hq same.
              let (i, on, e) = slot_behind p hp (full p hp) in
              let (j, on', e') = slot_behind q hq (full q hq) in
              let d : i ≡ j =
                sym (ap (λ (b : Bucket). as_usize b.slot_index) e)
                ∙ (same ∙ ap (λ (b : Bucket). as_usize b.slot_index) e') in
              once p q hp hq (λ z. omega arith) (λ z. omega arith) (full p hp)
                (e ∙ (ap (λ k. bucket_of slots k) d ∙ sym e'))) in
        absurd (omega arith)
  ]

  pub IsTableOf-IsIndexed : IsIndexed n ht slots
  IsTableOf-IsIndexed = record {
    table = record { sized = sized; no_gap = no_gap; room = room };
    live = λ p hp full.
        let (i, on, e) = slot_behind p hp full in
        subst (λ b. (slot_of slots b).occupied ≢ 0) (sym e) (live i on);
    distinct = λ p q hp hq fp fq same key.
        let (i, on, e) = slot_behind p hp fp in
        let (j, on', e') = slot_behind q hq fq in
        let h : (slots i).key_hash ≡ (slots j).key_hash =
          sym (ap (λ (b : Bucket). b.hash) e) ∙ (same ∙ ap (λ (b : Bucket). b.hash) e') in
        let k : stored_key (slots i) ≡ stored_key (slots j) =
          sym (ap (λ b. stored_key (slot_of slots b)) e)
          ∙ (key ∙ ap (λ b. stored_key (slot_of slots b)) e') in
        once p q hp hq (λ z. omega arith) (λ z. omega arith) fp
          (e ∙ (ap (λ x. bucket_of slots x) (distinct i j on on' h k) ∙ sym e'));
  }

  -- The bucket that holds the key of a slot on the list.
  pub Holds-slot :
      (i : ℕ)
      → On i xs
      → (p : ℕ) × Holds n ht slots (slots i).key_hash (stored_key (slots i)) p
        × (ht p ≡ bucket_of slots i)
  Holds-slot i on =
      let (p, hp, full, e) = (stored (bucket_of slots i)).1 (i, on, refl) in
      (
        p,
        record {
          within = hp;
          full = full;
          hash = ap (λ (b : Bucket). b.hash) e;
          key = ap (λ b. stored_key (slot_of slots b)) e;
        },
        e,
      )

  pub lookup_slot :
      (i : ℕ) (key_hash : ℕ) (key : List ℕ)
      → length key < 2 ^ 32
      → On i xs
      → (slots i).key_hash ≡ key_hash
      → stored_key (slots i) ≡ key
      → ht_lookup ht n slots key_hash key ≡ some (pos i)
  lookup_slot i key_hash key small on h k =
      let (p, holds, e) = Holds-slot i on in
      (ht_lookup_iff IsTableOf-IsIndexed key_hash key small (pos i)).1 (
        p,
        subst (λ x. Holds n ht slots x key p) h
            (subst (λ x. Holds n ht slots (slots i).key_hash x p) k holds),
        ap (λ (b : Bucket). b.slot_index) e,
      )

  pub slot_of_lookup :
      (s : ℤ) (key_hash : ℕ) (key : List ℕ)
      → length key < 2 ^ 32
      → ht_lookup ht n slots key_hash key ≡ some s
      → (i : ℕ) × On i xs
        × (s ≡ pos i)
        × ((slots i).key_hash ≡ key_hash)
        × (stored_key (slots i) ≡ key)
  slot_of_lookup s key_hash key small found =
      let (p, holds, e) = (ht_lookup_iff IsTableOf-IsIndexed key_hash key small s).0 found in
      let (i, on, b) = slot_behind p holds.within holds.full in
      (
        i,
        on,
        sym e ∙ ap (λ (x : Bucket). x.slot_index) b,
        sym (ap (λ (x : Bucket). x.hash) b) ∙ holds.hash,
        sym (ap (λ x. stored_key (slot_of slots x)) b) ∙ holds.key,
      )

-- What of a slot the table depends on.
pub record SameKey (s s' : Slot) : Type 0 where
  pub hash : s'.key_hash ≡ s.key_hash
  pub key : stored_key s' ≡ stored_key s
  pub occupied : s'.occupied ≡ s.occupied

pub IsTableOf-frame :
    {capacity n : ℕ} {ht : ℕ → Bucket} {slots : ℕ → Slot} (slots' : ℕ → Slot) {xs : List ℕ}
    → IsTableOf capacity n ht slots xs
    → ((i : ℕ) → On i xs → SameKey (slots i) (slots' i))
    → IsTableOf capacity n ht slots' xs
IsTableOf-frame {slots} slots' table same =
    let same_bucket : (i : ℕ) → On i _ → bucket_of slots' i ≡ bucket_of slots i =
      λ i on. ap (λ h. record { hash = h; slot_index = pos i }) (same i on).hash in
    record {
      sized = table.sized;
      wide = table.wide;
      bound = table.bound;
      no_gap = table.no_gap;
      once = table.once;
      stored = λ b. (
        (λ s. let (i, on, e) = (table.stored b).0 s in (i, on, e ∙ sym (same_bucket i on))),
        (λ (i, on, e). (table.stored b).1 (i, on, e ∙ same_bucket i on)),
      );
      live = λ i on e. table.live i on (sym (same i on).occupied ∙ e);
      distinct = λ i j on on' h k.
          table.distinct i j on on' (sym (same i on).hash ∙ (h ∙ (same j on').hash))
            (sym (same i on).key ∙ (k ∙ (same j on').key));
    }
