-- ===== src/Shm/Cache/Entries.antt =====
-- A victim of the SIEVE scan, a new entry, and a changed entry.
use warp_cache.Base.{
  ℕ, ◌+◌, ◌≤◌, ◌<◌, ◌≡◌, ◌∙◌, ◌≢◌, ◌⊎◌, inl, inr, refl, sym, ap, subst, arith, ℕ_discrete, List, [],
  ◌∷◌, ◌++◌, pos, slice, copy_to, copy_to-below, slice_congr,
}
use warp_cache.Shm.Layout.{Header, Slot, slot_none}
use warp_cache.Shm.HashTable.{ht_insert}
use warp_cache.Shm.HashTable.Laws.{stored_key}
use warp_cache.Shm.Ordering.{list_push_tail, sieve_evict}
use warp_cache.Shm.Ordering.List.{On, list_push_tail-IsList, sieve_evict-Scans}
use warp_cache.Shm.Ordering.Members.{snoc-Taken}
use warp_cache.Shm.Ordering.Unlink.{Linked-frame}
use warp_cache.Shm.Ordering.Frame.{
  body, SameBody, list_push_tail-SameBody, list_push_tail-hand, sieve_evict-SameLinks,
  list_push_tail-elsewhere,
}
use warp_cache.Shm.Region.{Region}
use warp_cache.Shm.Cache.{arena_of, with_arena, set_slot, link_entry}
use warp_cache.Shm.Cache.Table.{IsTableOf, IsTableOf-frame, SameKey}
use warp_cache.Shm.Cache.Table.Changes.{ht_insert-IsTableOf}
use warp_cache.Shm.Cache.Invariant.{
  Free, HandLow, IsCache, Free-frame, same_key, same_fits, Shape-frame, from_hand,
}
use warp_cache.Shm.Cache.Stages.{rearena}

module _ {capacity n space : ℕ} {r : Region} where
  -- When no slot is free, the scan finds a victim on the list.
  pub sweep :
      {xs : List ℕ}
      → IsCache capacity n space r xs [] []
      → (v : ℕ) × ((sieve_evict (arena_of r)).0 ≡ pos v)
        × On v xs
        × IsCache capacity n space (with_arena r (sieve_evict (arena_of r)).1) xs [] []
        × SameBody (arena_of r) (sieve_evict (arena_of r)).1
  unfolding On
  sweep {xs = []} c =
      absurd (elim (c.placed.cover 0 c.positive) [ inl b ↦ b | inr (inl b) ↦ b | inr (inr b) ↦ b ])
  sweep {xs = x ∷ xs} c =
      let on_list : (j : ℕ) → j < capacity → On j (x ∷ xs) = λ j low. elim (c.placed.cover j low) [
        | inl o ↦ o
        | inr (inl b) ↦ absurd b
        | inr (inr b) ↦ absurd b
      ] in
      let hand : (r.header.sieve_hand ≡ slot_none)
          ⊎ ((j : ℕ) × (r.header.sieve_hand ≡ pos j) × On j (x ∷ xs)) =
        elim c.hand [ inl e ↦ inl e | inr (j, e, low) ↦ inr (j, e, on_list j low) ] in
      let scans = sieve_evict-Scans (arena_of r) x xs c.list hand in
      let same = sieve_evict-SameLinks (arena_of r) in
      let a = (sieve_evict (arena_of r)).1 in
      (
        scans.victim,
        scans.result,
        scans.on,
        rearena a c same.bodies scans.list (λ j b. absurd b)
            (elim scans.hand [ inl e ↦ inl e | inr (j, e, on) ↦ inr (j, e, c.placed.low_x j on) ]),
        same.bodies,
      )

  -- The slot in hand, with its new entry, enters the table and the list.
  pub link :
      {xs ys : List ℕ} (i : ℕ)
      → IsCache capacity n space r xs ys (i ∷ [])
      → (r.slots i).occupied ≢ 0
      → (r.slots i).key_len + (r.slots i).value_len ≤ space
      → ((j : ℕ)
          → On j xs
          → (r.slots j).key_hash ≡ (r.slots i).key_hash
          → ¬ (stored_key (r.slots j) ≡ stored_key (r.slots i)))
      → IsCache capacity n space (link_entry r (pos i) (r.slots i).key_hash) (xs ++ i ∷ []) ys []
        × SameBody (arena_of r) (list_push_tail (arena_of r) (pos i))
  unfolding link_entry On
  link {xs} {ys} i c used fit new =
      let a = arena_of r in
      let b = list_push_tail a (pos i) in
      let same = list_push_tail-SameBody a (pos i) in
      let off : ¬ On i xs = c.placed.apart_zx i (inl refl) in
      let taken = snoc-Taken i xs off c.placed.unique_x in
      let low = c.placed.low_z i (inl refl) in
      let shape = Shape-frame r.header b.header same.header c.shape in
      let table : IsTableOf capacity n
          (ht_insert r.buckets r.header.ht_capacity (r.slots i).key_hash (pos i)) r.slots
          (xs ++ i ∷ []) =
        subst
          (λ k.
            IsTableOf capacity n (ht_insert r.buckets k (r.slots i).key_hash (pos i)) r.slots
              (xs ++ i ∷ []))
          (sym c.shape.ht_capacity) (ht_insert-IsTableOf i c.table taken low used new) in
      let placed = from_hand i taken c.placed in
      (
        record {
          positive = c.positive;
          bounded = c.bounded;
          shape = record {
            capacity = shape.capacity;
            ht_capacity = shape.ht_capacity;
            space = shape.space;
          };
          table =
              IsTableOf-frame b.slots table
                (λ j o. same_key (r.slots j) (b.slots j) (same.slots j));
          list = list_push_tail-IsList a xs i c.list c.placed.unique_x off;
          free =
              subst (λ k. Free b.slots ys k) (sym (ap (λ (h : Header). h.free_head) same.header))
                (Free-frame r.slots b.slots ys r.header.free_head
                  (λ j o.
                    ap (λ (s : Slot). s.next)
                      (list_push_tail-elsewhere a xs i j c.list (λ o'. c.placed.apart_xy j o' o)
                        (λ d. c.placed.apart_zy i (inl refl) (subst (λ k. On k ys) (sym d) o))))
                  c.free);
          placed = placed;
          size = omega (
            arith,
            ap (λ (h : Header). h.current_size) same.header,
            c.size,
            taken.count,
            placed.count,
            c.bounded,
          );
          fits = λ j o.
              same_fits (r.slots j) (b.slots j) space (same.slots j) (elim ((taken.there j).0 o) [
                | inl d ↦
                    subst (λ k. (r.slots k).key_len + (r.slots k).value_len ≤ space) (sym d) fit
                | inr o' ↦ c.fits j o'
              ]);
          hand = subst (λ k. HandLow capacity k) (sym (list_push_tail-hand a (pos i))) c.hand;
          unused = λ j o. ap (λ (s : Slot). s.occupied) (same.slots j) ∙ c.unused j o;
        },
        same,
      )

  -- An entry may change, as long as its key, its links and the room for it stay.
  pub rewrite_entry :
      {xs ys : List ℕ} (i : ℕ) (s : Slot)
      → IsCache capacity n space r xs ys []
      → SameKey (r.slots i) s
      → s.prev ≡ (r.slots i).prev
      → s.next ≡ (r.slots i).next
      → s.key_len + s.value_len ≤ space
      → IsCache capacity n space (set_slot r (pos i) s) xs ys []
  rewrite_entry {xs} {ys} i s c same prev next fit =
      let r' = set_slot r (pos i) s in
      let kept : (j : ℕ) → i ≢ j → r'.slots j ≡ r.slots j = λ j ne. ground arith in
      let at : r'.slots i ≡ s = ground arith in
      let key : (j : ℕ) → SameKey (r.slots j) (r'.slots j) = λ j. elim (ℕ_discrete i j) [
        | yes d ↦
            subst (λ k. SameKey (r.slots k) (r'.slots k)) d
              (subst (λ x. SameKey (r.slots i) x) (sym at) same)
        | no ne ↦ same_key (r.slots j) (r'.slots j) (ap body (kept j ne))
      ] in
      let links : (j : ℕ)
          → ((r'.slots j).prev ≡ (r.slots j).prev) × ((r'.slots j).next ≡ (r.slots j).next) =
        λ j. elim (ℕ_discrete i j) [
          | yes d ↦ (ground arith, ground arith)
          | no ne ↦ (ap (λ (x : Slot). x.prev) (kept j ne), ap (λ (x : Slot). x.next) (kept j ne))
        ] in
      record {
        positive = c.positive;
        bounded = c.bounded;
        shape = record {
          capacity = c.shape.capacity;
          ht_capacity = c.shape.ht_capacity;
          space = c.shape.space;
        };
        table = IsTableOf-frame r'.slots c.table (λ j o. key j);
        list =
            Linked-frame r.slots r'.slots slot_none xs r.header.list_head r.header.list_tail
              (λ j o. links j) c.list;
        free = Free-frame r.slots r'.slots ys r.header.free_head (λ j o. (links j).1) c.free;
        placed = c.placed;
        size = c.size;
        fits = λ j o. elim (ℕ_discrete i j) [
          | yes d ↦
              subst (λ k. (r'.slots k).key_len + (r'.slots k).value_len ≤ space) d
                (subst (λ (x : Slot). x.key_len + x.value_len ≤ space) (sym at) fit)
          | no ne ↦ same_fits (r.slots j) (r'.slots j) space (ap body (kept j ne)) (c.fits j o)
        ];
        hand = c.hand;
        unused = λ j o. (key j).occupied ∙ c.unused j o;
      }

-- Writing behind the key leaves the key.
pub key_kept :
    (f : ℕ → ℕ) (key_len : ℕ) (value : List ℕ)
    → slice (copy_to f key_len value) 0 key_len ≡ slice f 0 key_len
key_kept f key_len value =
    slice_congr (copy_to f key_len value) f 0 key_len
      (λ j lo hi. copy_to-below f key_len value j (omega arith))
