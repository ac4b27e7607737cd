-- ===== src/Shm/Cache/Stages.antt =====
-- The steps that the operations of a cache are made of, and how each one keeps the invariant.
use warp_cache.Base.{
  ℕ, ◌^◌, ◌<◌, ◌≡◌, ◌≢◌, inl, inr, refl, sym, ap, subst, ◌∙◌, arith, true, some, List, [], ◌∷◌,
  ◌++◌, pos, length,
}
use warp_cache.Shm.Layout.{Header, Bucket, Slot, slot_none}
use warp_cache.Shm.HashTable.{ht_remove}
use warp_cache.Shm.HashTable.Laws.{stored_key, length-slice}
use warp_cache.Shm.Ordering.{Arena, list_remove}
use warp_cache.Shm.Ordering.List.{On, Unique, IsList}
use warp_cache.Shm.Ordering.Members.{Taken, drop-Taken, cons-Taken, split_at}
use warp_cache.Shm.Ordering.Unlink.{Linked-frame, list_remove-IsList}
use warp_cache.Shm.Ordering.Frame.{
  body, SameBody, list_remove-SameBody, list_remove-hand, list_remove-elsewhere,
}
use warp_cache.Shm.Region.{Region}
use warp_cache.Shm.Cache.{arena_of, with_arena, set_slot, shrink}
use warp_cache.Shm.Cache.Table.{IsTableOf-frame}
use warp_cache.Shm.Cache.Table.Changes.{ht_remove-IsTableOf}
use warp_cache.Shm.Cache.Invariant.{
  Free, HandLow, IsCache, Free-frame, same_key, same_fits, Shape-frame, to_hand, from_hand,
  mirrored,
}

abbrev pub detached : Region → (ℕ → Bucket) → ℕ → Region
detached r ht i =
    let b = list_remove (arena_of r) (pos i) in
    record { header = shrink b.header; buckets = ht; slots = b.slots }

module _ {capacity n space : ℕ} {r : Region} where
  -- Another arena over the same bodies, with the same list.
  pub rearena :
      {xs ys zs : List ℕ} (a : Arena)
      → IsCache capacity n space r xs ys zs
      → SameBody (arena_of r) a
      → IsList a xs
      → ((j : ℕ) → On j ys → (a.slots j).next ≡ (r.slots j).next)
      → HandLow capacity a.header.sieve_hand
      → IsCache capacity n space (with_arena r a) xs ys zs
  rearena {xs} {ys} a c same l next hand = record {
    positive = c.positive;
    bounded = c.bounded;
    shape = Shape-frame r.header a.header same.header c.shape;
    table =
        IsTableOf-frame a.slots c.table (λ i on. same_key (r.slots i) (a.slots i) (same.slots i));
    list = l;
    free =
        subst (λ k. Free a.slots ys k) (sym (ap (λ (h : Header). h.free_head) same.header))
          (Free-frame r.slots a.slots ys r.header.free_head next c.free);
    placed = c.placed;
    size = ap (λ (h : Header). h.current_size) same.header ∙ c.size;
    fits = λ i on. same_fits (r.slots i) (a.slots i) space (same.slots i) (c.fits i on);
    hand = hand;
    unused = λ i o. ap (λ (s : Slot). s.occupied) (same.slots i) ∙ c.unused i o;
  }

  pub space_small : {xs ys zs : List ℕ} → IsCache capacity n space r xs ys zs → space < 2 ^ 32
  space_small c = omega (arith, c.shape.space)

  key_small :
      {xs ys zs : List ℕ}
      → IsCache capacity n space r xs ys zs
      → (i : ℕ) → On i xs
      → length (stored_key (r.slots i)) < 2 ^ 32
  key_small c i on =
      omega
        (arith, length-slice (r.slots i).bytes 0 (r.slots i).key_len, c.fits i on, space_small c)

  -- A slot of the list leaves the table and the list.
  pub detach :
      {xs ys : List ℕ} (i : ℕ)
      → IsCache capacity n space r xs ys []
      → On i xs
      → (xs' : List ℕ) × (ht : ℕ → Bucket) × Taken i xs xs'
        × (ht_remove r.buckets n r.slots (r.slots i).key_hash (stored_key (r.slots i))
            ≡ some (true, ht))
        × IsCache capacity n space (detached r ht i) xs' ys (i ∷ [])
        × SameBody (arena_of r) (list_remove (arena_of r) (pos i))
  unfolding On
  detach {xs} {ys} i c on =
      let (ps, qs, e) = split_at i xs on in
      let unique = subst Unique e c.placed.unique_x in
      let taken : Taken i xs (ps ++ qs) =
        subst (λ l. Taken i l (ps ++ qs)) (sym e) (drop-Taken i ps qs unique) in
      let (ht, run, table) = ht_remove-IsTableOf i c.table taken (key_small c i on) in
      let a = arena_of r in
      let b = list_remove a (pos i) in
      let same = list_remove-SameBody a (pos i) in
      let shape = Shape-frame r.header b.header same.header c.shape in
      let old : (j : ℕ) → On j (ps ++ qs) → On j xs = λ j o. (taken.there j).1 (inr o) in
      (
        ps ++ qs,
        ht,
        taken,
        run,
        record {
          positive = c.positive;
          bounded = c.bounded;
          shape = record {
            capacity = shape.capacity;
            ht_capacity = shape.ht_capacity;
            space = shape.space;
          };
          table =
              IsTableOf-frame b.slots table
                (λ j o. same_key (r.slots j) (b.slots j) (same.slots j));
          list = list_remove-IsList a i ps qs (subst (λ l. IsList a l) e c.list) unique;
          free =
              subst (λ k. Free b.slots ys k) (sym (ap (λ (h : Header). h.free_head) same.header))
                (Free-frame r.slots b.slots ys r.header.free_head
                  (λ j o.
                    ap (λ (s : Slot). s.next)
                      (list_remove-elsewhere a xs c.list i j (λ o'. c.placed.apart_xy j o' o) on))
                  c.free);
          placed = to_hand i taken c.placed;
          size = omega (
            arith,
            ap (λ (h : Header). h.current_size) same.header,
            c.size,
            taken.count,
            c.placed.count,
            c.bounded,
          );
          fits = λ j o. same_fits (r.slots j) (b.slots j) space (same.slots j) (c.fits j (old j o));
          hand = subst (λ k. HandLow capacity k) (sym (list_remove-hand a (pos i))) c.hand;
          unused = λ j o. ap (λ (s : Slot). s.occupied) (same.slots j) ∙ c.unused j o;
        },
        same,
      )

  -- The slot in hand may be written.
  pub touch :
      {xs ys : List ℕ} (i : ℕ) (s : Slot)
      → IsCache capacity n space r xs ys (i ∷ [])
      → IsCache capacity n space (set_slot r (pos i) s) xs ys (i ∷ [])
  unfolding On
  touch {xs} {ys} i s c =
      let r' = set_slot r (pos i) s in
      let ne_x : (j : ℕ) → On j xs → i ≢ j =
        λ j o d. c.placed.apart_zx i (inl refl) (subst (λ k. On k xs) (sym d) o) in
      let ne_y : (j : ℕ) → On j ys → i ≢ j =
        λ j o d. c.placed.apart_zy i (inl refl) (subst (λ k. On k ys) (sym d) o) in
      let kept : (j : ℕ) → i ≢ j → r'.slots j ≡ r.slots j = λ j ne. ground arith in
      record {
        positive = c.positive;
        bounded = c.bounded;
        shape = record {
          capacity = c.shape.capacity;
          ht_capacity = c.shape.ht_capacity;
          space = c.shape.space;
        };
        table =
            IsTableOf-frame r'.slots c.table
              (λ j o. same_key (r.slots j) (r'.slots j) (ap body (kept j (ne_x j o))));
        list =
            Linked-frame r.slots r'.slots slot_none xs r.header.list_head r.header.list_tail
              (λ j o.
                let e = kept j (ne_x j o) in
                (ap (λ (k : Slot). k.prev) e, ap (λ (k : Slot). k.next) e))
              c.list;
        free =
            Free-frame r.slots r'.slots ys r.header.free_head
              (λ j o. ap (λ (k : Slot). k.next) (kept j (ne_y j o))) c.free;
        placed = c.placed;
        size = c.size;
        fits = λ j o.
            same_fits (r.slots j) (r'.slots j) space (ap body (kept j (ne_x j o))) (c.fits j o);
        hand = c.hand;
        unused = λ j o. ap (λ (k : Slot). k.occupied) (kept j (ne_y j o)) ∙ c.unused j o;
      }

  -- The slot in hand goes to the head of the free list.
  pub put_free :
      {xs ys : List ℕ} (i : ℕ)
      → IsCache capacity n space r xs ys (i ∷ [])
      → (r.slots i).next ≡ r.header.free_head
      → (r.slots i).occupied ≡ 0
      → IsCache capacity n space
          (record r { header = record r.header { free_head = pos i } })
          xs
          (i ∷ ys)
          []
  unfolding On Free
  put_free {xs} {ys} i c e idle = record {
    positive = c.positive;
    bounded = c.bounded;
    shape = record {
      capacity = c.shape.capacity;
      ht_capacity = c.shape.ht_capacity;
      space = c.shape.space;
    };
    table = c.table;
    list = c.list;
    free = (refl, subst (λ k. Free r.slots ys k) (sym e) c.free);
    placed = mirrored (
        from_hand i (cons-Taken i ys (c.placed.apart_zy i (inl refl)) c.placed.unique_y)
          (mirrored c.placed));
    size = c.size;
    fits = c.fits;
    hand = c.hand;
    unused = λ j o. elim o [
      | inl d ↦ subst (λ k. (r.slots k).occupied ≡ 0) (sym d) idle
      | inr o' ↦ c.unused j o'
    ];
  }

  -- The head of the free list comes into hand.
  pub pop_free :
      {xs ys : List ℕ} (i : ℕ)
      → IsCache capacity n space r xs (i ∷ ys) []
      → (r.header.free_head ≡ pos i)
        × IsCache capacity n space
            (record r { header = record r.header { free_head = (r.slots i).next } })
            xs
            ys
            (i ∷ [])
  unfolding On Free Unique
  pop_free {xs} {ys} i c = (
    c.free.0,
    record {
      positive = c.positive;
      bounded = c.bounded;
      shape = record {
        capacity = c.shape.capacity;
        ht_capacity = c.shape.ht_capacity;
        space = c.shape.space;
      };
      table = c.table;
      list = c.list;
      free = c.free.1;
      placed =
          mirrored (
            to_hand i (cons-Taken i ys c.placed.unique_y.0 c.placed.unique_y.1)
              (mirrored c.placed));
      size = c.size;
      fits = c.fits;
      hand = c.hand;
      unused = λ j o. c.unused j (inr o);
    },
  )
