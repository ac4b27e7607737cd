-- ===== src/Shm/Cache/Invariant.antt =====
-- The invariant of a shared cache: the hash table, the eviction list and the free list agree on
-- where every slot is.
use warp_cache.Base.{
  ℕ, ◌+◌, ◌^◌, ◌≤◌, ◌<◌, ◌≡◌, ◌⊎◌, inl, inr, refl, sym, ap, subst, ◌∙◌, arith, List, [], ◌∷◌, ℤ,
  pos, length,
}
use warp_cache.Shm.Layout.{Header, Slot, slot_none}
use warp_cache.Shm.HashTable.Laws.{stored_key}
use warp_cache.Shm.Ordering.List.{On, Unique, IsList}
use warp_cache.Shm.Ordering.Members.{Taken}
use warp_cache.Shm.Ordering.Frame.{body, header_body}
use warp_cache.Shm.Region.{Region}
use warp_cache.Shm.Cache.{arena_of, max_data_size}
use warp_cache.Shm.Cache.Table.{IsTableOf, SameKey}

-- The free list runs through the slots of `ys`.
unfoldable pub Free : (ℕ → Slot) → List ℕ → ℤ → Type 0
Free slots [] head = head ≡ slot_none
Free slots (y ∷ ys) head = (head ≡ pos y) × Free slots ys (slots y).next

-- Every slot below the capacity is in exactly one place: on the list (`xs`), free (`ys`), or in the
-- hands of the operation that runs (`zs`).
pub record IsPlaced (capacity : ℕ) (xs ys zs : List ℕ) : Type 0 where
  pub unique_x : Unique xs
  pub unique_y : Unique ys
  pub unique_z : Unique zs
  pub apart_xy : (i : ℕ) → On i xs → ¬ On i ys
  pub apart_zx : (i : ℕ) → On i zs → ¬ On i xs
  pub apart_zy : (i : ℕ) → On i zs → ¬ On i ys
  pub cover : (i : ℕ) → i < capacity → On i xs ⊎ (On i ys ⊎ On i zs)
  pub low_x : (i : ℕ) → On i xs → i < capacity
  pub low_y : (i : ℕ) → On i ys → i < capacity
  pub low_z : (i : ℕ) → On i zs → i < capacity
  pub count : length xs + (length ys + length zs) ≡ capacity

-- The parameters that no operation changes: capacity, number of buckets, room for key and value.
pub record Shape (cap n room : ℕ) (h : Header) : Type 0 where
  pub capacity : h.capacity ≡ cap
  pub ht_capacity : h.ht_capacity ≡ n
  pub space : max_data_size h ≡ room

abbrev pub HandLow : ℕ → ℤ → Type 0
HandLow capacity hand = (hand ≡ slot_none) ⊎ ((j : ℕ) × (hand ≡ pos j) × (j < capacity))

pub record IsCache (capacity n space : ℕ) (r : Region) (xs ys zs : List ℕ) : Type 0 where
  pub positive : 1 ≤ capacity
  pub bounded : capacity ≤ 2 ^ 30
  pub shape : Shape capacity n space r.header
  pub table : IsTableOf capacity n r.buckets r.slots xs
  pub list : IsList (arena_of r) xs
  pub free : Free r.slots ys r.header.free_head
  pub placed : IsPlaced capacity xs ys zs
  pub size : r.header.current_size ≡ length xs
  pub fits : (i : ℕ) → On i xs → (r.slots i).key_len + (r.slots i).value_len ≤ space
  pub hand : HandLow capacity r.header.sieve_hand
  pub unused : (i : ℕ) → On i ys → (r.slots i).occupied ≡ 0

pub Free-frame :
    (slots slots' : ℕ → Slot) (ys : List ℕ) (head : ℤ)
    → ((j : ℕ) → On j ys → (slots' j).next ≡ (slots j).next)
    → Free slots ys head
    → Free slots' ys head
unfolding Free On
Free-frame slots slots' [] head same f = f
Free-frame slots slots' (y ∷ ys) head same (h, f) = (
  h,
  subst (λ k. Free slots' ys k) (sym (same y (inl refl)))
      (Free-frame slots slots' ys (slots y).next (λ j o. same j (inr o)) f),
)

-- Slots of equal body hold the same key and value.
pub same_key : (s s' : Slot) → body s' ≡ body s → SameKey s s'
same_key s s' e = record {
  hash = ap (λ (x : Slot). x.key_hash) e;
  key = ap (λ (x : Slot). stored_key x) e;
  occupied = ap (λ (x : Slot). x.occupied) e;
}

pub same_fits :
    (s s' : Slot) (space : ℕ)
    → body s' ≡ body s
    → s.key_len + s.value_len ≤ space
    → s'.key_len + s'.value_len ≤ space
same_fits s s' space e h = subst (λ (x : Slot). x.key_len + x.value_len ≤ space) (sym e) h

pub Shape-frame :
    {capacity n space : ℕ} (h h' : Header)
    → header_body h' ≡ header_body h
    → Shape capacity n space h
    → Shape capacity n space h'
Shape-frame h h' e s = record {
  capacity = ap (λ (x : Header). x.capacity) e ∙ s.capacity;
  ht_capacity = ap (λ (x : Header). x.ht_capacity) e ∙ s.ht_capacity;
  space = ap (λ (x : Header). max_data_size x) e ∙ s.space;
}

-- An index moves from one place to another.
module _ {capacity : ℕ} {xs xs' ys : List ℕ} (i : ℕ) where
  pub to_hand : Taken i xs xs' → IsPlaced capacity xs ys [] → IsPlaced capacity xs' ys (i ∷ [])
  unfolding On Unique
  to_hand t p =
      let old : (j : ℕ) → On j xs' → On j xs = λ j o. (t.there j).1 (inr o) in
      let here : On i xs = (t.there i).1 (inl refl) in
      record {
        unique_x = t.unique';
        unique_y = p.unique_y;
        unique_z = ((λ h. h), tt);
        apart_xy = λ j o. p.apart_xy j (old j o);
        apart_zx = λ j o h. elim o [ inl d ↦ t.fresh (subst (λ k. On k xs') d h) | inr b ↦ b ];
        apart_zy =
            λ j o h. elim o [ inl d ↦ p.apart_xy i here (subst (λ k. On k ys) d h) | inr b ↦ b ];
        cover = λ j low. elim (p.cover j low) [
          | inl o ↦ elim ((t.there j).0 o) [ inl d ↦ inr (inr (inl d)) | inr o' ↦ inl o' ]
          | inr (inl o) ↦ inr (inl o)
          | inr (inr b) ↦ absurd b
        ];
        low_x = λ j o. p.low_x j (old j o);
        low_y = p.low_y;
        low_z = λ j o. elim o [
          | inl d ↦ subst (λ k. k < capacity) (sym d) (p.low_x i here)
          | inr b ↦ absurd b
        ];
        count = omega (arith, p.count, t.count);
      }

  pub from_hand : Taken i xs xs' → IsPlaced capacity xs' ys (i ∷ []) → IsPlaced capacity xs ys []
  unfolding On Unique
  from_hand t p = record {
    unique_x = t.unique;
    unique_y = p.unique_y;
    unique_z = tt;
    apart_xy = λ j o h. elim ((t.there j).0 o) [
      | inl d ↦ p.apart_zy j (inl d) h
      | inr o' ↦ p.apart_xy j o' h
    ];
    apart_zx = λ j b. absurd b;
    apart_zy = λ j b. absurd b;
    cover = λ j low. elim (p.cover j low) [
      | inl o ↦ inl ((t.there j).1 (inr o))
      | inr (inl o) ↦ inr (inl o)
      | inr (inr (inl d)) ↦ inl ((t.there j).1 (inl d))
      | inr (inr (inr b)) ↦ absurd b
    ];
    low_x = λ j o. elim ((t.there j).0 o) [ inl d ↦ p.low_z j (inl d) | inr o' ↦ p.low_x j o' ];
    low_y = p.low_y;
    low_z = λ j b. absurd b;
    count = omega (arith, p.count, t.count);
  }

-- The list and the free list change places.
pub mirrored :
    {capacity : ℕ} {xs ys zs : List ℕ} → IsPlaced capacity xs ys zs → IsPlaced capacity ys xs zs
mirrored p = record {
  unique_x = p.unique_y;
  unique_y = p.unique_x;
  unique_z = p.unique_z;
  apart_xy = λ i o h. p.apart_xy i h o;
  apart_zx = p.apart_zy;
  apart_zy = p.apart_zx;
  cover = λ i low. elim (p.cover i low) [
    | inl o ↦ inr (inl o)
    | inr (inl o) ↦ inl o
    | inr (inr o) ↦ inr (inr o)
  ];
  low_x = p.low_y;
  low_y = p.low_x;
  low_z = p.low_z;
  count = omega (arith, p.count);
}
