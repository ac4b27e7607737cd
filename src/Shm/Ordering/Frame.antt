-- ===== src/Shm/Ordering/Frame.antt =====
-- What the list operations leave alone: all of a slot but its links and its visited bit, all of the
-- header but the list and the hand, and the slots that are not on the list.
use warp_cache.Base.{
  ℕ, zero, suc, ◌≡◌, ◌≢◌, ◌⊎◌, inl, inr, refl, ap, subst, ◌∙◌, arith, Bool-cases, ◌==◌, List, [],
  ◌∷◌, ℤ, pos, is_none,
}
use warp_cache.Shm.Layout.{Header, Slot, slot_none}
use warp_cache.Shm.Ordering.{
  Arena, slot, slot_mut, unlink, list_remove, push_behind, list_push_tail, advance, sieve_scan,
  sieve_evict,
}
use warp_cache.Shm.Ordering.List.{On, Linked, IsList, next-On, tail-On}

abbrev pub body : Slot → Slot
body s = record s { prev = slot_none; next = slot_none; visited = 0 }

abbrev pub header_body : Header → Header
header_body h = record h { list_head = slot_none; list_tail = slot_none; sieve_hand = slot_none }

-- The arena `b` has the bodies of `a`.
pub record SameBody (a b : Arena) : Type 0 where
  pub slots : (j : ℕ) → body (b.slots j) ≡ body (a.slots j)
  pub header : header_body b.header ≡ header_body a.header

abbrev SameBody-refl : (a : Arena) → SameBody a a
SameBody-refl a = record { slots = λ j. refl; header = refl }

SameBody-trans : {a b c : Arena} → SameBody a b → SameBody b c → SameBody a c
SameBody-trans p q = record { slots = λ j. q.slots j ∙ p.slots j; header = q.header ∙ p.header }

slot_mut-SameBody :
    (a : Arena) (index : ℤ) (s : Slot)
    → body s ≡ body (slot a index)
    → SameBody a (slot_mut a index s)
slot_mut-SameBody a index s e = record { slots = λ j. ground arith; header = refl }

unlink-SameBody : (a : Arena) (index prev next : ℤ) → SameBody a (unlink a index prev next)
unfolding unlink
unlink-SameBody a index prev next = record { slots = λ j. ground arith; header = ground arith }

pub list_remove-SameBody : (a : Arena) (index : ℤ) → SameBody a (list_remove a index)
unfolding list_remove
list_remove-SameBody a index = unlink-SameBody a index (slot a index).prev (slot a index).next

pub list_push_tail-SameBody : (a : Arena) (index : ℤ) → SameBody a (list_push_tail a index)
unfolding list_push_tail push_behind
list_push_tail-SameBody a index = record { slots = λ j. ground arith; header = ground arith }

pub list_remove-hand :
    (a : Arena) (index : ℤ) → (list_remove a index).header.sieve_hand ≡ a.header.sieve_hand
unfolding list_remove unlink
list_remove-hand a index = ground arith

pub list_push_tail-hand :
    (a : Arena) (index : ℤ) → (list_push_tail a index).header.sieve_hand ≡ a.header.sieve_hand
unfolding list_push_tail push_behind
list_push_tail-hand a index = ground arith

-- The arena `b` has the bodies and the links of `a`: only visited bits and the hand differ.
pub record SameLinks (a b : Arena) : Type 0 where
  pub bodies : SameBody a b
  pub next : (j : ℕ) → (b.slots j).next ≡ (a.slots j).next

sieve_scan-SameLinks :
    (rounds : ℕ) (a : Arena) (hand : ℤ) → SameLinks a (sieve_scan rounds a hand).1
unfolding sieve_scan
sieve_scan-SameLinks zero a hand = record {
  bodies = record { slots = λ j. refl; header = refl };
  next = λ j. refl;
}
sieve_scan-SameLinks (suc rounds) a hand = elim (Bool-cases ((slot a hand).visited == 0)) [
  | inl unvisited ↦
      rw (sieve_scan, unvisited)
        (record { bodies = record { slots = λ j. refl; header = refl }; next = λ j. refl })
  | inr visited ↦
      let b = slot_mut a hand (record (slot a hand) { visited = 0 }) in
      let rest = sieve_scan-SameLinks rounds b (advance b hand) in
      rw (sieve_scan, visited)
        (record {
          bodies =
              SameBody-trans (slot_mut-SameBody a hand (record (slot a hand) { visited = 0 }) refl)
                rest.bodies;
          next = λ j. rest.next j ∙ ground arith;
        })
]

pub sieve_evict-SameLinks : (a : Arena) → SameLinks a (sieve_evict a).1
unfolding sieve_evict
sieve_evict-SameLinks a = elim (Bool-cases (is_none a.header.list_head)) [
  | inl empty ↦
      rw (sieve_evict, empty)
        (record { bodies = record { slots = λ j. refl; header = refl }; next = λ j. refl })
  | inr filled ↦ rw (sieve_evict, filled) (sieve_scan-SameLinks _ a _)
]

-- what precedes a slot of the list is on it
prev-On :
    (slots : ℕ → Slot) (prev : ℤ) (xs : List ℕ) (head tail : ℤ) (i : ℕ)
    → Linked slots prev xs head tail
    → On i xs
    → ((slots i).prev ≡ prev) ⊎ ((j : ℕ) × ((slots i).prev ≡ pos j) × On j xs)
unfolding Linked On
prev-On slots prev [] head tail i l on = absurd on
prev-On slots prev (x ∷ xs) head tail i (h, p, rest) (inl d) = inl (ap (λ k. (slots k).prev) d ∙ p)
prev-On slots prev (x ∷ xs) head tail i (h, p, rest) (inr on) =
    elim (prev-On slots (pos x) xs (slots x).next tail i rest on) [
      | inl e ↦ inr (x, e, inl refl)
      | inr (j, e, on') ↦ inr (j, e, inr on')
    ]

module _ (a : Arena) (xs : List ℕ) (l : IsList a xs) (i k : ℕ) (off : ¬ On k xs) where
  unlink_elsewhere :
      (prev next : ℤ)
      → i ≢ k
      → (prev ≡ slot_none) ⊎ ((j : ℕ) × (prev ≡ pos j) × On j xs)
      → (next ≡ slot_none) ⊎ ((j : ℕ) × (next ≡ pos j) × On j xs)
      → (unlink a (pos i) prev next).slots k ≡ a.slots k
  unfolding unlink
  unlink_elsewhere prev next ne (inl p) (inl n) = ground arith
  unlink_elsewhere prev next ne (inl p) (inr (q, n, on)) =
      let ne' : q ≢ k = λ d. off (subst (λ y. On y xs) d on) in ground arith
  unlink_elsewhere prev next ne (inr (t, p, on)) (inl n) =
      let ne' : t ≢ k = λ d. off (subst (λ y. On y xs) d on) in ground arith
  unlink_elsewhere prev next ne (inr (t, p, on)) (inr (q, n, on')) =
      let ne_t : t ≢ k = λ d. off (subst (λ y. On y xs) d on) in
      let ne_q : q ≢ k = λ d. off (subst (λ y. On y xs) d on') in ground arith

  -- A slot that is not on the list keeps its links when one of the list is removed ...
  pub list_remove-elsewhere : On i xs → (list_remove a (pos i)).slots k ≡ a.slots k
  unfolding list_remove
  list_remove-elsewhere on =
      unlink_elsewhere (a.slots i).prev (a.slots i).next (λ d. off (subst (λ y. On y xs) d on))
        (prev-On a.slots slot_none xs a.header.list_head a.header.list_tail i l on)
        (next-On a.slots slot_none xs a.header.list_head a.header.list_tail i l on)

tail_cases :
    (a : Arena) (xs : List ℕ)
    → IsList a xs
    → (a.header.list_tail ≡ slot_none) ⊎ ((j : ℕ) × (a.header.list_tail ≡ pos j) × On j xs)
unfolding Linked On
tail_cases a [] l = inl l.1
tail_cases a (x ∷ xs) l =
    inr (tail-On a.slots slot_none x xs a.header.list_head a.header.list_tail l)

-- ... and when another one is pushed to its tail.
pub list_push_tail-elsewhere :
    (a : Arena) (xs : List ℕ) (i k : ℕ)
    → IsList a xs
    → ¬ On k xs
    → i ≢ k
    → (list_push_tail a (pos i)).slots k ≡ a.slots k
unfolding list_push_tail push_behind
list_push_tail-elsewhere a xs i k l off ne = elim (tail_cases a xs l) [
  | inl e ↦ ground arith
  | inr (t, e, on) ↦ let ne' : t ≢ k = λ d. off (subst (λ y. On y xs) d on) in ground arith
]
