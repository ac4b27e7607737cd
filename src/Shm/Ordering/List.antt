-- ===== src/Shm/Ordering/List.antt =====
-- The linked list as a sequence of slot indices, and what the operations do to it.
use warp_cache.Base.{
  ℕ, zero, suc, ◌*◌, ◌%◌, ◌^◌, ◌≡◌, ◌≢◌, ◌⊎◌, inl, inr, refl, ◌∙◌, sym, ap, subst, arith,
  Bool-cases, ◌==◌, List, [], ◌∷◌, ◌++◌, ℤ, pos, update,
}
use warp_cache.Shm.Layout.{Slot, slot_none}
use warp_cache.Shm.Ordering.{
  Arena, slot, slot_mut, push_behind, list_push_tail, advance, sieve_scan, sieve_evict,
}

-- From `prev`, the slots of `xs` follow one another from `head` to `tail`, linked in both directions.
unfoldable pub Linked : (ℕ → Slot) → ℤ → List ℕ → ℤ → ℤ → Type 0
Linked slots prev [] head tail = (head ≡ slot_none) × (tail ≡ prev)
Linked slots prev (x ∷ xs) head tail =
    (head ≡ pos x) × ((slots x).prev ≡ prev) × Linked slots (pos x) xs (slots x).next tail

unfoldable pub On : ℕ → List ℕ → Type 0
On i [] = ⊥
On i (x ∷ xs) = (i ≡ x) ⊎ On i xs

-- the eviction list of the arena is the sequence `xs`
abbrev pub IsList : Arena → List ℕ → Type 0
IsList a xs = Linked a.slots slot_none xs a.header.list_head a.header.list_tail

-- The links alone decide what the list is.
Linked-congr :
    (slots slots' : ℕ → Slot) (prev : ℤ) (xs : List ℕ) (head tail : ℤ)
    → ((i : ℕ) → ((slots' i).prev ≡ (slots i).prev) × ((slots' i).next ≡ (slots i).next))
    → Linked slots prev xs head tail
    → Linked slots' prev xs head tail
unfolding Linked
Linked-congr slots slots' prev [] head tail same l = l
Linked-congr slots slots' prev (x ∷ xs) head tail same (h, p, rest) = (
  h,
  (same x).0 ∙ p,
  subst (λ n. Linked slots' (pos x) xs n tail) (sym ((same x).1))
      (Linked-congr slots slots' (pos x) xs (slots x).next tail same rest),
)

-- no slot twice
unfoldable pub Unique : List ℕ → Type 0
Unique [] = Unit
Unique (x ∷ xs) = (¬ On x xs) × Unique xs

-- the tail is on the list, unless the list is empty
pub tail-On :
    (slots : ℕ → Slot) (prev : ℤ) (x : ℕ) (xs : List ℕ) (head tail : ℤ)
    → Linked slots prev (x ∷ xs) head tail
    → (t : ℕ) × (tail ≡ pos t) × On t (x ∷ xs)
unfolding Linked On
tail-On slots prev x [] head tail (h, p, (n, e)) = (x, e, inl refl)
tail-On slots prev x (y ∷ xs) head tail (h, p, rest) =
    let (t, e, on) = tail-On slots (pos x) y xs (slots x).next tail rest in (t, e, inr on)

-- the new slot `i` behind the slot `t`
abbrev linked_at : (ℕ → Slot) → ℕ → ℕ → ℕ → Slot
linked_at slots i t =
    let b = update slots i (record (slots i) { prev = pos t; next = slot_none }) in
    update b t (record (b t) { next = pos i })

linked_at-Linked :
    (slots : ℕ → Slot) (prev : ℤ) (x : ℕ) (xs : List ℕ) (head : ℤ) (i t : ℕ)
    → Linked slots prev (x ∷ xs) head (pos t)
    → Unique (x ∷ xs)
    → ¬ On i (x ∷ xs)
    → Linked (linked_at slots i t) prev (x ∷ (xs ++ i ∷ [])) head (pos i)
unfolding Linked On Unique
linked_at-Linked slots prev x [] head i t (h, p, (n, e)) unique fresh =
    let same : t ≡ x = ground arith in
    let other : i ≢ x = λ d. fresh (inl d) in
    (h, ground arith, (ground arith, ground arith, (ground arith, refl)))
linked_at-Linked slots prev x (y ∷ ys) head i t (h, p, rest) unique fresh =
    let (t', e, on) = tail-On slots (pos x) y ys (slots x).next (pos t) rest in
    let same : t' ≡ t = ground arith in
    let other : t ≢ x = λ d. unique.0 (subst (λ z. On z (y ∷ ys)) (same ∙ d) on) in
    let other' : i ≢ x = λ d. fresh (inl d) in
    let tail_part =
      linked_at-Linked slots (pos x) y ys (slots x).next i t rest unique.1 (λ d. fresh (inr d)) in
    let kept : linked_at slots i t x ≡ slots x = ground arith in
    (
      h,
      ap (λ s. s.prev) kept ∙ p,
      subst (λ s. Linked (linked_at slots i t) (pos x) (y ∷ (ys ++ i ∷ [])) s.next (pos i))
          (sym kept) tail_part,
    )

-- Pushing a slot that is not on the list of an arena puts it at the end of the list.
pub list_push_tail-IsList :
    (a : Arena) (xs : List ℕ) (i : ℕ)
    → IsList a xs
    → Unique xs
    → ¬ On i xs
    → IsList (list_push_tail a (pos i)) (xs ++ i ∷ [])
unfolding Linked list_push_tail push_behind
list_push_tail-IsList a [] i (h, e) unique fresh =
    subst (λ b. IsList b (i ∷ [])) (sym (ap (λ z. push_behind a (pos i) z) e))
      (refl, ground arith, (ground arith, refl))
list_push_tail-IsList a (x ∷ xs) i l unique fresh =
    let (t, e, on) = tail-On a.slots slot_none x xs a.header.list_head a.header.list_tail l in
    let l' : Linked a.slots slot_none (x ∷ xs) a.header.list_head (pos t) =
      subst (λ z. Linked a.slots slot_none (x ∷ xs) a.header.list_head z) e l in
    subst (λ b. IsList b (x ∷ (xs ++ i ∷ []))) (sym (ap (λ z. push_behind a (pos i) z) e))
      (linked_at-Linked a.slots slot_none x xs a.header.list_head i t l' unique fresh)

head-On :
    (slots : ℕ → Slot) (prev : ℤ) (xs : List ℕ) (head tail : ℤ)
    → Linked slots prev xs head tail
    → (head ≡ slot_none) ⊎ ((j : ℕ) × (head ≡ pos j) × On j xs)
unfolding Linked On
head-On slots prev [] head tail (h, e) = inl h
head-On slots prev (x ∷ xs) head tail (h, p, rest) = inr (x, h, inl refl)

-- what follows a slot of the list is on it
pub next-On :
    (slots : ℕ → Slot) (prev : ℤ) (xs : List ℕ) (head tail : ℤ) (i : ℕ)
    → Linked slots prev xs head tail
    → On i xs
    → ((slots i).next ≡ slot_none) ⊎ ((j : ℕ) × ((slots i).next ≡ pos j) × On j xs)
unfolding Linked On
next-On slots prev [] head tail i l on = absurd on
next-On slots prev (x ∷ xs) head tail i (h, p, rest) (inr on) =
    elim (next-On slots (pos x) xs (slots x).next tail i rest on) [
      | inl e ↦ inl e
      | inr (j, e, on') ↦ inr (j, e, inr on')
    ]
next-On slots prev (x ∷ xs) head tail i (h, p, rest) (inl d) =
    elim (head-On slots (pos x) xs (slots x).next tail rest) [
      | inl e ↦ inl (ap (λ k. (slots k).next) d ∙ e)
      | inr (j, e, on) ↦ inr (j, ap (λ k. (slots k).next) d ∙ e, inr on)
    ]

advance-On :
    (a : Arena) (x : ℕ) (xs : List ℕ) (i : ℕ)
    → IsList a (x ∷ xs)
    → On i (x ∷ xs)
    → (j : ℕ) × (advance a (pos i) ≡ pos j) × On j (x ∷ xs)
unfolding advance Linked On
advance-On a x xs i l on =
    elim (next-On a.slots slot_none (x ∷ xs) a.header.list_head a.header.list_tail i l on) [
      | inl e ↦ (x, ground (arith, l.0), inl refl)
      | inr (j, e, on') ↦ (j, ground arith, on')
    ]

-- What a scan returns: a slot of the list, which is linked as before; and a hand that is nowhere or on the list.
pub record Scans (xs : List ℕ) (r : ℤ × Arena) : Type 0 where
  pub victim : ℕ
  pub result : r.0 ≡ pos victim
  pub on : On victim xs
  pub list : IsList r.1 xs
  pub hand :
      (r.1.header.sieve_hand ≡ slot_none) ⊎ ((j : ℕ) × (r.1.header.sieve_hand ≡ pos j) × On j xs)

sieve_scan-Scans :
    (rounds : ℕ) (a : Arena) (x : ℕ) (xs : List ℕ) (i : ℕ)
    → IsList a (x ∷ xs)
    → On i (x ∷ xs)
    → Scans (x ∷ xs) (sieve_scan rounds a (pos i))
unfolding sieve_scan
sieve_scan-Scans zero a x xs i l on = record {
  victim = i;
  result = refl;
  on = on;
  list = l;
  hand = inl refl;
}
sieve_scan-Scans (suc rounds) a x xs i l on = elim (Bool-cases ((slot a (pos i)).visited == 0)) [
  | inl unvisited ↦
      rw (sieve_scan, unvisited)
        (record {
          victim = i;
          result = refl;
          on = on;
          list = l;
          hand = inr (advance-On a x xs i l on);
        })
  | inr visited ↦
      let b = slot_mut a (pos i) (record (slot a (pos i)) { visited = 0 }) in
      let l' : IsList b (x ∷ xs) =
        Linked-congr a.slots b.slots slot_none (x ∷ xs) a.header.list_head a.header.list_tail
          (λ k. (ground arith, ground arith)) l in
      let (j, e, on') = advance-On b x xs i l' on in
      rw (sieve_scan, visited, e) (sieve_scan-Scans rounds b x xs j l' on')
]

pub scan_from :
    (a : Arena) (x j : ℕ)
    → a.header.list_head ≡ pos x
    → ((a.header.sieve_hand ≡ slot_none) × (x ≡ j)) ⊎ (a.header.sieve_hand ≡ pos j)
    → sieve_evict a ≡ sieve_scan ((a.header.capacity * 2) % 2 ^ 32) a (pos j)
unfolding sieve_evict
scan_from a x j h (inl (e, same)) = ground arith
scan_from a x j h (inr e) = ground arith

-- On an arena whose list is not empty and whose hand is nowhere or on the list, `sieve_evict` returns a slot
-- of the list, changes no link, and leaves the hand nowhere or on the list.
pub sieve_evict-Scans :
    (a : Arena) (x : ℕ) (xs : List ℕ)
    → IsList a (x ∷ xs)
    → (a.header.sieve_hand ≡ slot_none) ⊎ ((j : ℕ) × (a.header.sieve_hand ≡ pos j) × On j (x ∷ xs))
    → Scans (x ∷ xs) (sieve_evict a)
unfolding Linked On
sieve_evict-Scans a x xs l (inl e) =
    subst (λ r. Scans (x ∷ xs) r) (sym (scan_from a x x l.0 (inl (e, refl))))
      (sieve_scan-Scans ((a.header.capacity * 2) % 2 ^ 32) a x xs x l (inl refl))
sieve_evict-Scans a x xs l (inr (j, e, on)) =
    subst (λ r. Scans (x ∷ xs) r) (sym (scan_from a x j l.0 (inr e)))
      (sieve_scan-Scans ((a.header.capacity * 2) % 2 ^ 32) a x xs j l on)
