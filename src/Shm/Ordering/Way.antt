-- ===== src/Shm/Ordering/Way.antt =====
-- The way that the hand of src/shm/ordering.rs takes through the slots, and the way once around the list.
use warp_cache.Base.{ℕ, ◌≡◌, refl, sym, subst, ◌∙◌, arith, List, [], ◌∷◌, ◌++◌, ℤ, pos}
use warp_cache.Shm.Layout.{slot_none}
use warp_cache.Shm.Ordering.{Arena, advance}
use warp_cache.Shm.Ordering.List.{Linked, IsList}

-- where a way through the slots begins, and where the next slot is along it
abbrev pub start : List ℕ → ℤ → ℤ
start [] end = end
start (z ∷ zs) end = pos z

unfoldable pub Way : (ℤ → ℤ) → List ℕ → ℤ → Type 0
Way next [] end = Unit
Way next (z ∷ zs) end = (next (pos z) ≡ start zs end) × Way next zs end

-- Ways through lists: one behind the other, the two parts of one, and the one along the links.
start-join : (xs ys : List ℕ) (end : ℤ) → start (xs ++ ys) end ≡ start xs (start ys end)
start-join [] ys end = refl
start-join (x ∷ xs) ys end = refl

join-Way :
    (next : ℤ → ℤ) (xs ys : List ℕ) (end : ℤ)
    → Way next xs (start ys end)
    → Way next ys end
    → Way next (xs ++ ys) end
unfolding Way
join-Way next [] ys end v w = w
join-Way next (x ∷ xs) ys end v w =
    (v.0 ∙ sym (start-join xs ys end), join-Way next xs ys end v.1 w)

split-Way :
    (next : ℤ → ℤ) (xs ys : List ℕ) (end : ℤ)
    → Way next (xs ++ ys) end
    → Way next xs (start ys end) × Way next ys end
unfolding Way
split-Way next [] ys end w = (tt, w)
split-Way next (x ∷ xs) ys end w =
    let (v, w') = split-Way next xs ys end w.1 in ((w.0 ∙ start-join xs ys end, v), w')

Linked-Way :
    (a : Arena) (prev : ℤ) (xs : List ℕ) (head tail : ℤ)
    → Linked a.slots prev xs head tail
    → Way (advance a) xs a.header.list_head
unfolding Way Linked advance
Linked-Way a prev [] head tail l = tt
Linked-Way a prev (x ∷ []) head tail l = (ground (arith, l.2.0), tt)
Linked-Way a prev (x ∷ y ∷ ys) head tail l =
    (ground (arith, l.2.0), Linked-Way a (pos x) (y ∷ ys) (a.slots x).next tail l.2)

-- from the slot `i` of the list once around
pub round-Way :
    (a : Arena) (ps : List ℕ) (i : ℕ) (qs : List ℕ)
    → IsList a (ps ++ i ∷ qs)
    → Way (advance a) ((i ∷ qs) ++ ps) (pos i)
unfolding Linked Way
round-Way a [] i qs l =
    let (v, w) =
      split-Way (advance a) [] (i ∷ qs) a.header.list_head
        (Linked-Way a slot_none (i ∷ qs) a.header.list_head a.header.list_tail l) in
    join-Way (advance a) (i ∷ qs) [] (pos i) (subst (λ e. Way (advance a) (i ∷ qs) e) l.0 w) tt
round-Way a (p ∷ ps) i qs l =
    let (v, w) =
      split-Way (advance a) (p ∷ ps) (i ∷ qs) a.header.list_head
        (Linked-Way a slot_none (p ∷ (ps ++ i ∷ qs)) a.header.list_head a.header.list_tail l) in
    join-Way (advance a) (i ∷ qs) (p ∷ ps) (pos i) (subst (λ e. Way (advance a) (i ∷ qs) e) l.0 w) v
