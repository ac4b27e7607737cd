-- ===== src/Store/Guard/Laws.antt =====
-- How many guards are live at a time.
use warp_cache.Base.{
  ℕ, zero, suc, ◌+◌, ◌≤◌, ◌<◌, ◌≡◌, refl, arith, Bool, Bool-cases, inl, inr, ◌==◌, ltb,
  if◌then◌else◌, Option-cases, none, some, List, [], ◌∷◌, ◌++◌,
}
use warp_cache.Store.Seq.{get_elem?, remove_index}
use warp_cache.Store.Guard.{
  try_enter, Gil, gil_enter, GilStep, GilReach, contains, try_enter_id, rposition, pop, swap_remove,
  drop_id, Thread, enter_id, leave_id, ThreadStep, ThreadReach,
}

abbrev count_of : Bool → ℕ
count_of b = if b then 1 else 0

-- In every state that the steps of entrants come to, at most one guard is live, and the flag is set exactly then: so an entrant
-- gets a guard exactly if none is live.
pub one_guard :
    (g : Gil)
    → GilReach g
    → (g.live ≤ 1)
      × ((if g.active then 1 else 0) ≡ g.live)
      × ((try_enter g.active).1 ≡ (g.live == 0))
unfolding try_enter gil_enter
one_guard g GilReach.start = (omega arith, refl, refl)
one_guard g (GilReach.step r (GilStep.enter h)) = let (a, b, c) = one_guard h r in ground arith
one_guard g (GilReach.step r (GilStep.leave h n e)) = let (a, b, c) = one_guard h r in ground arith

-- how often an address is in a vector
unfoldable pub occurrences : ℕ → List ℕ → ℕ
occurrences id [] = 0
occurrences id (x ∷ xs) = (if x == id then 1 else 0) + occurrences id xs

occurrences-append :
    (id : ℕ) (xs ys : List ℕ) → occurrences id (xs ++ ys) ≡ occurrences id xs + occurrences id ys
unfolding occurrences
occurrences-append id [] ys = omega arith
occurrences-append id (x ∷ xs) ys = ground (arith, occurrences-append id xs ys)

contains-occurrences : (id : ℕ) (xs : List ℕ) → contains xs id ≡ ltb 0 (occurrences id xs)
unfolding contains occurrences
contains-occurrences id [] = refl
contains-occurrences id (x ∷ xs) = ground (arith, contains-occurrences id xs)

pop-none : (xs : List ℕ) → pop xs ≡ none → xs ≡ []
unfolding pop
pop-none [] e = refl
pop-none (x ∷ xs) e = elim (Option-cases (pop xs)) [
  | inl n ↦ absurd (ground arith)
  | inr (r, n) ↦ absurd (ground arith)
]

occurrences-pop :
    (id : ℕ) (xs ys : List ℕ) (l : ℕ)
    → pop xs ≡ some (ys, l)
    → occurrences id xs ≡ (if l == id then 1 else 0) + occurrences id ys
unfolding occurrences pop
occurrences-pop id [] ys l e = absurd (ground arith)
occurrences-pop id (x ∷ xs) ys l e = elim (Option-cases (pop xs)) [
  | inl n ↦ ground (arith, pop-none xs)
  | inr ((zs, k), n) ↦ ground (arith, occurrences-pop id xs zs k)
]

occurrences-swap_remove :
    (id : ℕ) (xs : List ℕ) (i a : ℕ)
    → get_elem? xs i ≡ some a
    → occurrences id xs ≡ (if a == id then 1 else 0) + occurrences id (swap_remove xs i)
unfolding occurrences swap_remove
occurrences-swap_remove id [] i a e = absurd (ground arith)
occurrences-swap_remove id (x ∷ xs) zero a e = elim (Option-cases (pop xs)) [
  | inl n ↦ ground (arith, pop-none xs)
  | inr ((ys, l), n) ↦ ground (arith, occurrences-pop id xs ys l)
]
occurrences-swap_remove id (x ∷ xs) (suc i) a e = ground (arith, occurrences-swap_remove id xs i a)

occurrences-remove_index :
    (id : ℕ) (xs : List ℕ) (i a : ℕ)
    → get_elem? xs i ≡ some a
    → occurrences id xs ≡ (if a == id then 1 else 0) + occurrences id (remove_index xs i)
unfolding occurrences remove_index
occurrences-remove_index id [] i a e = absurd (ground arith)
occurrences-remove_index id (x ∷ xs) zero a e = ground arith
occurrences-remove_index id (x ∷ xs) (suc i) a e =
    ground (arith, occurrences-remove_index id xs i a)

rposition-get_elem? :
    (xs : List ℕ) (id : ℕ) (i : ℕ) → rposition xs id ≡ some i → get_elem? xs i ≡ some id
unfolding rposition
rposition-get_elem? [] id i e = absurd (ground arith)
rposition-get_elem? (x ∷ xs) id i e = elim (Option-cases (rposition xs id)) [
  | inl n ↦ let at : i ≡ 0 = ground arith in rw at (ground arith)
  | inr (j, n) ↦ let at : i ≡ suc j = ground arith in rw at (rposition-get_elem? xs id j n)
]

rposition-none : (xs : List ℕ) (id : ℕ) → rposition xs id ≡ none → occurrences id xs ≡ 0
unfolding rposition occurrences
rposition-none [] id e = refl
rposition-none (x ∷ xs) id e = elim (Option-cases (rposition xs id)) [
  | inl n ↦ ground (arith, rposition-none xs id)
  | inr (j, n) ↦ absurd (ground arith)
]

occurrences-drop_id :
    (id j : ℕ) (v : List ℕ)
    → 0 < occurrences j v
    → occurrences id v ≡ (if j == id then 1 else 0) + occurrences id (drop_id v j)
unfolding drop_id
occurrences-drop_id id j v h = elim (Option-cases (rposition v j)) [
  | inl n ↦ let z = rposition-none v j n in absurd (omega arith)
  | inr (i, n) ↦ rw (drop_id, n) (occurrences-swap_remove id v i j (rposition-get_elem? v j i n))
]

abbrev Each : Thread → ℕ → Type 0
Each t id = (occurrences id t.live ≤ 1) × (occurrences id t.active ≡ occurrences id t.live)

enter-Each : (t : Thread) (j id : ℕ) → Each t id → Each t j → Each (enter_id t j) id
unfolding enter_id try_enter_id occurrences
enter-Each t j id e f =
    let c = contains-occurrences j t.active in
    let a = occurrences-append id t.active (j ∷ []) in
    elim (Bool-cases (contains t.active j)) [ inl h ↦ ground arith | inr h ↦ ground arith ]

leave-Each :
    (t : Thread) (i j id : ℕ)
    → get_elem? t.live i ≡ some j
    → Each t id
    → Each t j
    → Each (leave_id t i j) id
unfolding leave_id
leave-Each t i j id at e f =
    let r = occurrences-remove_index id t.live i j at in
    let r' = occurrences-remove_index j t.live i j at in
    let here : 0 < occurrences j t.active = ground arith in
    let d = occurrences-drop_id id j t.active here in ground arith

reach-Each : (t : Thread) → ThreadReach t → (id : ℕ) → Each t id
unfolding occurrences
reach-Each t ThreadReach.start id = (omega arith, refl)
reach-Each t (ThreadReach.step r (ThreadStep.enter u j)) id =
    enter-Each u j id (reach-Each u r id) (reach-Each u r j)
reach-Each t (ThreadReach.step r (ThreadStep.leave u i j e)) id =
    leave-Each u i j id e (reach-Each u r id) (reach-Each u r j)

-- In every state that a thread comes to, each function has at most one live guard, and the vector holds its address
-- exactly then, once: so `try_enter` gives a guard exactly if the function has none.
pub one_guard_each :
    (t : Thread)
    → ThreadReach t
    → (id : ℕ)
    → (occurrences id t.live ≤ 1)
      × (occurrences id t.active ≡ occurrences id t.live)
      × ((try_enter_id t.active id).1 ≡ (occurrences id t.live == 0))
unfolding try_enter_id
one_guard_each t r id =
    let (few, same) = reach-Each t r id in
    let c = contains-occurrences id t.active in (few, same, ground arith)
