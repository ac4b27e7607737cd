-- ===== src/Shm/Ordering/Unlink.antt =====
-- `list_remove` takes one slot out of the list and keeps the others in order.
use warp_cache.Base.{
  ℕ, ◌≡◌, ◌≢◌, inl, inr, refl, sym, ap, subst, ◌∙◌, arith, List, [], ◌∷◌, ◌++◌, ℤ, pos,
}
use warp_cache.Shm.Layout.{Slot, slot_none}
use warp_cache.Shm.Ordering.{Arena, unlink, list_remove}
use warp_cache.Shm.Ordering.List.{On, Unique, Linked, IsList}
use warp_cache.Shm.Ordering.Members.{On-append, drop-Unique, append-apart}

-- A stretch of the list: it begins at `head` and ends at the slot `last`, whose successor is `next`.
Stretch : (ℕ → Slot) → ℤ → List ℕ → ℤ → ℤ → ℤ → Type 0
Stretch slots prev [] head last next = (head ≡ next) × (last ≡ prev)
Stretch slots prev (x ∷ xs) head last next =
    (head ≡ pos x) × ((slots x).prev ≡ prev) × Stretch slots (pos x) xs (slots x).next last next

pub Linked-frame :
    (slots slots' : ℕ → Slot) (prev : ℤ) (xs : List ℕ) (head tail : ℤ)
    → ((j : ℕ) → On j xs → ((slots' j).prev ≡ (slots j).prev) × ((slots' j).next ≡ (slots j).next))
    → Linked slots prev xs head tail
    → Linked slots' prev xs head tail
unfolding Linked On
Linked-frame slots slots' prev [] head tail same l = l
Linked-frame slots slots' prev (x ∷ xs) head tail same (h, p, rest) =
    let (sp, sn) = same x (inl refl) in
    (
      h,
      sp ∙ p,
      subst (λ n. Linked slots' (pos x) xs n tail) (sym sn)
          (Linked-frame slots slots' (pos x) xs (slots x).next tail (λ j on. same j (inr on)) rest),
    )

-- A list splits into a stretch and the rest, and is put together from them.
part :
    (slots : ℕ → Slot) (prev : ℤ) (ps zs : List ℕ) (head tail : ℤ)
    → Linked slots prev (ps ++ zs) head tail
    → (last : ℤ) × (mid : ℤ) × Stretch slots prev ps head last mid × Linked slots last zs mid tail
unfolding Stretch Linked
part slots prev [] zs head tail l = (prev, head, (refl, refl), l)
part slots prev (x ∷ ps) zs head tail (h, p, rest) =
    let (last, mid, s, l) = part slots (pos x) ps zs (slots x).next tail rest in
    (last, mid, (h, p, s), l)

join :
    (slots : ℕ → Slot) (prev : ℤ) (ps zs : List ℕ) (head tail last mid : ℤ)
    → Stretch slots prev ps head last mid
    → Linked slots last zs mid tail
    → Linked slots prev (ps ++ zs) head tail
unfolding Stretch Linked
join slots prev [] zs head tail last mid (h, e) l =
    subst (λ k. Linked slots prev zs k tail) (sym h) (subst (λ k. Linked slots k zs mid tail) e l)
join slots prev (x ∷ ps) zs head tail last mid (h, p, s) l =
    (h, p, join slots (pos x) ps zs (slots x).next tail last mid s l)

-- The last slot of a stretch that is not empty is on it.
last-On :
    (slots : ℕ → Slot) (prev : ℤ) (x : ℕ) (ps : List ℕ) (head last next : ℤ)
    → Stretch slots prev (x ∷ ps) head last next
    → (t : ℕ) × (last ≡ pos t) × On t (x ∷ ps)
unfolding Stretch On
last-On slots prev x [] head last next (h, p, (n, e)) = (x, e, inl refl)
last-On slots prev x (y ∷ ps) head last next (h, p, s) =
    let (t, e, on) = last-On slots (pos x) y ps (slots x).next last next s in (t, e, inr on)

-- The stretch when the successor of its last slot is changed.
relinked :
    (slots slots' : ℕ → Slot) (prev : ℤ) (x : ℕ) (ps : List ℕ) (head next next' : ℤ) (t : ℕ)
    → Stretch slots prev (x ∷ ps) head (pos t) next
    → Unique (x ∷ ps)
    → ((j : ℕ) → On j (x ∷ ps) → (slots' j).prev ≡ (slots j).prev)
    → ((j : ℕ) → On j (x ∷ ps) → j ≢ t → (slots' j).next ≡ (slots j).next)
    → (slots' t).next ≡ next'
    → Stretch slots' prev (x ∷ ps) head (pos t) next'
unfolding Stretch On Unique
relinked slots slots' prev x [] head next next' t (h, p, (n, e)) unique same_prev same_next at_t =
    let d : t ≡ x = ground arith in
    (h, same_prev x (inl refl) ∙ p, (ap (λ k. (slots' k).next) (sym d) ∙ at_t, e))
relinked slots slots' prev x (y ∷ ps) head next next' t (h, p, s) unique same_prev same_next at_t =
    let (t', e, on) = last-On slots (pos x) y ps (slots x).next (pos t) next s in
    let d : t' ≡ t = ground arith in
    let other : x ≢ t = λ q. unique.0 (subst (λ z. On z (y ∷ ps)) (d ∙ sym q) on) in
    let rest =
      relinked slots slots' (pos x) y ps (slots x).next next next' t s unique.1
        (λ j o. same_prev j (inr o)) (λ j o. same_next j (inr o)) at_t in
    (
      h,
      same_prev x (inl refl) ∙ p,
      subst (λ k. Stretch slots' (pos x) (y ∷ ps) k (pos t) next')
          (sym (same_next x (inl refl) other)) rest,
    )

-- The list when the predecessor of its first slot is changed.
reheaded :
    (slots slots' : ℕ → Slot) (prev prev' : ℤ) (q : ℕ) (qs : List ℕ) (head tail : ℤ)
    → Linked slots prev (q ∷ qs) head tail
    → ((j : ℕ) → On j (q ∷ qs) → (slots' j).next ≡ (slots j).next)
    → ((j : ℕ) → On j qs → (slots' j).prev ≡ (slots j).prev)
    → (slots' q).prev ≡ prev'
    → Linked slots' prev' (q ∷ qs) head tail
unfolding Linked On
reheaded slots slots' prev prev' q qs head tail (h, p, rest) same_next same_prev at_q = (
  h,
  at_q,
  subst (λ k. Linked slots' (pos q) qs k tail) (sym (same_next q (inl refl)))
      (Linked-frame slots slots' (pos q) qs (slots q).next tail
        (λ j o. (same_prev j o, same_next j (inr o))) rest),
)

module _ (a : Arena) (i : ℕ) where
  unlink_only :
      (tail : ℤ) → a.header.list_tail ≡ tail → IsList (unlink a (pos i) slot_none slot_none) []
  unfolding Linked unlink
  unlink_only tail e = (refl, refl)

  unlink_first :
      (q : ℕ) (qs : List ℕ)
      → Linked a.slots (pos i) (q ∷ qs) (pos q) a.header.list_tail
      → Unique (q ∷ qs)
      → ¬ On i (q ∷ qs)
      → IsList (unlink a (pos i) slot_none (pos q)) (q ∷ qs)
  unfolding Linked On Unique unlink
  unlink_first q qs l unique fresh =
      let b = unlink a (pos i) slot_none (pos q) in
      let ne_q : i ≢ q = λ d. fresh (inl d) in
      reheaded a.slots b.slots (pos i) slot_none q qs (pos q) a.header.list_tail l
        (λ j o. let ne : i ≢ j = λ d. fresh (subst (λ k. On k (q ∷ qs)) (sym d) o) in ground arith)
        (λ j o.
          let ne : i ≢ j = λ d. fresh (inr (subst (λ k. On k qs) (sym d) o)) in
          let ne' : q ≢ j = λ d. unique.0 (subst (λ k. On k qs) (sym d) o) in ground arith)
        (ground arith)

  unlink_last :
      (x : ℕ) (ps : List ℕ) (head : ℤ) (t : ℕ)
      → a.header.list_head ≡ head
      → Stretch a.slots slot_none (x ∷ ps) head (pos t) (pos i)
      → Unique (x ∷ ps)
      → ¬ On i (x ∷ ps)
      → On t (x ∷ ps)
      → IsList (unlink a (pos i) (pos t) slot_none) (x ∷ (ps ++ []))
  unfolding Linked Stretch On Unique unlink
  unlink_last x ps head t e s unique fresh on =
      let b = unlink a (pos i) (pos t) slot_none in
      let ne_t : i ≢ t = λ d. fresh (subst (λ k. On k (x ∷ ps)) (sym d) on) in
      let s' : Stretch b.slots slot_none (x ∷ ps) a.header.list_head (pos t) slot_none =
        relinked a.slots b.slots slot_none x ps a.header.list_head (pos i) slot_none t
          (subst (λ k. Stretch a.slots slot_none (x ∷ ps) k (pos t) (pos i)) (sym e) s) unique
          (λ j o.
            let ne : i ≢ j = λ d. fresh (subst (λ k. On k (x ∷ ps)) (sym d) o) in ground arith)
          (λ j o ne_j.
            let ne : i ≢ j = λ d. fresh (subst (λ k. On k (x ∷ ps)) (sym d) o) in
            let ne' : t ≢ j = λ d. ne_j (sym d) in ground arith)
          (ground arith) in
      join b.slots slot_none (x ∷ ps) [] a.header.list_head (pos t) (pos t) slot_none s'
        (refl, refl)

  unlink_between :
      (x : ℕ) (ps : List ℕ) (q : ℕ) (qs : List ℕ) (t : ℕ)
      → Stretch a.slots slot_none (x ∷ ps) a.header.list_head (pos t) (pos i)
      → Linked a.slots (pos i) (q ∷ qs) (pos q) a.header.list_tail
      → Unique (x ∷ ps)
      → Unique (q ∷ qs)
      → ((j : ℕ) → On j (x ∷ ps) → ¬ On j (q ∷ qs))
      → ¬ On i (x ∷ ps)
      → ¬ On i (q ∷ qs)
      → On t (x ∷ ps)
      → IsList (unlink a (pos i) (pos t) (pos q)) (x ∷ (ps ++ q ∷ qs))
  unfolding Linked Stretch On Unique unlink
  unlink_between x ps q qs t s l unique_p unique_q apart fresh_p fresh_q on =
      let b = unlink a (pos i) (pos t) (pos q) in
      let ne_t : i ≢ t = λ d. fresh_p (subst (λ k. On k (x ∷ ps)) (sym d) on) in
      let ne_q : i ≢ q = λ d. fresh_q (inl d) in
      let ne_tq : t ≢ q = λ d. apart t on (inl d) in
      let s' : Stretch b.slots slot_none (x ∷ ps) a.header.list_head (pos t) (pos q) =
        relinked a.slots b.slots slot_none x ps a.header.list_head (pos i) (pos q) t s unique_p
          (λ j o.
            let ne : i ≢ j = λ d. fresh_p (subst (λ k. On k (x ∷ ps)) (sym d) o) in
            let ne' : q ≢ j = λ d. apart j o (inl (sym d)) in ground arith)
          (λ j o ne_j.
            let ne : i ≢ j = λ d. fresh_p (subst (λ k. On k (x ∷ ps)) (sym d) o) in
            let ne' : t ≢ j = λ d. ne_j (sym d) in ground arith)
          (ground arith) in
      let l' : Linked b.slots (pos t) (q ∷ qs) (pos q) a.header.list_tail =
        reheaded a.slots b.slots (pos i) (pos t) q qs (pos q) a.header.list_tail l
          (λ j o.
            let ne : i ≢ j = λ d. fresh_q (subst (λ k. On k (q ∷ qs)) (sym d) o) in
            let ne' : t ≢ j = λ d. apart t on (subst (λ k. On k (q ∷ qs)) (sym d) o) in
            ground arith)
          (λ j o.
            let ne : i ≢ j = λ d. fresh_q (inr (subst (λ k. On k qs) (sym d) o)) in
            let ne' : q ≢ j = λ d. unique_q.0 (subst (λ k. On k qs) (sym d) o) in ground arith)
          (ground arith) in
      join b.slots slot_none (x ∷ ps) (q ∷ qs) a.header.list_head a.header.list_tail (pos t) (pos q)
        s' l'

module _ (a : Arena) (i : ℕ) where
  read_links :
      (prev next : ℤ) (xs : List ℕ)
      → (a.slots i).prev ≡ prev
      → (a.slots i).next ≡ next
      → IsList (unlink a (pos i) prev next) xs
      → IsList (list_remove a (pos i)) xs
  unfolding list_remove
  read_links prev next xs p n l =
      subst (λ k. IsList (unlink a (pos i) k (a.slots i).next) xs) (sym p)
        (subst (λ k. IsList (unlink a (pos i) prev k) xs) (sym n) l)

  around :
      (ps qs : List ℕ) (last : ℤ)
      → Stretch a.slots slot_none ps a.header.list_head last (pos i)
      → (a.slots i).prev ≡ last
      → Linked a.slots (pos i) qs (a.slots i).next a.header.list_tail
      → Unique (ps ++ qs)
      → ¬ On i ps
      → ¬ On i qs
      → IsList (list_remove a (pos i)) (ps ++ qs)
  unfolding Linked Stretch On Unique
  around [] [] last (h, e) p (n, t) unique fresh_p fresh_q =
      read_links slot_none slot_none [] (p ∙ e) n (unlink_only a i (pos i) t)
  around [] (q ∷ qs) last (h, e) p (n, pq, rest) unique fresh_p fresh_q =
      read_links slot_none (pos q) (q ∷ qs) (p ∙ e) n
        (unlink_first a i q qs (refl, pq, rest) unique fresh_q)
  around (x ∷ ps) [] last s p (n, t) unique fresh_p fresh_q =
      let (k, e, on) = last-On a.slots slot_none x ps a.header.list_head last (pos i) s in
      let (u, v, apart) = append-apart (x ∷ ps) [] unique in
      read_links (pos k) slot_none (x ∷ (ps ++ [])) (p ∙ e) n (
        unlink_last a i x ps a.header.list_head k refl
          (subst (λ z. Stretch a.slots slot_none (x ∷ ps) a.header.list_head z (pos i)) e s) u
          fresh_p on)
  around (x ∷ ps) (q ∷ qs) last s p (n, pq, rest) unique fresh_p fresh_q =
      let (k, e, on) = last-On a.slots slot_none x ps a.header.list_head last (pos i) s in
      let (u, v, apart) = append-apart (x ∷ ps) (q ∷ qs) unique in
      read_links (pos k) (pos q) (x ∷ (ps ++ q ∷ qs)) (p ∙ e) n (
        unlink_between a i x ps q qs k
          (subst (λ z. Stretch a.slots slot_none (x ∷ ps) a.header.list_head z (pos i)) e s)
          (refl, pq, rest) u v apart fresh_p fresh_q on)

  -- Removing a slot of the list of an arena leaves the list of the others, in their order.
  pub list_remove-IsList :
      (ps qs : List ℕ)
      → IsList a (ps ++ i ∷ qs)
      → Unique (ps ++ i ∷ qs)
      → IsList (list_remove a (pos i)) (ps ++ qs)
  unfolding Linked
  list_remove-IsList ps qs l unique =
      let (last, mid, s, (m, p, rest)) =
        part a.slots slot_none ps (i ∷ qs) a.header.list_head a.header.list_tail l in
      let (u, fresh) = drop-Unique i ps qs unique in
      around ps qs last (subst (λ k. Stretch a.slots slot_none ps a.header.list_head last k) m s) p
        rest u (λ o. fresh ((On-append i ps qs).1 (inl o)))
        (λ o. fresh ((On-append i ps qs).1 (inr o)))
