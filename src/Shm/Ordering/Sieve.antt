-- ===== src/Shm/Ordering/Sieve.antt =====
-- `sieve_evict` of src/shm/ordering.rs beside the SIEVE policy on a sequence: starting at the hand, the
-- first slot that was not visited, and the bits of those before it are cleared.
use warp_cache.Base.{
  ℕ, suc, ◌+◌, ◌-◌, ◌*◌, ◌%◌, ◌^◌, ◌≤◌, ◌<◌, ◌≡◌, ◌⊎◌, inl, inr, refl, sym, ap, subst, ◌∙◌, arith,
  fun_ext, false, Bool-cases, ◌==◌, if◌then◌else◌, Option, none, some, List, [], ◌∷◌, ◌++◌, length,
  length-append, ℤ, pos, update,
}
use warp_cache.Shm.Layout.{slot_none}
use warp_cache.Shm.Ordering.{Arena, slot, slot_mut, set_hand, advance, sieve_scan, sieve_evict}
use warp_cache.Shm.Ordering.Way.{start, Way, round-Way}
use warp_cache.Shm.Ordering.List.{Linked, IsList, On, scan_from}

-- The policy: the victim, if there is one, and the bits afterwards.
unfoldable pub sweep : (ℕ → ℕ) → List ℕ → Option ℕ × (ℕ → ℕ)
sweep bits [] = (none, bits)
sweep bits (z ∷ zs) =
    let rest = sweep (update bits z 0) zs in if bits z == 0 then (some z, bits) else rest

abbrev pub bits_of : Arena → ℕ → ℕ
bits_of a j = (a.slots j).visited

-- What the scan found: the victim, the bits, and the hand behind the victim.
pub record Finds (next : ℤ → ℤ) (v : ℕ) (bits : ℕ → ℕ) (r : ℤ × Arena) : Type 0 where
  pub victim : r.0 ≡ pos v
  pub visited : bits_of r.1 ≡ bits
  pub hand : r.1.header.sieve_hand ≡ next (pos v)

abbrev clear_bit : Arena → ℕ → Arena
clear_bit b z = slot_mut b (pos z) (record (slot b (pos z)) { visited = 0 })

clear_bit-bits : (b : Arena) (z : ℕ) → bits_of (clear_bit b z) ≡ update (bits_of b) z 0
clear_bit-bits b z = fun_ext (λ j. ground arith)

clear_bit-advance : (b : Arena) (z : ℕ) (k : ℤ) → advance (clear_bit b z) k ≡ advance b k
unfolding advance
clear_bit-advance b z k = ground arith

scan_here :
    (rounds : ℕ) (b : Arena) (z : ℕ)
    → (b.slots z).visited ≡ 0
    → sieve_scan (suc rounds) b (pos z) ≡ (pos z, set_hand b (advance b (pos z)))
unfolding sieve_scan
scan_here rounds b z e = ground arith

scan_past :
    (rounds : ℕ) (b : Arena) (z : ℕ)
    → ((b.slots z).visited == 0) ≡ false
    → sieve_scan (suc rounds) b (pos z)
      ≡ sieve_scan rounds (clear_bit b z) (advance (clear_bit b z) (pos z))
unfolding sieve_scan
scan_past rounds b z e = ground arith

here-Finds :
    (rounds : ℕ) (b : Arena) (next : ℤ → ℤ) (z : ℕ)
    → ((k : ℤ) → advance b k ≡ next k)
    → (b.slots z).visited ≡ 0
    → Finds next z (bits_of b) (sieve_scan (suc rounds) b (pos z))
here-Finds rounds b next z same e =
    subst (λ r. Finds next z (bits_of b) r) (sym (scan_here rounds b z e))
      (record { victim = refl; visited = refl; hand = same (pos z) })

-- The scan along a way: a victim on it, or on from its end with all bits on it cleared.
unfoldable Along : (ℤ → ℤ) → ℕ → ℤ → Option ℕ × (ℕ → ℕ) → ℤ × Arena → Type 0
Along next rounds end (some v, bits) r = Finds next v bits r
Along next rounds end (none, bits) r =
    (b : Arena) × (r ≡ sieve_scan rounds b end)
    × (bits_of b ≡ bits)
    × ((k : ℤ) → advance b k ≡ next k)

-- the rounds for a way through `zs`, and `rounds` more
unfoldable more : List ℕ → ℕ → ℕ
more [] rounds = rounds
more (z ∷ zs) rounds = suc (more zs rounds)

more-length : (zs : List ℕ) (rounds : ℕ) → more zs rounds ≡ length zs + rounds
unfolding more
more-length [] rounds = omega arith
more-length (z ∷ zs) rounds = let ih = more-length zs rounds in omega arith

scan-Along :
    (rounds : ℕ) (next : ℤ → ℤ) (zs : List ℕ) (end : ℤ) (b : Arena)
    → Way next zs end
    → ((k : ℤ) → advance b k ≡ next k)
    → Along next rounds end (sweep (bits_of b) zs) (sieve_scan (more zs rounds) b (start zs end))
unfolding Way Along sweep more
scan-Along rounds next [] end b way same = (b, refl, refl, same)
scan-Along rounds next (z ∷ zs) end b way same = elim (Bool-cases ((b.slots z).visited == 0)) [
  | inl e ↦ rw e (here-Finds (more zs rounds) b next z same (ground arith))
  | inr e ↦
      let c = clear_bit b z in
      let same' : (k : ℤ) → advance c k ≡ next k = λ k. clear_bit-advance b z k ∙ same k in
      let step : advance c (pos z) ≡ start zs end = same' (pos z) ∙ way.0 in
      let ih = scan-Along rounds next zs end c way.1 same' in
      let ih' : Along next rounds end (sweep (update (bits_of b) z 0) zs)
          (sieve_scan (more zs rounds) c (start zs end)) =
        subst
          (λ v. Along next rounds end (sweep v zs) (sieve_scan (more zs rounds) c (start zs end)))
          (clear_bit-bits b z) ih in
      rw e (
        subst (λ r. Along next rounds end (sweep (update (bits_of b) z 0) zs) r)
          (sym (scan_past (more zs rounds) b z e ∙ ap (λ k. sieve_scan (more zs rounds) c k) step))
          ih')
]

-- behind a sweep without a victim, no slot on the way has its bit
cleared_on :
    (bits : ℕ → ℕ) (z : ℕ) (zs : List ℕ) (j : ℕ)
    → (bits j ≡ 0) ⊎ On j (z ∷ zs)
    → (update bits z 0 j ≡ 0) ⊎ On j zs
unfolding On
cleared_on bits z zs j (inl e) = inl (ground arith)
cleared_on bits z zs j (inr (inl e)) = inl (ground arith)
cleared_on bits z zs j (inr (inr on)) = inr on

sweep-Cleared :
    (bits : ℕ → ℕ) (zs : List ℕ) (j : ℕ)
    → (bits j ≡ 0) ⊎ On j zs
    → (sweep bits zs).0 ≡ none
    → (sweep bits zs).1 j ≡ 0
unfolding sweep On
sweep-Cleared bits [] j (inl e) = λ h. e
sweep-Cleared bits [] j (inr on) = absurd on
sweep-Cleared bits (z ∷ zs) j on = elim (Bool-cases (bits z == 0)) [
  | inl e ↦ rw e (λ h. absurd (ground arith))
  | inr e ↦ rw e (sweep-Cleared (update bits z 0) zs j (cleared_on bits z zs j on))
]

-- The policy on one round from the hand `i`: its victim, or `i` once all bits are cleared.
unfoldable pub chosen : ℕ → Option ℕ × (ℕ → ℕ) → ℕ × (ℕ → ℕ)
chosen i (some v, bits) = (v, bits)
chosen i (none, bits) = (i, bits)

settle :
    (rounds : ℕ) (next : ℤ → ℤ) (i : ℕ) (found : Option ℕ × (ℕ → ℕ)) (r : ℤ × Arena)
    → (found.0 ≡ none → found.1 i ≡ 0)
    → Along next (suc rounds) (pos i) found r
    → Finds next (chosen i found).0 (chosen i found).1 r
unfolding Along chosen
settle rounds next i (some v, bits) r cleared f = f
settle rounds next i (none, bits) r cleared (b, e, same_bits, same) =
    subst (λ w. Finds next i w r) same_bits
      (subst (λ s. Finds next i (bits_of b) s) (sym e)
        (here-Finds rounds b next i same (ap (λ w. w i) same_bits ∙ cleared refl)))

round-Finds :
    (rounds : ℕ) (a : Arena) (i : ℕ) (zs : List ℕ)
    → Way (advance a) (i ∷ zs) (pos i)
    → let r = chosen i (sweep (bits_of a) (i ∷ zs)) in
      Finds (advance a) r.0 r.1 (sieve_scan (more (i ∷ zs) (suc rounds)) a (pos i))
unfolding On
round-Finds rounds a i zs way =
    settle rounds (advance a) i (sweep (bits_of a) (i ∷ zs))
      (sieve_scan (more (i ∷ zs) (suc rounds)) a (pos i))
      (sweep-Cleared (bits_of a) (i ∷ zs) i (inr (inl refl)))
      (scan-Along (suc rounds) (advance a) (i ∷ zs) (pos i) a way (λ k. refl))

-- what is left of the rounds behind one round
abbrev left_over : Arena → List ℕ → ℕ
left_over a zs = a.header.capacity * 2 - (length zs + 1)

length-round : (ps qs : List ℕ) (i : ℕ) → length ((i ∷ qs) ++ ps) ≡ length (ps ++ i ∷ qs)
length-round ps qs i =
    let e = length-append (i ∷ qs) ps in let f = length-append ps (i ∷ qs) in omega arith

enough :
    (a : Arena) (zs : List ℕ)
    → length zs ≤ a.header.capacity
    → 1 ≤ length zs
    → a.header.capacity < 2 ^ 31
    → (a.header.capacity * 2) % 2 ^ 32 ≡ more zs (suc (left_over a zs))
enough a zs short some_slot small = let e = more-length zs (suc (left_over a zs)) in omega arith

head-start :
    (a : Arena) (ps : List ℕ) (i : ℕ) (qs : List ℕ)
    → IsList a (ps ++ i ∷ qs)
    → (a.header.sieve_hand ≡ pos i) ⊎ ((a.header.sieve_hand ≡ slot_none) × (ps ≡ []))
    → sieve_evict a ≡ sieve_scan ((a.header.capacity * 2) % 2 ^ 32) a (pos i)
unfolding Linked
head-start a [] i qs l (inl e) = scan_from a i i l.0 (inr e)
head-start a (p ∷ ps) i qs l (inl e) = scan_from a p i l.0 (inr e)
head-start a [] i qs l (inr (e, n)) = scan_from a i i l.0 (inl (e, refl))
head-start a (p ∷ ps) i qs l (inr (e, n)) = absurd (ground arith)

-- On an arena whose list is `ps`, `i`, `qs` with the hand on `i`, or nowhere with `i` the head, and no longer
-- than the capacity, which is below 2^31: going once around from `i`, `sieve_evict` returns the first slot whose
-- bit is not set, or `i` when all are set; it clears the bits of the slots it passed and no other; and
-- the hand is left on the slot behind the victim, the head behind the last one.
pub sieve_evict-Finds :
    (a : Arena) (ps : List ℕ) (i : ℕ) (qs : List ℕ)
    → IsList a (ps ++ i ∷ qs)
    → (a.header.sieve_hand ≡ pos i) ⊎ ((a.header.sieve_hand ≡ slot_none) × (ps ≡ []))
    → length (ps ++ i ∷ qs) ≤ a.header.capacity
    → a.header.capacity < 2 ^ 31
    → let r = chosen i (sweep (bits_of a) ((i ∷ qs) ++ ps)) in
      Finds (advance a) r.0 r.1 (sieve_evict a)
sieve_evict-Finds a ps i qs l from short small =
    let zs = (i ∷ qs) ++ ps in
    let r = chosen i (sweep (bits_of a) zs) in
    let short' : length zs ≤ a.header.capacity =
      subst (λ n. n ≤ a.header.capacity) (sym (length-round ps qs i)) short in
    let e =
      head-start a ps i qs l from
      ∙ ap (λ n. sieve_scan n a (pos i)) (enough a zs short' (omega arith) small) in
    subst (λ s. Finds (advance a) r.0 r.1 s) (sym e)
      (round-Finds (left_over a zs) a i (qs ++ ps) (round-Way a ps i qs l))
