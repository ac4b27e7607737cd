-- ===== src/Shm/Ordering/Members.antt =====
-- Lists of slot indices without repetition, and taking one index out.
use warp_cache.Base.{
  ℕ, suc, ◌≡◌, ◌⊎◌, ◌↔◌, inl, inr, refl, ap, sym, arith, List, [], ◌∷◌, ◌++◌, length, length-append,
  subst,
}
use warp_cache.Shm.Ordering.List.{On, Unique}

-- The first list holds `i` and what the second one holds, and neither has an index twice.
pub record Taken (i : ℕ) (xs xs' : List ℕ) : Type 0 where
  pub there : (j : ℕ) → On j xs ↔ ((j ≡ i) ⊎ On j xs')
  pub fresh : ¬ On i xs'
  pub unique : Unique xs
  pub unique' : Unique xs'
  pub count : length xs ≡ suc (length xs')

pub On-append : (j : ℕ) (ps qs : List ℕ) → On j (ps ++ qs) ↔ (On j ps ⊎ On j qs)
unfolding On
On-append j [] qs = ((λ h. inr h), (λ h. elim h [ inl b ↦ absurd b | inr q ↦ q ]))
On-append j (p ∷ ps) qs =
    let rest = On-append j ps qs in
    (
      (λ h. elim h [
        | inl e ↦ inl (inl e)
        | inr r ↦ elim (rest.0 r) [ inl a ↦ inl (inr a) | inr b ↦ inr b ]
      ]),
      (λ h. elim h [
        | inl (inl e) ↦ inl e
        | inl (inr a) ↦ inr (rest.1 (inl a))
        | inr b ↦ inr (rest.1 (inr b))
      ]),
    )

pub cons-Taken : (i : ℕ) (xs : List ℕ) → ¬ On i xs → Unique xs → Taken i (i ∷ xs) xs
unfolding On Unique
cons-Taken i xs fresh unique = record {
  there = λ j. ((λ h. h), (λ h. h));
  fresh = fresh;
  unique = (fresh, unique);
  unique' = unique;
  count = refl;
}

On-insert : (i j : ℕ) (ps qs : List ℕ) → On j (ps ++ i ∷ qs) ↔ ((j ≡ i) ⊎ On j (ps ++ qs))
unfolding On
On-insert i j [] qs = ((λ h. h), (λ h. h))
On-insert i j (p ∷ ps) qs =
    let rest = On-insert i j ps qs in
    (
      (λ h. elim h [
        | inl e ↦ inr (inl e)
        | inr r ↦ elim (rest.0 r) [ inl a ↦ inl a | inr b ↦ inr (inr b) ]
      ]),
      (λ h. elim h [
        | inl e ↦ inr (rest.1 (inl e))
        | inr (inl e) ↦ inl e
        | inr (inr b) ↦ inr (rest.1 (inr b))
      ]),
    )

pub drop-Unique :
    (i : ℕ) (ps qs : List ℕ) → Unique (ps ++ i ∷ qs) → Unique (ps ++ qs) × (¬ On i (ps ++ qs))
unfolding On Unique
drop-Unique i [] qs (fresh, unique) = (unique, fresh)
drop-Unique i (p ∷ ps) qs (fresh, unique) =
    let (u, f) = drop-Unique i ps qs unique in
    (
      ((λ h. fresh ((On-insert i p ps qs).1 (inr h))), u),
      (λ h. elim h [ inl e ↦ fresh ((On-insert i p ps qs).1 (inl (sym e))) | inr r ↦ f r ]),
    )

insert-Unique :
    (i : ℕ) (ps qs : List ℕ) → Unique (ps ++ qs) → ¬ On i (ps ++ qs) → Unique (ps ++ i ∷ qs)
unfolding On Unique
insert-Unique i [] qs unique fresh = (fresh, unique)
insert-Unique i (p ∷ ps) qs (fp, unique) fresh = (
  (λ h. elim ((On-insert i p ps qs).0 h) [ inl e ↦ fresh (inl (sym e)) | inr r ↦ fp r ]),
  insert-Unique i ps qs unique (λ h. fresh (inr h)),
)

length-insert : (i : ℕ) (ps qs : List ℕ) → length (ps ++ i ∷ qs) ≡ suc (length (ps ++ qs))
length-insert i ps qs = omega (arith, length-append ps (i ∷ qs), length-append ps qs)

pub drop-Taken :
    (i : ℕ) (ps qs : List ℕ) → Unique (ps ++ i ∷ qs) → Taken i (ps ++ i ∷ qs) (ps ++ qs)
drop-Taken i ps qs unique =
    let (u, f) = drop-Unique i ps qs unique in
    record {
      there = λ j. On-insert i j ps qs;
      fresh = f;
      unique = unique;
      unique' = u;
      count = length-insert i ps qs;
    }

append_empty : (xs : List ℕ) → xs ++ [] ≡ xs
append_empty [] = refl
append_empty (x ∷ xs) = ap (◌∷◌ x) (append_empty xs)

pub snoc-Taken : (i : ℕ) (xs : List ℕ) → ¬ On i xs → Unique xs → Taken i (xs ++ i ∷ []) xs
snoc-Taken i xs fresh unique =
    let same = append_empty xs in
    subst (λ ys. Taken i (xs ++ i ∷ []) ys) same
      (drop-Taken i xs [] (
        insert-Unique i xs [] (subst Unique (sym same) unique)
          (λ h. fresh (subst (λ ys. On i ys) same h))))

-- A member splits its list.
pub split_at : (i : ℕ) (xs : List ℕ) → On i xs → (ps : List ℕ) × (qs : List ℕ) × (xs ≡ ps ++ i ∷ qs)
unfolding On
split_at i [] h = absurd h
split_at i (x ∷ xs) (inl e) = ([], xs, ap (λ y. y ∷ xs) (sym e))
split_at i (x ∷ xs) (inr h) = let (ps, qs, e) = split_at i xs h in (x ∷ ps, qs, ap (◌∷◌ x) e)

-- The parts of a list without repetition have none either, and share nothing.
pub append-apart :
    (ps qs : List ℕ) → Unique (ps ++ qs) → Unique ps × Unique qs × ((j : ℕ) → On j ps → ¬ On j qs)
unfolding On Unique
append-apart [] qs unique = (tt, unique, (λ j h. absurd h))
append-apart (p ∷ ps) qs (fresh, unique) =
    let (u, v, apart) = append-apart ps qs unique in
    (
      ((λ h. fresh ((On-append p ps qs).1 (inl h))), u),
      v,
      (λ j h b. elim h [
        | inl e ↦ fresh ((On-append p ps qs).1 (inr (subst (λ k. On k qs) e b)))
        | inr r ↦ apart j r b
      ]),
    )
