-- ===== src/Tests/Reader.antt =====
-- A reader that nobody disturbs, over any words: the states it comes to, by the addresses it has loaded.
use warp_cache.Base.{ℕ, ◌+◌, ◌≡◌, refl, sym, subst, List, [], ◌∷◌, update, ◌==◌, if◌then◌else◌}
use warp_cache.Shm.Lock.{init, Pc, idle, beginning, reading, Move, load, System}

abbrev pub value_at : List (ℕ × ℕ) → ℕ → ℕ
value_at [] a = 0
value_at ((b, v) ∷ rest) a = let more = value_at rest a in if b == a then v else more

module _ (w : ℕ → ℕ) where
  abbrev pub begun : System
  begun = record { mem = init w; pc = λ _. idle }

  abbrev pub at : System → Pc → System
  at s p = record { mem = init w; pc = update s.pc 0 p }

  abbrev pub seen_of : List ℕ → List (ℕ × ℕ)
  seen_of [] = []
  seen_of (a ∷ xs) = (a, w a) ∷ seen_of xs

  abbrev pub after : List ℕ → System
  after [] = at (at begun beginning) (reading 0 [])
  after (a ∷ xs) = at (after xs) (reading 0 (seen_of (a ∷ xs)))

  abbrev pub steps : List ℕ → ℕ
  steps [] = 2
  steps (a ∷ xs) = steps xs + 1

  pub after-pc : (xs : List ℕ) → (after xs).pc 0 ≡ reading 0 (seen_of xs)
  after-pc [] = refl
  after-pc (a ∷ xs) = refl

  after-mem : (xs : List ℕ) → (after xs).mem ≡ init w
  after-mem [] = refl
  after-mem (a ∷ xs) = refl

  pub loads_word :
      (a : ℕ) (xs : List ℕ)
      → Move (after xs).mem ((after xs).pc 0) (init w) (reading 0 (seen_of (a ∷ xs)))
  unfolding init
  loads_word a xs =
      subst (λ p. Move (after xs).mem p (init w) (reading 0 (seen_of (a ∷ xs)))) (sym (after-pc xs))
        (subst (λ m. Move m (reading 0 (seen_of xs)) (init w) (reading 0 (seen_of (a ∷ xs))))
          (sym (after-mem xs)) (load a))
