-- ===== src/Store/Guard.antt =====
-- The reentrancy guard of src/store.rs (`try_enter`, and the drop of its guards), on builds with the GIL and on
-- free-threaded ones, as steps of entrants that take guards and drop them in any order.
pub mod Laws
use warp_cache.Base.{
  ℕ, zero, suc, ◌+◌, ◌≡◌, Bool, true, false, ◌==◌, ◌||◌, if◌then◌else◌, Option, none, some, List,
  [], ◌∷◌, ◌++◌,
}
use warp_cache.Store.Seq.{get_elem?, remove_index}

-- `try_enter` on a build with the GIL: the flag afterwards, and whether there is a guard.
unfoldable pub try_enter : Bool → Bool × Bool
try_enter active = if active then (active, false) else (true, true)

-- `Drop for EnterGuard`
abbrev pub drop_guard : Bool → Bool
drop_guard active = false

-- The flag, and how many guards are live.
pub record Gil : Type 0 where
  pub active : Bool
  pub live : ℕ

unfoldable pub gil_enter : Gil → Gil
unfolding try_enter
gil_enter g = record {
  active = (try_enter g.active).0;
  live = if (try_enter g.active).1 then g.live + 1 else g.live;
}

pub data GilStep : Gil → Gil → Type 0 where
  enter : (g : Gil) → GilStep g (gil_enter g)
  leave :
      (g : Gil) (n : ℕ)
      → g.live ≡ suc n
      → GilStep g (record { active = drop_guard g.active; live = n })

-- the states that a new function comes to
pub data GilReach : Gil → Type 0 where
  start : GilReach (record { active = false; live = 0 })
  step : {g h : Gil} → GilReach g → GilStep g h → GilReach h

-- `ACTIVE` of a free-threaded build: the addresses for which the thread has a guard.
unfoldable pub contains : List ℕ → ℕ → Bool
contains [] id = false
contains (x ∷ xs) id = x == id || contains xs id

unfoldable pub try_enter_id : List ℕ → ℕ → List ℕ × Bool
unfolding contains
try_enter_id v id = if contains v id then (v, false) else (v ++ id ∷ [], true)

-- `iter().rposition(|&x| x == id)`
unfoldable pub rposition : List ℕ → ℕ → Option ℕ
rposition [] id = none
rposition (x ∷ xs) id = elim (rposition xs id) [
  | some i ↦ some (suc i)
  | none ↦ if x == id then some 0 else none
]

-- the vector without its last element, and that element
unfoldable pub pop {ℓ} : {A : Type ℓ} → List A → Option (List A × A)
pop [] = none
pop (x ∷ xs) = elim (pop xs) [ none ↦ some ([], x) | some (ys, l) ↦ some (x ∷ ys, l) ]

-- `swap_remove(i)`: the last element takes the place of the one that is removed.
unfoldable pub swap_remove {ℓ} : {A : Type ℓ} → List A → ℕ → List A
unfolding pop
swap_remove [] i = []
swap_remove (x ∷ xs) zero = elim (pop xs) [ none ↦ [] | some (ys, l) ↦ l ∷ ys ]
swap_remove (x ∷ xs) (suc i) = x ∷ swap_remove xs i

-- `Drop for EnterGuard`
unfoldable pub drop_id : List ℕ → ℕ → List ℕ
unfolding rposition swap_remove
drop_id v id = elim (rposition v id) [ some i ↦ swap_remove v i | none ↦ v ]

-- A thread: its vector, and the addresses of its live guards.
pub record Thread : Type 0 where
  pub active : List ℕ
  pub live : List ℕ

unfoldable pub enter_id : Thread → ℕ → Thread
unfolding try_enter_id
enter_id t id = record {
  active = (try_enter_id t.active id).0;
  live = if (try_enter_id t.active id).1 then id ∷ t.live else t.live;
}

-- a guard for `id`, the `i`-th of the live ones, is dropped
unfoldable pub leave_id : Thread → ℕ → ℕ → Thread
unfolding drop_id
leave_id t i id = record { active = drop_id t.active id; live = remove_index t.live i }

pub data ThreadStep : Thread → Thread → Type 0 where
  enter : (t : Thread) (id : ℕ) → ThreadStep t (enter_id t id)
  leave : (t : Thread) (i id : ℕ) → get_elem? t.live i ≡ some id → ThreadStep t (leave_id t i id)

pub data ThreadReach : Thread → Type 0 where
  start : ThreadReach (record { active = []; live = [] })
  step : {t u : Thread} → ThreadReach t → ThreadStep t u → ThreadReach u
