-- ===== src/Tests/Guard.antt =====
-- Entrants that take guards of two functions and drop one of them.
use warp_cache.Base.{◌≤◌, ◌≡◌, refl, true, ◌==◌, if◌then◌else◌, [], ◌∷◌}
use warp_cache.Store.Guard.{
  try_enter, Gil, gil_enter, GilStep, GilReach, try_enter_id, Thread, enter_id, leave_id,
  ThreadStep, ThreadReach,
}
use warp_cache.Store.Seq.{remove_index}
use warp_cache.Store.Guard.Laws.{one_guard, occurrences, one_guard_each}

abbrev held : Gil
held = record { active = true; live = 1 }

-- the second entrant is refused
held-GilReach : GilReach held
unfolding gil_enter try_enter
held-GilReach = GilReach.step (GilReach.step GilReach.start (GilStep.enter _)) (GilStep.enter held)

one_guard_example :
    (held.live ≤ 1)
    × ((if held.active then 1 else 0) ≡ held.live)
    × ((try_enter held.active).1 ≡ (held.live == 0))
one_guard_example = one_guard held held-GilReach

abbrev nine_left : Thread
nine_left = record { active = 9 ∷ []; live = 9 ∷ [] }

nine_left-ThreadReach : ThreadReach nine_left
unfolding enter_id leave_id remove_index
nine_left-ThreadReach =
    ThreadReach.step
      (ThreadReach.step (ThreadReach.step ThreadReach.start (ThreadStep.enter _ 7))
        (ThreadStep.enter _ 9))
      (ThreadStep.leave (record { active = 7 ∷ 9 ∷ []; live = 9 ∷ 7 ∷ [] }) 1 7 refl)

one_guard_each_example :
    (occurrences 9 nine_left.live ≤ 1)
    × (occurrences 9 nine_left.active ≡ occurrences 9 nine_left.live)
    × ((try_enter_id nine_left.active 9).1 ≡ (occurrences 9 nine_left.live == 0))
one_guard_each_example = one_guard_each nine_left nine_left-ThreadReach 9
