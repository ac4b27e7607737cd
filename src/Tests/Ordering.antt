-- ===== src/Tests/Ordering.antt =====
-- The list of slots 0 and 1, with a hand that is nowhere.
use warp_cache.Base.{◌≡◌, refl, inr, update, arith, [], ◌∷◌, pos, ◌==◌, if◌then◌else◌}
use warp_cache.Shm.Layout.{slot_none}
use warp_cache.Shm.Region.{Config, init_header, zero_slot}
use warp_cache.Shm.Ordering.{Arena, advance, list_remove, sieve_evict}
use warp_cache.Shm.Ordering.List.{Linked, On, IsList, Unique}
use warp_cache.Shm.Ordering.Sieve.{bits_of, sweep, chosen, Finds, sieve_evict-Finds}
use warp_cache.Shm.Ordering.Unlink.{list_remove-IsList}

abbrev pub small : Config
small = record {
  capacity = 4;
  slot_size = 128;
  max_key_size = 32;
  max_value_size = 32;
  ttl_nanos = 0;
}

abbrev pair : Arena
pair = record {
  header = record (init_header small 8) { list_head = pos 0; list_tail = pos 1 };
  slots = λ i.
      if i == 0
      then record zero_slot { prev = slot_none; next = pos 1; visited = 1 }
      else record zero_slot { prev = pos 0; next = slot_none };
}

pair-IsList : IsList pair (0 ∷ 1 ∷ [])
unfolding Linked
pair-IsList = (refl, refl, (refl, refl, (refl, refl)))

sieve_evict-Finds_example : Finds (advance pair) 1 (update (bits_of pair) 0 0) (sieve_evict pair)
unfolding chosen sweep
sieve_evict-Finds_example =
    sieve_evict-Finds pair [] 0 (1 ∷ []) pair-IsList (inr (refl, refl)) (omega arith) (omega arith)

-- slot 0 was visited, so slot 1 goes
evict_runs : (sieve_evict pair).0 ≡ pos 1
unfolding sieve_evict
evict_runs = refl

pair-Unique : Unique (0 ∷ 1 ∷ [])
unfolding Unique On
pair-Unique = (λ h. ground arith, ((λ h. h), tt))

two_new : ¬ On 2 (0 ∷ 1 ∷ [])
unfolding On
two_new h = ground arith

list_remove-IsList_example : IsList (list_remove pair (pos 0)) (1 ∷ [])
list_remove-IsList_example = list_remove-IsList pair 0 [] (1 ∷ []) pair-IsList pair-Unique
