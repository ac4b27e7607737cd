-- ===== src/Shm/Ordering.antt =====
-- src/shm/ordering.rs: the doubly linked list through the slots, and the SIEVE scan.
pub mod List
pub mod Members
pub mod Unlink
pub mod Frame
pub mod Way
pub mod Sieve
use warp_cache.Base.{
  ℕ, zero, suc, ◌*◌, ◌%◌, ◌^◌, Bool, true, false, ◌==◌, if◌then◌else◌, ℤ, is_none, as_usize, update,
}
use warp_cache.Shm.Layout.{Header, Slot, slot_none}

-- The header and the slots, which the functions change in place.
pub record Arena : Type 0 where
  pub header : Header
  pub slots : ℕ → Slot

-- `slot(slab_base, slot_size, index)`
abbrev pub slot : Arena → ℤ → Slot
slot a index = a.slots (as_usize index)

-- `*slot_mut(slab_base, slot_size, index) = s`
abbrev pub slot_mut : Arena → ℤ → Slot → Arena
slot_mut a index s = record a { slots = update a.slots (as_usize index) s }

abbrev pub set_next : Arena → ℤ → ℤ → Arena
set_next a index next = slot_mut a index (record (slot a index) { next = next })

abbrev pub set_prev : Arena → ℤ → ℤ → Arena
set_prev a index prev = slot_mut a index (record (slot a index) { prev = prev })

abbrev pub set_head : Arena → ℤ → Arena
set_head a index = record a { header = record a.header { list_head = index } }

abbrev pub set_tail : Arena → ℤ → Arena
set_tail a index = record a { header = record a.header { list_tail = index } }

abbrev pub set_hand : Arena → ℤ → Arena
set_hand a index = record a { header = record a.header { sieve_hand = index } }

-- `list_remove` once the two neighbours are read from the slot
unfoldable pub unlink : Arena → ℤ → ℤ → ℤ → Arena
unlink a index prev next =
    let b = if is_none prev then set_head a next else set_next a prev next in
    let c = if is_none next then set_tail b prev else set_prev b next prev in
    slot_mut c index (record (slot c index) { prev = slot_none; next = slot_none })

unfoldable pub list_remove : Arena → ℤ → Arena
unfolding unlink
list_remove a index = unlink a index (slot a index).prev (slot a index).next

-- `list_push_tail` once the tail is read from the header
unfoldable pub push_behind : Arena → ℤ → ℤ → Arena
push_behind a index tail =
    let b = slot_mut a index (record (slot a index) { prev = tail; next = slot_none }) in
    let c = if is_none tail then set_head b index else set_next b tail index in set_tail c index

unfoldable pub list_push_tail : Arena → ℤ → Arena
unfolding push_behind
list_push_tail a index = push_behind a index a.header.list_tail

-- the slot behind the hand, or the head behind the last one
unfoldable pub advance : Arena → ℤ → ℤ
advance a hand = if is_none (slot a hand).next then a.header.list_head else (slot a hand).next

-- The loop of `sieve_evict`, with its fallback: the victim, and what was changed.
unfoldable pub sieve_scan : ℕ → Arena → ℤ → ℤ × Arena
unfolding advance
sieve_scan zero a hand = (hand, set_hand a slot_none)
sieve_scan (suc rounds) a hand =
    let b = slot_mut a hand (record (slot a hand) { visited = 0 }) in
    let more = sieve_scan rounds b (advance b hand) in
    if (slot a hand).visited == 0 then (hand, set_hand a (advance a hand)) else more

-- `capacity * 2` is a `u32`
unfoldable pub sieve_evict : Arena → ℤ × Arena
unfolding sieve_scan
sieve_evict a =
    let hand = if is_none a.header.sieve_hand then a.header.list_head else a.header.sieve_hand in
    let found = sieve_scan ((a.header.capacity * 2) % 2 ^ 32) a hand in
    if is_none a.header.list_head then (slot_none, a) else found
