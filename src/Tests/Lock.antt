-- ===== src/Tests/Lock.antt =====
-- One thread takes the write lock; one thread reads a word.
use warp_cache.Base.{ℕ, ◌+◌, ◌≡◌, refl, arith, true, [], ◌∷◌, update}
use warp_cache.Shm.Lock.{
  Shared, init, is_even, read_validate, Pc, idle, beginning, reading, spinning, trying, locked,
  entering, writing, read, read_begin, load, write, see_free, cas_win, load_enter, store_enter,
  System, pick, Reach, start, later,
}
use warp_cache.Shm.Lock.Atomic.{apply, stored, Writes, now, own, other, atomic_write}

abbrev words : ℕ → ℕ
words a = a + 5

abbrev begun : System
begun = record { mem = init words; pc = λ _. idle }

abbrev at : System → Shared → Pc → System
at s m p = record { mem = m; pc = update s.pc 0 p }

abbrev spins : System
spins = at begun (init words) spinning

abbrev tries : System
tries = at spins (init words) trying

abbrev holding : System
holding = at tries (record (init words) { write_lock = 1 }) locked

holding-Reach : Reach words 3 holding
unfolding init
holding-Reach =
    later 0 (later 0 (later 0 start (pick write)) (pick (see_free refl))) (pick (cas_win refl))

abbrev enters : System
enters = at holding (record (init words) { write_lock = 1 }) (entering 0)

abbrev writes : System
writes = at enters (record (init words) { write_lock = 1; seq = 1 }) writing

writes-Reach : Reach words 5 writes
unfolding init
writes-Reach = later 0 (later 0 holding-Reach (pick load_enter)) (pick store_enter)

-- thread 0 stores a word, thread 1 begins to read, thread 0 stores another
abbrev one_stored : System
one_stored = stored 0 writes 3 99

abbrev other_begun : System
other_begun = record { mem = one_stored.mem; pc = update one_stored.pc 1 beginning }

writes-Writes : Writes 0 writes ((4, 7) ∷ (3, 99) ∷ []) 3 (stored 0 other_begun 4 7)
writes-Writes = own 4 7 (other 1 (omega arith) (own 3 99 now) (pick read))

atomic_write_example :
    Reach words 8 (stored 0 other_begun 4 7)
    × ((stored 0 other_begun 4 7).pc 0 ≡ writing)
    × ((stored 0 other_begun 4 7).mem.data_words
        ≡ apply ((4, 7) ∷ (3, 99) ∷ []) writes.mem.data_words)
atomic_write_example = atomic_write 0 (omega arith) writes-Reach refl writes-Writes

abbrev begins : System
begins = at begun (init words) beginning

abbrev reads : System
reads = at begins (init words) (reading 0 [])

abbrev has_read : System
has_read = at reads (init words) (reading 0 ((3, 8) ∷ []))

has_read-Reach : Reach words 3 has_read
unfolding init is_even
has_read-Reach =
    later 0 (later 0 (later 0 start (pick read)) (pick (read_begin refl))) (pick (load 3))

valid : read_validate has_read.mem 0 ≡ true
unfolding read_validate init
valid = refl
