-- ===== src/Shm/Optimistic/Linear.antt =====
-- A reader of src/shm/mod.rs between the two calls of the seqlock of src/shm/lock.rs, while other threads write.
use warp_cache.Base.{ℕ, ◌^◌, ◌<◌, ◌≡◌, refl, sym, ap, ◌∙◌, true, List}
use warp_cache.Shm.Lock.{read_validate, reading, System, Reach}
use warp_cache.Shm.Lock.Invariant.{Seen}
use warp_cache.Shm.Lock.Safety.{validated_read}
use warp_cache.Shm.Cache.{OptimisticResult, ht_lookup_checked}
use warp_cache.Shm.Optimistic.{Prog, ret, load, eval, Runs, begin, next, optimistic_prog, region_of}
use warp_cache.Shm.Optimistic.Eval.{optimistic-ht_lookup_checked}

-- A run that has seen the words of a memory is the run on it.
Runs-eval :
    {A : Type 0} (w : ℕ → ℕ) (p q : Prog A) (seen : List (ℕ × ℕ))
    → Runs p seen q
    → Seen w seen
    → eval w p ≡ eval w q
unfolding eval Seen
Runs-eval w p q seen begin s = refl
Runs-eval w p q seen (next {k = k} a v r) s =
    Runs-eval w p (load a k) _ r s.1 ∙ ap (λ x. eval w (k x)) s.0

-- In every state reached in fewer than 2^64 steps of any threads: if a reader has run through the loads of
-- `get_optimistic` to a result and `read_validate` returns true, then this is the result of the lookup on the
-- region that is in memory at this moment, however the loads and the stores of writers were interleaved.
pub validated-ht_lookup_checked :
    {data_words : ℕ → ℕ} {k : ℕ} {s : System} (i q : ℕ) (seen : List (ℕ × ℕ)) (now key_hash : ℕ)
    (key_bytes : List ℕ) (result : OptimisticResult)
    → k < 2 ^ 64
    → Reach data_words k s
    → s.pc i ≡ reading q seen
    → Runs (optimistic_prog now key_hash key_bytes) seen (ret result)
    → read_validate s.mem q ≡ true
    → result ≡ ht_lookup_checked (region_of s.mem.data_words) now key_hash key_bytes
unfolding eval
validated-ht_lookup_checked {s = s} i q seen now key_hash key_bytes result small r here run valid =
    let (same, quiet) = validated_read i q seen small r here valid in
    sym (Runs-eval s.mem.data_words _ (ret result) seen run same)
    ∙ optimistic-ht_lookup_checked s.mem.data_words now key_hash key_bytes
