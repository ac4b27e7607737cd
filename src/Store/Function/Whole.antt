-- ===== src/Store/Function/Whole.antt =====
-- `__call__` as a whole, and `cache_clear`.
use warp_cache.Base.{
  ℕ, zero, suc, ◌≡◌, ◌≢◌, refl, arith, Bool, true, false, if◌then◌else◌, Bool-cases, inl, inr,
  Option, none, some,
}
use warp_cache.Store.Map
use warp_cache.Store.Map.{Compare, Key, SieveEntry, Map, Probe, found, absent, failed, IsEquality}
use warp_cache.Store.Shard.{Shard}
use warp_cache.Store.Function.{
  Cached, expired, Lookup, Begun, Done, returned, shard_of, mark, count_hit, count_miss, call_begin,
  call_finish, call, read, set, cache_info, cache_clear, total_size, cleared,
}
use warp_cache.Store.Function.Laws.{IsCached, set-Stores}
use warp_cache.Store.Function.Calls.{mark-IsCached, count_miss-IsCached, store_result-IsCached}

cleared_size :
    {Obj V : Type 0} (shards : ℕ → Shard Obj V) (n : ℕ) → total_size (λ i. cleared (shards i)) n ≡ 0
unfolding total_size cleared
cleared_size shards zero = refl
cleared_size shards (suc n) = omega (arith, cleared_size shards n)

abbrev emptied : {Obj V : Type 0} → Cached Obj V → Cached Obj V
emptied c = record c { shards = λ i. cleared (c.shards i); hits = 0; misses = 0 }

clear_idle : {Obj V : Type 0} (c : Cached Obj V) → c.active ≡ false → cache_clear c ≡ emptied c
unfolding cache_clear
clear_idle c idle = ground arith

info_idle :
    {Obj V : Type 0} (c : Cached Obj V)
    → c.active ≡ false
    → cache_info (emptied c)
      ≡ record { hits = 0; misses = 0; max_size = c.max_size; current_size = 0 }
unfolding cache_info
info_idle c idle = ground (arith, cleared_size c.shards c.n_shards)

read-emptied :
    {Obj V : Type 0} (rich_compare : Obj → Obj → Compare) (c : Cached Obj V) (key : Key Obj)
    (now : ℕ)
    → c.active ≡ false
    → (read rich_compare (emptied c) key now).1 ≡ Lookup.miss
unfolding read cleared Map.get
read-emptied rich_compare c key now idle = rw (read, idle) refl

module _ {Obj V : Type 0} (rich_compare : Obj → Obj → Compare) (cap : ℕ) where
  -- the wrapped function's own use of the cache leaves it well-formed
  abbrev pub Keeps : (Cached Obj V → Cached Obj V × Option V) → Type 0
  Keeps function =
      (c : Cached Obj V) → IsCached rich_compare cap c → IsCached rich_compare cap (function c).0

  abbrev Ends : Option (Cached Obj V × Done V) → Type 0
  Ends r = (c' : Cached Obj V) × (d : Done V) × (r ≡ some (c', d)) × IsCached rich_compare cap c'

module _ {Obj V : Type 0} (rich_compare : Obj → Obj → Compare) where
  begin_found :
      (c : Cached Obj V) (key : Key Obj) (now : ℕ) {e : SieveEntry V}
      → c.active ≡ false
      → Map.get rich_compare (shard_of rich_compare c key).map key ≡ found e
      → call_begin rich_compare c key now ≡ (
          if expired c.ttl e.created_at now
          then (c, Begun.run true)
          else (count_hit rich_compare (mark rich_compare c key), Begun.hit e.value))
  unfolding call_begin
  begin_found c key now idle p = ground arith

  begin_quiet :
      (c : Cached Obj V) (key : Key Obj) (now : ℕ) (r : Probe (SieveEntry V))
      → Map.get rich_compare (shard_of rich_compare c key).map key ≡ r
      → ((e : SieveEntry V) → r ≢ found e)
      → (call_begin rich_compare c key now).0 ≡ c
  unfolding call_begin
  begin_quiet c key now (found e) p q = absurd (q e refl)
  begin_quiet c key now absent p q = ground arith
  begin_quiet c key now failed p q = ground arith

  begin_busy :
      (c : Cached Obj V) (key : Key Obj) (now : ℕ)
      → c.active ≡ true
      → (call_begin rich_compare c key now).0 ≡ c
  unfolding call_begin
  begin_busy c key now busy = ground arith

  call_hit :
      (function : Cached Obj V → Cached Obj V × Option V) (c : Cached Obj V) (key : Key Obj)
      (now later : ℕ) {e : SieveEntry V}
      → c.active ≡ false
      → Map.get rich_compare (shard_of rich_compare c key).map key ≡ found e
      → expired c.ttl e.created_at now ≡ false
      → call rich_compare function c key now later
        ≡ some (count_hit rich_compare (mark rich_compare c key), returned e.value)
  unfolding call
  call_hit function c key now later idle f alive = ground (arith, begin_found c key now idle f)

module _ {Obj V : Type 0} {rich_compare : Obj → Obj → Compare} (lawful : IsEquality rich_compare)
    {cap : ℕ} where
  -- On a well-formed cache that is not in use, after `set` a call with the key returns the stored
  -- value without running the wrapped function, whatever that is, until the lifetime of the value
  -- has passed, and the cache is then well-formed. No other call of the cache comes in between.
  pub call-set :
      (c : Cached Obj V) (key : Key Obj) (value : V) (now later : ℕ)
      (function : Cached Obj V → Cached Obj V × Option V) (end : ℕ)
      → IsCached rich_compare cap c
      → c.active ≡ false
      → expired c.ttl now later ≡ false
      → (c' : Cached Obj V) × (c'' : Cached Obj V) × (set rich_compare c key value now
          ≡ some (c', false))
        × (call rich_compare function c' key later end ≡ some (c'', returned value))
        × IsCached rich_compare cap c''
  call-set c key value now later function end valid idle alive =
      let (c', ended, st) = set-Stores lawful valid key value now idle in
      let idle' : c'.active ≡ false = ground arith in
      let alive' : expired c'.ttl now later ≡ false = rw (st.ttl) alive in
      (
        c',
        count_hit rich_compare (mark rich_compare c' key),
        ended,
        call_hit rich_compare function c' key later end idle' (st.stored) alive',
        mark-IsCached lawful st.valid' key,
      )

  call_finish-IsCached :
      (c : Cached Obj V) (key : Key Obj) (entered : Bool) (result : V) (now : ℕ)
      → IsCached rich_compare cap c
      → Ends rich_compare cap (call_finish rich_compare c key entered result now)
  unfolding call_finish
  call_finish-IsCached c key false result now valid =
      (_, _, refl, count_miss-IsCached lawful valid key)
  call_finish-IsCached c key true result now valid = elim (Bool-cases c.active) [
    | inl busy ↦ (
      count_miss rich_compare c,
      returned result,
      ground arith,
      count_miss-IsCached lawful valid key,
    )
    | inr idle ↦
        let (c', d, ended, valid') = store_result-IsCached lawful valid key result now in
        (c', d, ground (arith, ended), valid')
  ]

  begin_idle :
      (c : Cached Obj V) (key : Key Obj) (now : ℕ)
      → IsCached rich_compare cap c
      → c.active ≡ false
      → (r : Probe (SieveEntry V)) → Map.get rich_compare (shard_of rich_compare c key).map key ≡ r
      → IsCached rich_compare cap (call_begin rich_compare c key now).0
  begin_idle c key now valid idle absent p =
      rw (begin_quiet rich_compare c key now absent p (λ e. λ q. ground arith)) valid
  begin_idle c key now valid idle failed p =
      rw (begin_quiet rich_compare c key now failed p (λ e. λ q. ground arith)) valid
  begin_idle c key now valid idle (found e) p =
      rw (begin_found rich_compare c key now idle p)
        (elim (Bool-cases (expired c.ttl e.created_at now)) [
          | inl old ↦ rw old valid
          | inr alive ↦ rw alive (mark-IsCached lawful valid key)
        ])

  call_begin-IsCached :
      (c : Cached Obj V) (key : Key Obj) (now : ℕ)
      → IsCached rich_compare cap c
      → IsCached rich_compare cap (call_begin rich_compare c key now).0
  call_begin-IsCached c key now valid = elim (Bool-cases c.active) [
    | inl busy ↦ rw (begin_busy rich_compare c key now busy) valid
    | inr idle ↦ begin_idle c key now valid idle _ refl
  ]

  -- If Python's == is an equivalence on all objects that never raises: whatever the wrapped function
  -- does with the cache, as long as it leaves a well-formed cache well-formed, `__call__` on a
  -- well-formed cache ends with a well-formed cache, whether the function returns or raises.
  pub call-IsCached :
      (function : Cached Obj V → Cached Obj V × Option V) (c : Cached Obj V) (key : Key Obj)
      (now later : ℕ)
      → Keeps rich_compare cap function
      → IsCached rich_compare cap c
      → (c' : Cached Obj V) × (d : Done V) × (call rich_compare function c key now later
          ≡ some (c', d))
        × IsCached rich_compare cap c'
  unfolding call
  call-IsCached function c key now later keeps valid = go (call_begin rich_compare c key now).1 refl
    where
      begun : IsCached rich_compare cap (call_begin rich_compare c key now).0
      begun = call_begin-IsCached c key now valid

      left : IsCached rich_compare cap (function (call_begin rich_compare c key now).0).0
      left = keeps _ begun

      ran :
          (entered : Bool)
          → (call_begin rich_compare c key now).1 ≡ Begun.run entered
          → (r : Option V) → (function (call_begin rich_compare c key now).0).1 ≡ r
          → Ends rich_compare cap (call rich_compare function c key now later)
      ran entered p none q = rw (call, p, q) (_, _, refl, left)
      ran entered p (some result) q =
          rw (call, p, q) (call_finish-IsCached _ key entered result later left)

      go :
          (b : Begun V)
          → (call_begin rich_compare c key now).1 ≡ b
          → Ends rich_compare cap (call rich_compare function c key now later)
      go (Begun.hit v) p = rw (call, p) (_, _, refl, begun)
      go Begun.raise p = rw (call, p) (_, _, refl, begun)
      go (Begun.run entered) p = ran entered p _ refl

  -- On a cache that is not in use, `cache_clear` leaves a well-formed cache of size 0, without hits or
  -- misses, where every read is a miss.
  pub cache_clear_lem :
      (c : Cached Obj V)
      → IsCached rich_compare cap c
      → c.active ≡ false
      → IsCached rich_compare cap (cache_clear c)
        × (cache_info (cache_clear c)
            ≡ record { hits = 0; misses = 0; max_size = c.max_size; current_size = 0 })
        × ((key : Key Obj) (now : ℕ) → (read rich_compare (cache_clear c) key now).1 ≡ Lookup.miss)
  unfolding cleared Map.get
  cache_clear_lem c valid idle = rw (clear_idle c idle) (
    record {
      shards = λ i. record { covered = λ k e h. absurd (ground arith); distinct = tt };
      positive = valid.positive;
      capacity = valid.capacity;
      within = λ i. omega arith;
    },
    info_idle c idle,
    λ key now. read-emptied rich_compare c key now idle,
  )
