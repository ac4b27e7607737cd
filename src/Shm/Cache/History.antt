-- ===== src/Shm/Cache/History.antt =====
-- Any number of processes on one region. An insertion and a clearing run under the write lock; a read is
-- its validated lookup, and later its end, with any operations of other processes in between.
use warp_cache.Base.{
  ℕ, ◌+◌, ◌^◌, ◌≤◌, ◌<◌, ◌≡◌, ◌⊎◌, inl, inr, refl, sym, ap, subst, ◌∙◌, arith, ◌==◌, ◌&&◌, true,
  Bool-cases, if◌then◌else◌, Option, none, some, List, [], ◌∷◌, ℤ, length, bytes_eq, bytes_eq_refl,
  eq_of_bytes_eq,
}
use native.Mathlib.Nat.{mod-eq_of_lt}
use warp_cache.Shm.Ordering.List.{On}
use warp_cache.Shm.Region.{Region, Result}
use warp_cache.Shm.Region.Fresh.{upto}
use warp_cache.Shm.Cache.{
  ShmCache, value_of, OptimisticResult, get_finish, ht_lookup_checked, shm_create_or_open,
  insert_inner, ShmGetResult, clear_inner, shm_info,
}
use warp_cache.Shm.Cache.Invariant.{IsCache}
use warp_cache.Shm.Cache.Insert.{Binds, insert_inner-Inserts}
use warp_cache.Shm.Cache.Finish.{Indexed, get_finish-Finishes, ht_lookup_checked-Indexed}
use warp_cache.Shm.Cache.Clear.{clear_inner-IsCache, shm_create_or_open-IsCache}

pub data Event : Type 0 where
  insert : (key_hash : ℕ) → (key value : List ℕ) → Event
  clear : Event

-- What was inserted last under the hash and the key, since the last clearing; the latest event comes first.
unfoldable pub latest : List Event → ℕ → List ℕ → Option (List ℕ)
latest [] h k = none
latest (clear ∷ events) h k = none
latest (insert key_hash key value ∷ events) h k =
    let before = latest events h k in if key_hash == h && bytes_eq key k then some value else before

-- The region after the events, and ends of reads between them. Of the lookup of a read, at whatever earlier
-- time, it is only asked that its index is below the capacity. A process counts its own `next_unique_id`.
pub data Runs (capacity max_key_size max_value_size : ℕ) (ttl_nanos : Option ℕ)
    : List Event → Region → Type 0 where
  opened :
      {c : ShmCache}
      → shm_create_or_open none capacity max_key_size max_value_size ttl_nanos ≡ Result.ok c
      → Runs capacity max_key_size max_value_size ttl_nanos [] c.region
  inserted :
      {events : List Event} {r : Region} {c : ShmCache} (next_unique_id now key_hash : ℕ)
      (key value : List ℕ)
      → Runs capacity max_key_size max_value_size ttl_nanos events r
      → length key ≤ max_key_size
      → length value ≤ max_value_size
      → insert_inner (record { region = r; next_unique_id = next_unique_id }) now key_hash key value
        ≡ some c
      → Runs capacity max_key_size max_value_size ttl_nanos
          (insert key_hash key value ∷ events)
          c.region
  finished :
      {events : List Event} {r r' : Region} {answer : ShmGetResult} (key_hash : ℕ) (key : List ℕ)
      (result : OptimisticResult)
      → Runs capacity max_key_size max_value_size ttl_nanos events r
      → Indexed capacity result
      → get_finish r key_hash key result ≡ some (r', answer)
      → Runs capacity max_key_size max_value_size ttl_nanos events r'
  cleared :
      {events : List Event} {r : Region}
      → Runs capacity max_key_size max_value_size ttl_nanos events r
      → Runs capacity max_key_size max_value_size ttl_nanos (clear ∷ events) (clear_inner r)

latest-new :
    (events : List Event) (h : ℕ) (k v : List ℕ) → latest (insert h k v ∷ events) h k ≡ some v
unfolding latest
latest-new events h k v =
    let e : (h == h && bytes_eq k k) ≡ true = ground (arith, bytes_eq_refl k) in rw (latest, e) refl

latest-old :
    (events : List Event) (h h' : ℕ) (k k' v : List ℕ)
    → ¬ ((h' ≡ h) × (k' ≡ k))
    → latest (insert h k v ∷ events) h' k' ≡ latest events h' k'
unfolding latest
latest-old events h h' k k' v apart = elim (Bool-cases (h == h' && bytes_eq k k')) [
  | inr e ↦ rw (latest, e) refl
  | inl e ↦
      let same_hash : h' ≡ h = ground arith in
      let same : k ≡ k' = eq_of_bytes_eq k k' (ground arith) in absurd (apart (same_hash, sym same))
]

same_key_or : (h h' : ℕ) (k k' : List ℕ) → ((h' ≡ h) × (k' ≡ k)) ⊎ (¬ ((h' ≡ h) × (k' ≡ k)))
same_key_or h h' k k' = elim (Bool-cases (h == h' && bytes_eq k k')) [
  | inl e ↦
      let same_hash : h' ≡ h = ground arith in
      inl (same_hash, sym (eq_of_bytes_eq k k' (let b : bytes_eq k k' ≡ true = ground arith in b)))
  | inr e ↦ inr (λ (d, d').
      let a : (h == h' && bytes_eq k k') ≡ true =
        subst (λ x. (h == h' && bytes_eq k x) ≡ true) (sym d') (ground (arith, bytes_eq_refl k)) in
      ground arith)
]

-- The cache is well-formed, and every entry is the latest of its key.
pub record Holds (capacity n space : ℕ) (events : List Event) (r : Region) : Type 0 where
  pub list : List ℕ
  pub free : List ℕ
  pub cache : IsCache capacity n space r list free []
  pub latest_value :
      (h : ℕ) (k v : List ℕ) (i : ℕ) → Binds r list h k v i → latest events h k ≡ some v

-- One key has one slot, so one value.
one_value :
    {capacity n space : ℕ} {r : Region} {xs ys : List ℕ} (h : ℕ) (k v v' : List ℕ) (i j : ℕ)
    → IsCache capacity n space r xs ys []
    → Binds r xs h k v i
    → Binds r xs h k v' j
    → v ≡ v'
one_value {r} h k v v' i j c b b' =
    let d : i ≡ j =
      c.table.distinct i j b.on b'.on (b.hash ∙ sym b'.hash) (b.key_bytes ∙ sym b'.key_bytes) in
    sym b.value_bytes ∙ (ap (λ x. value_of (r.slots x)) d ∙ b'.value_bytes)

insert-Holds :
    {capacity n space : ℕ} {events : List Event} {r : Region} (c : ShmCache) (uid now key_hash : ℕ)
    (key value : List ℕ)
    → Holds capacity n space events r
    → length key + length value ≤ space
    → insert_inner (record { region = r; next_unique_id = uid }) now key_hash key value ≡ some c
    → Holds capacity n space (insert key_hash key value ∷ events) c.region
insert-Holds {capacity} {n} {space} {events} {r} c uid now key_hash key value held fits run =
    let (c', done) =
      insert_inner-Inserts (record { region = r; next_unique_id = uid }) now key_hash key value
        held.cache fits in
    let same : c' ≡ c = ground (arith, run, done.result) in
    subst (λ (x : ShmCache). Holds capacity n space (insert key_hash key value ∷ events) x.region)
      same
      (record {
        list = done.list;
        free = done.free;
        cache = done.cache;
        latest_value = λ h k v i b. elim (same_key_or key_hash h key k) [
          | inl (e, e') ↦
              let b' = subst (λ x. Binds c'.region done.list x k v i) e b in
              let b2 = subst (λ x. Binds c'.region done.list key_hash x v i) e' b' in
              subst (λ x. latest (insert key_hash key value ∷ events) x k ≡ some v) (sym e)
                (subst (λ x. latest (insert key_hash key value ∷ events) key_hash x ≡ some v)
                  (sym e')
                  (latest-new events key_hash key value
                    ∙ ap some
                        (one_value key_hash key value v done.index i done.cache done.binds b2)))
          | inr apart ↦
              latest-old events key_hash h key k value apart
              ∙ held.latest_value h k v i (done.others h k v i apart b)
        ];
      })

finish-Holds :
    {capacity n space : ℕ} {events : List Event} {r : Region} (r' : Region) (answer : ShmGetResult)
    (key_hash : ℕ) (key : List ℕ) (result : OptimisticResult)
    → Holds capacity n space events r
    → Indexed capacity result
    → get_finish r key_hash key result ≡ some (r', answer)
    → Holds capacity n space events r'
finish-Holds {capacity} {n} {space} {events} {r} r' answer key_hash key result held low run =
    let (r2, a, done) = get_finish-Finishes r key_hash key held.cache result low in
    let same : r2 ≡ r' = ground (arith, run, done.run) in
    subst (λ x. Holds capacity n space events x) same
      (record {
        list = done.list;
        free = done.free;
        cache = done.cache;
        latest_value = λ h k v i b. held.latest_value h k v i (done.kept h k v i b);
      })

module _ {capacity max_key_size max_value_size : ℕ} {ttl_nanos : Option ℕ} (low : 1 ≤ capacity)
    (high : capacity ≤ 2 ^ 30) (sizes : max_key_size + max_value_size < 2 ^ 32) where
  pub Runs-Holds :
      {events : List Event} {r : Region}
      → Runs capacity max_key_size max_value_size ttl_nanos events r
      → (n : ℕ) × Holds capacity n (max_key_size + max_value_size) events r
  unfolding On latest
  Runs-Holds (opened {c} run) =
      let (c', n, made, cache) =
        shm_create_or_open-IsCache capacity max_key_size max_value_size ttl_nanos low high in
      let same : c' ≡ c = ground (arith, run, made) in
      (
        n,
        record {
          list = [];
          free = upto 0 capacity;
          cache =
              subst
                (λ (x : ShmCache).
                  IsCache capacity n (max_key_size + max_value_size) x.region [] (upto 0 capacity)
                    [])
                same
                (subst (λ k. IsCache capacity n k c'.region [] (upto 0 capacity) [])
                  (mod-eq_of_lt sizes) cache);
          latest_value = λ h k v i b. absurd b.on;
        },
      )
  Runs-Holds (inserted {c = c} uid now h key value runs fit_k fit_v run) =
      let (n, held) = Runs-Holds runs in
      (n, insert-Holds c uid now h key value held (omega arith) run)
  Runs-Holds (finished {r' = r'} {answer} h key result runs low run) =
      let (n, held) = Runs-Holds runs in (n, finish-Holds r' answer h key result held low run)
  Runs-Holds (cleared {r = r} runs) =
      let (n, held) = Runs-Holds runs in
      (
        n,
        record {
          list = [];
          free = upto 0 capacity;
          cache = clear_inner-IsCache r held.cache;
          latest_value = λ h k v i b. absurd b.on;
        },
      )

  -- Whatever insertions, ends of reads and clearings the processes have made since the cache of 1 to 2^30
  -- entries was created, with sizes of keys and values together below 2^32: if a lookup with a key shorter
  -- than 2^32 bytes is a hit, then its value is the one that was inserted last under the hash and the key,
  -- since the last clearing; and whatever they have done when the read ends, it ends, and returns this value.
  pub get_finish-latest :
      {events events' : List Event} {r r' : Region} (now key_hash : ℕ) (key v : List ℕ) (index : ℤ)
      → Runs capacity max_key_size max_value_size ttl_nanos events r
      → Runs capacity max_key_size max_value_size ttl_nanos events' r'
      → length key < 2 ^ 32
      → ht_lookup_checked r now key_hash key ≡ OptimisticResult.hit v index
      → (latest events key_hash key ≡ some v)
        × ((r2 : Region) × (get_finish r' key_hash key (OptimisticResult.hit v index)
              ≡ some (r2, ShmGetResult.hit v))
            × Runs capacity max_key_size max_value_size ttl_nanos events' r2)
  unfolding get_finish
  get_finish-latest {r = r} {r' = r'} now key_hash key v index runs runs' small looked =
      let (n, held) = Runs-Holds runs in
      let (low, bound) = ht_lookup_checked-Indexed r key_hash key held.cache now small in
      let (i, b) = bound v index looked in
      (
        held.latest_value key_hash key v i b,
        (
          _,
          refl,
          finished key_hash key (OptimisticResult.hit v index) runs'
              (subst (λ x. Indexed capacity x) looked low) refl,
        ),
      )

  -- Whatever the processes have done to a new cache, the reported size is at most the maximum, which is the
  -- one that was asked for.
  pub shm_info-bounds :
      {events : List Event} {r : Region}
      → Runs capacity max_key_size max_value_size ttl_nanos events r
      → ((shm_info r).current_size ≤ (shm_info r).max_size) × ((shm_info r).max_size ≡ capacity)
  unfolding shm_info
  shm_info-bounds runs =
      let (n, held) = Runs-Holds runs in
      let c = held.cache in
      (omega (arith, c.size, c.placed.count, c.shape.capacity), c.shape.capacity)
