-- ===== src/Shm/Region/Fresh.antt =====
-- What `create` and `create_or_open` give.
use warp_cache.Base.{
  ℕ, zero, suc, ◌+◌, ◌*◌, ◌^◌, ◌≤◌, ◌<◌, ◌≡◌, refl, ap, ◌∙◌, arith, true, Bool-cases, inl, inr, ◌⊎◌,
  ◌==◌, ltb, if◌then◌else◌, Option, none, some, List, [], ◌∷◌, ℤ, pos, bytes_eq, bytes_eq_refl,
  eq_of_bytes_eq, subst, is_none, as_usize,
}
use native.Mathlib.Nat.{pow-le-pow_right}
use warp_cache.Base.Pow2.{next_power_of_two, next_power_of_two_lem}
use warp_cache.Shm.Layout.{Bucket, Slot, magic, version, slot_none}
use warp_cache.Shm.HashTable.{empty_bucket}
use warp_cache.Shm.HashTable.Ring.{IsPow2, pos_of_IsPow2}
use warp_cache.Shm.HashTable.Probe.{is_full, Full}
use warp_cache.Shm.HashTable.Laws.{IsIndexed}
use warp_cache.Shm.Region.{
  Region, ok, err, capacity_zero, capacity_too_large, Config, checked_double,
  checked_next_power_of_two, table_size, init_slots, init_buckets, create, create_or_open,
  params_match, open_paths, zero_bucket, zero_slot, init_header,
}

ltb-cases : (a b : ℕ) → (a < b) ⊎ (b ≤ a)
ltb-cases a b = elim (Bool-cases (ltb a b)) [
  | inl h ↦ inl (ground arith)
  | inr h ↦ inr (ground arith)
]

init_buckets-empty :
    (buckets : ℕ → Bucket) (n i : ℕ) → i < n → init_buckets buckets n i ≡ empty_bucket
unfolding init_buckets
init_buckets-empty buckets zero i h = absurd (omega arith)
init_buckets-empty buckets (suc n) i h = ground (arith, init_buckets-empty buckets n i)

pub init_slots-next :
    (capacity : ℕ) (slots : ℕ → Slot) (n i : ℕ)
    → i < n
    → ((init_slots capacity slots n i).next
        ≡ (if ltb (i + 1) capacity then pos (i + 1) else slot_none))
      × ((init_slots capacity slots n i).occupied ≡ 0)
unfolding init_slots
init_slots-next capacity slots zero i h = absurd (omega arith)
init_slots-next capacity slots (suc n) i h = elim (Bool-cases (n == i)) [
  | inl same ↦ (ground arith, ground arith)
  | inr other ↦
      let (next, occupied) = init_slots-next capacity slots n i (ground arith) in
      (ground arith, ground arith)
]

small_exponent : (k : ℕ) → 2 ^ k < 2 ^ 32 → k ≤ 31
small_exponent k h = elim (ltb-cases 31 k) [
  | inl big ↦
      absurd (omega (arith, pow-le-pow_right {n = 2} (omega arith) {i = 32} {j = k} (omega arith)))
  | inr small ↦ small
]

large_exponent : (k : ℕ) → 2 ^ 31 < 2 ^ k → 2 ^ 32 ≤ 2 ^ k
large_exponent k h = elim (ltb-cases 31 k) [
  | inl big ↦ pow-le-pow_right {n = 2} (omega arith) {i = 32} {j = k} (omega arith)
  | inr small ↦
      absurd (omega (arith, pow-le-pow_right {n = 2} (omega arith) {i = k} {j = 31} (omega arith)))
]

-- For a capacity that fits the bound, the size of the table is a power of two, at least twice the capacity.
table_size-IsPow2 :
    (capacity : ℕ)
    → 1 ≤ capacity
    → capacity ≤ 2 ^ 30
    → (n : ℕ) × (table_size capacity ≡ some n) × IsPow2 n × (capacity * 2 ≤ n)
unfolding table_size checked_double checked_next_power_of_two
table_size-IsPow2 capacity low high =
    let spec = next_power_of_two_lem (capacity * 2) (omega arith) in
    let n = next_power_of_two (capacity * 2) in
    let power : n ≡ 2 ^ spec.steps = omega (arith, spec.power) in
    let below : n < 2 ^ 32 = ground (arith, spec.least, spec.enough) in
    (
      n,
      ground arith,
      record { exponent = spec.steps; small = small_exponent _ (omega arith); power = power },
      spec.enough,
    )

table_size-none :
    (capacity : ℕ) → 2 ^ 30 < capacity → capacity < 2 ^ 32 → table_size capacity ≡ none
unfolding table_size checked_double checked_next_power_of_two
table_size-none capacity low high = elim (ltb-cases (capacity * 2) (2 ^ 32)) [
  | inr big ↦ ground arith
  | inl fits ↦
      let spec = next_power_of_two_lem (capacity * 2) (omega arith) in
      let power : next_power_of_two (capacity * 2) ≡ 2 ^ spec.steps = omega (arith, spec.power) in
      let large = large_exponent spec.steps (omega (arith, spec.enough)) in ground arith
]

-- the slots that a list of free slots runs through, at most `fuel`
unfoldable pub chain : ℕ → (ℕ → Slot) → ℤ → List ℕ
chain zero slots index = []
chain (suc fuel) slots index =
    let rest = chain fuel slots (slots (as_usize index)).next in
    if is_none index then [] else as_usize index ∷ rest

-- `k, k + 1, ...`, in all `n` numbers
unfoldable pub upto : ℕ → ℕ → List ℕ
upto k zero = []
upto k (suc n) = k ∷ upto (suc k) n

chain-upto :
    (slots : ℕ → Slot) (capacity k n : ℕ)
    → ((i : ℕ)
        → i < capacity
        → (slots i).next ≡ (if ltb (i + 1) capacity then pos (i + 1) else slot_none))
    → suc (k + n) ≡ capacity
    → chain (suc (suc n)) slots (pos k) ≡ upto k (suc n)
unfolding chain upto
chain-upto slots capacity k zero next total =
    let last : (slots k).next ≡ slot_none = next k (omega arith) ∙ ground arith in rw last refl
chain-upto slots capacity k (suc n) next total =
    let more : (slots k).next ≡ pos (suc k) = next k (omega arith) ∙ ground arith in
    rw more (ap (λ l. k ∷ l) (chain-upto slots capacity (suc k) n next (omega arith)))

free_all :
    (capacity : ℕ)
    → 1 ≤ capacity
    → chain (suc capacity) (init_slots capacity (λ i. zero_slot) capacity) (pos 0) ≡ upto 0 capacity
free_all zero low = absurd (omega arith)
free_all (suc n) low =
    chain-upto (init_slots (suc n) (λ i. zero_slot) (suc n)) (suc n) 0 n
      (λ i h. (init_slots-next (suc n) (λ i. zero_slot) (suc n) i h).0) (omega arith)

-- A region as `create` leaves it: parameters in the header, an indexed table with no entry, at least twice
-- as large as the slab, and a free list of every slot in order, each at its place and not occupied.
pub record IsFresh (c : Config) (r : Region) : Type 0 where
  pub header : r.header ≡ init_header c r.header.ht_capacity
  pub table : IsIndexed r.header.ht_capacity r.buckets r.slots
  pub empty : (i : ℕ) → i < r.header.ht_capacity → r.buckets i ≡ empty_bucket
  pub roomy : c.capacity * 2 ≤ r.header.ht_capacity
  pub free : chain (suc c.capacity) r.slots r.header.free_head ≡ upto 0 c.capacity
  pub next :
      (i : ℕ)
      → i < c.capacity
      → (r.slots i).next ≡ (if ltb (i + 1) c.capacity then pos (i + 1) else slot_none)
  pub unused : (i : ℕ) → i < c.capacity → (r.slots i).occupied ≡ 0

empty_table :
    (n : ℕ) (ht : ℕ → Bucket) (slots : ℕ → Slot)
    → IsPow2 n
    → ((i : ℕ) → i < n → ht i ≡ empty_bucket)
    → IsIndexed n ht slots
empty_table n ht slots sized empty =
    let no_entry : (i : ℕ) → i < n → ¬ Full (ht i) =
      λ i hi full. ground (arith, ap (λ b. is_full b) (empty i hi)) in
    record {
      table = record {
        sized = sized;
        no_gap = λ i p hi hp full near. absurd (no_entry i hi full);
        room = (0, pos_of_IsPow2 sized, rw (empty 0 (pos_of_IsPow2 sized)) refl);
      };
      live = λ i hi full. absurd (no_entry i hi full);
      distinct = λ i j hi hj full. absurd (no_entry i hi full);
    }

-- For a capacity from 1 to 2^30, `create` succeeds with a fresh region.
pub create-IsFresh :
    (c : Config)
    → 1 ≤ c.capacity
    → c.capacity ≤ 2 ^ 30
    → (r : Region) × (create c ≡ ok r) × IsFresh c r
unfolding create
create-IsFresh c low high =
    let (n, size, sized, roomy) = table_size-IsPow2 c.capacity low high in
    let r : Region = record {
      header = init_header c n;
      buckets = init_buckets (λ i. zero_bucket) n;
      slots = init_slots c.capacity (λ i. zero_slot) c.capacity;
    } in
    let empty : (i : ℕ) → i < n → r.buckets i ≡ empty_bucket =
      λ i h. init_buckets-empty (λ i. zero_bucket) n i h in
    (
      r,
      ground arith,
      record {
        header = refl;
        table = empty_table n r.buckets r.slots sized empty;
        empty = empty;
        roomy = roomy;
        free = free_all c.capacity low;
        next = λ i h. (init_slots-next c.capacity (λ i. zero_slot) c.capacity i h).0;
        unused = λ i h. (init_slots-next c.capacity (λ i. zero_slot) c.capacity i h).1;
      },
    )

-- `create` rejects a capacity of 0 and, with another error, one above 2^30.
pub create-err :
    (c : Config)
    → c.capacity < 2 ^ 32
    → (c.capacity ≡ 0) ⊎ (2 ^ 30 < c.capacity)
    → create c ≡ err (if c.capacity == 0 then capacity_zero else capacity_too_large)
unfolding create
create-err c small (inl z) = rw (create, z) refl
create-err c small (inr big) = ground (arith, table_size-none c.capacity big small)

-- What the caller asked for stands in the header.
pub record Matches (c : Config) (r : Region) : Type 0 where
  pub magic_bytes : r.header.magic_bytes ≡ magic
  pub version_number : r.header.version_number ≡ version
  pub capacity : r.header.capacity ≡ c.capacity
  pub max_key_size : r.header.max_key_size ≡ c.max_key_size
  pub max_value_size : r.header.max_value_size ≡ c.max_value_size
  pub ttl_nanos : r.header.ttl_nanos ≡ c.ttl_nanos

created_header :
    (c : Config) (r : Region)
    → create c ≡ ok r
    → (o : Option ℕ) → table_size c.capacity ≡ o
    → (n : ℕ) × (r.header ≡ init_header c n)
unfolding create
created_header c r h none p = absurd (ground arith)
created_header c r h (some n) p = (n, ground arith)

pub create-Matches : (c : Config) (r : Region) → create c ≡ ok r → Matches c r
create-Matches c r h =
    let (n, e) = created_header c r h (table_size c.capacity) refl in
    record {
      magic_bytes = ap (λ x. x.magic_bytes) e;
      version_number = ap (λ x. x.version_number) e;
      capacity = ap (λ x. x.capacity) e;
      max_key_size = ap (λ x. x.max_key_size) e;
      max_value_size = ap (λ x. x.max_value_size) e;
      ttl_nanos = ap (λ x. x.ttl_nanos) e;
    }

pub reopen : (c : Config) (r : Region) → Matches c r → create_or_open (some r) c ≡ ok r
unfolding create_or_open open_paths params_match
reopen c r m =
    let same : bytes_eq r.header.magic_bytes magic ≡ true =
      rw (m.magic_bytes) (bytes_eq_refl magic) in
    let match : params_match r.header c ≡ true =
      ground (arith, m.version_number, m.capacity, m.max_key_size, m.max_value_size, m.ttl_nanos) in
    ground arith

opened :
    (r : Region) (c : Config) (r' : Region)
    → create_or_open (some r) c ≡ ok r'
    → (create c ≡ ok r') ⊎ (Matches c r' × (r ≡ r'))
unfolding create_or_open open_paths params_match
opened r c r' h = elim (Bool-cases (bytes_eq r.header.magic_bytes magic)) [
  | inr bad ↦ inl (ground arith)
  | inl same ↦ elim (Bool-cases (params_match r.header c)) [
    | inr other ↦ inl (ground arith)
    | inl match ↦
        let e : r ≡ r' = ground arith in
        inr (
          subst (λ x. Matches c x) e
              (record {
                magic_bytes = eq_of_bytes_eq _ _ same;
                version_number = ground arith;
                capacity = ground arith;
                max_key_size = ground arith;
                max_value_size = ground arith;
                ttl_nanos = ground arith;
              }),
          e,
        )
  ]
]

created_slot_size : (c : Config) (r : Region) → create c ≡ ok r → r.header.slot_size ≡ c.slot_size
created_slot_size c r h =
    let (n, e) = created_header c r h (table_size c.capacity) refl in ap (λ x. x.slot_size) e

-- Whatever the two files hold, a region that `create_or_open` returns has the magic, the version, and the capacity, the
-- limits of keys and values and the lifetime of the caller, and a second `create_or_open` with these parameters opens it
-- as it is. The slot size is that of the caller too, unless the region is the one that was there before.
pub create_or_open_again :
    (files : Option Region) (c : Config) (r : Region)
    → create_or_open files c ≡ ok r
    → Matches c r
      × (create_or_open (some r) c ≡ ok r)
      × ((files ≡ some r) ⊎ (r.header.slot_size ≡ c.slot_size))
unfolding create_or_open
create_or_open_again none c r h =
    let m = create-Matches c r h in (m, reopen c r m, inr (created_slot_size c r h))
create_or_open_again (some r') c r h = elim (opened r' c r h) [
  | inl made ↦
      let m = create-Matches c r made in (m, reopen c r m, inr (created_slot_size c r made))
  | inr (m, same) ↦ (m, reopen c r m, inl (ap some same))
]
