-- ===== src/Tests/Cache.antt =====
-- A new cache of two slots, with one insertion.
use warp_cache.Base.{pos, ℕ, ◌≡◌, inl, refl, sym, subst, arith, none, some, List, [], ◌∷◌}
use warp_cache.Base.Pow2.{next_power_of_two}
use warp_cache.Shm.HashTable.{start_index, probe, ht_lookup, ht_insert}
use warp_cache.Shm.Ordering.{list_push_tail}
use warp_cache.Shm.Region
use warp_cache.Shm.Region.{
  Region, Result, Config, create, table_size, init_slots, init_buckets, init_header, zero_slot,
  zero_bucket,
}
use warp_cache.Shm.Region.Fresh.{upto}
use warp_cache.Shm.Cache.{
  OptimisticResult, get_finish, ShmCache, shm_config, shm_create_or_open, ht_lookup_checked,
  ShmGetResult, shm_get, insert_entry, allocate, write_entry, link_entry, insert_inner, clear_inner,
}
use warp_cache.Shm.Cache.Invariant.{IsCache}
use warp_cache.Shm.Cache.Insert.{Inserts, insert_inner-Inserts}
use warp_cache.Shm.Cache.Lookup.{read_slot, ht_lookup_checked-ht_lookup}
use warp_cache.Shm.Cache.Get.{Gets, shm_get-Gets}
use warp_cache.Shm.Cache.Clear.{clear_inner-IsCache, shm_create_or_open-IsCache}
use warp_cache.Shm.Cache.Fetch.{insert_inner-shm_get}
use warp_cache.Shm.Cache.History.{
  insert, clear, latest, Runs, opened, inserted, cleared, get_finish-latest,
}

abbrev pub blank : ShmCache
blank = record {
  region = record {
    header = init_header (shm_config 2 4 8 none) 4;
    buckets = init_buckets (λ i. zero_bucket) 4;
    slots = init_slots 2 (λ i. zero_slot) 2;
  };
  next_unique_id = 0;
}

pub made : shm_create_or_open none 2 4 8 none ≡ Result.ok blank
unfolding shm_create_or_open shm_config Region.create_or_open create table_size next_power_of_two
made = refl

pub no_lifetime : blank.region.header.ttl_nanos ≡ 0
unfolding shm_config
no_lifetime = refl

pub blank-IsCache : IsCache 2 4 12 blank.region [] (upto 0 2) []
unfolding shm_config
blank-IsCache =
    let (c, n, run, cache) = shm_create_or_open-IsCache 2 4 8 none (omega arith) (omega arith) in
    let same : c ≡ blank = ground (arith, run, made) in
    let here = subst (λ (x : ShmCache). IsCache 2 n 12 x.region [] (upto 0 2) []) same cache in
    subst (λ k. IsCache 2 k 12 blank.region [] (upto 0 2) []) (sym here.shape.ht_capacity) here

abbrev pub key : List ℕ
key = 8 ∷ 0 ∷ []

abbrev pub value : List ℕ
value = 1 ∷ 2 ∷ 3 ∷ []

insert_inner-Inserts_example : (c : ShmCache) × Inserts 2 4 12 blank [] 50 9 key value c
insert_inner-Inserts_example = insert_inner-Inserts blank 50 9 key value blank-IsCache (omega arith)

abbrev pub entry_cache : ShmCache
entry_cache = elim (insert_inner blank 50 9 key value) [ none ↦ blank | some c ↦ c ]

inserts : insert_inner blank 50 9 key value ≡ some entry_cache
unfolding insert_inner insert_entry allocate write_entry link_entry shm_config init_slots
    init_buckets ht_lookup probe start_index
inserts = refl

entered : Inserts 2 4 12 blank [] 50 9 key value entry_cache
entered =
    let (c, done) = insert_inner-Inserts blank 50 9 key value blank-IsCache (omega arith) in
    let same : c ≡ entry_cache = ground (arith, done.result, inserts) in
    subst (λ x. Inserts 2 4 12 blank [] 50 9 key value x) same done

shm_get-Gets_example :
    (r : Region) × (answer : ShmGetResult) × Gets 2 4 12 entry_cache.region entered.list 60 9 key r
      answer
shm_get-Gets_example = shm_get-Gets entry_cache.region 60 9 key entered.cache (omega arith)

ht_lookup_checked-ht_lookup_example :
    ht_lookup_checked entry_cache.region 60 9 key
    ≡ read_slot entry_cache.region 60 (
        ht_lookup entry_cache.region.buckets entry_cache.region.header.ht_capacity
          entry_cache.region.slots 9 key)
ht_lookup_checked-ht_lookup_example = ht_lookup_checked-ht_lookup 60 9 key entered.cache

clear_inner-IsCache_example : IsCache 2 4 12 (clear_inner entry_cache.region) [] (upto 0 2) []
clear_inner-IsCache_example = clear_inner-IsCache entry_cache.region entered.cache

insert_inner-shm_get_example :
    (r : Region) × (shm_get entry_cache.region 60 9 key ≡ some (r, ShmGetResult.hit value))
insert_inner-shm_get_example =
    insert_inner-shm_get blank entry_cache 50 60 9 key value blank-IsCache (omega arith) inserts
      (inl no_lifetime)

pub looked_up : ht_lookup_checked entry_cache.region 60 9 key ≡ OptimisticResult.hit value (pos 0)
unfolding ht_lookup_checked insert_inner ht_lookup init_buckets list_push_tail ht_insert shm_config
looked_up = refl

pub entry_Runs : Runs 2 4 8 none (insert 9 key value ∷ []) entry_cache.region
entry_Runs = inserted 0 50 9 key value (opened made) (omega arith) (omega arith) inserts

get_finish-latest_example :
    (latest (insert 9 key value ∷ []) 9 key ≡ some value)
    × ((r : Region) × (get_finish
            (clear_inner entry_cache.region)
            9
            key
            (OptimisticResult.hit value (pos 0))
          ≡ some (r, ShmGetResult.hit value))
        × Runs 2 4 8 none (clear ∷ insert 9 key value ∷ []) r)
get_finish-latest_example =
    get_finish-latest {ttl_nanos = none} (omega arith) (omega arith) (omega arith) 60 9 key value
      (pos 0) entry_Runs (cleared entry_Runs) (omega arith) looked_up
