-- ===== src/Shm/Layout.antt =====
-- src/shm/layout.rs: the structures in shared memory and where they lie. The padding fields are
-- left out. The key and value bytes that follow a slot header are the field `bytes` of the slot,
-- by their offset behind the header.
pub mod Bounds
use warp_cache.Base.{ℕ, ◌+◌, ◌*◌, List, [], ◌∷◌, ℤ, negsuc}

-- b"FCACHE01"
abbrev pub magic : List ℕ
magic = b'F' ∷ b'C' ∷ b'A' ∷ b'C' ∷ b'H' ∷ b'E' ∷ b'0' ∷ b'1' ∷ []

abbrev pub version : ℕ
version = 3

abbrev pub header_size : ℕ
header_size = 256

abbrev pub slot_none : ℤ
slot_none = negsuc 0

abbrev pub bucket_empty : ℤ
bucket_empty = negsuc 0

pub record Header : Type 0 where
  pub magic_bytes : List ℕ
  pub ttl_nanos : ℕ
  pub hits : ℕ
  pub misses : ℕ
  pub oversize_skips : ℕ
  pub version_number : ℕ
  pub strategy : ℕ
  pub capacity : ℕ
  pub ht_capacity : ℕ
  pub slot_size : ℕ
  pub max_key_size : ℕ
  pub max_value_size : ℕ
  pub current_size : ℕ
  pub list_head : ℤ
  pub list_tail : ℤ
  pub free_head : ℤ
  pub sieve_hand : ℤ

pub record Bucket : Type 0 where
  pub hash : ℕ
  pub slot_index : ℤ

abbrev pub bucket_size : ℕ
bucket_size = 16

abbrev pub slot_header_size : ℕ
slot_header_size = 64

pub record Slot : Type 0 where
  pub key_hash : ℕ
  pub created_at_nanos : ℕ
  pub visited : ℕ
  pub unique_id : ℕ
  pub occupied : ℕ
  pub key_len : ℕ
  pub value_len : ℕ
  pub prev : ℤ
  pub next : ℤ
  pub bytes : ℕ → ℕ

unfoldable pub region_size : ℕ → ℕ → ℕ → ℕ
region_size capacity ht_capacity slot_size =
    header_size + ht_capacity * bucket_size + capacity * slot_size

unfoldable pub ht_offset : ℕ
ht_offset = header_size

unfoldable pub slab_offset : ℕ → ℕ
slab_offset ht_capacity = header_size + ht_capacity * bucket_size
