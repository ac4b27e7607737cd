-- ===== src/Store.antt =====
-- src/store.rs, src/key.rs, src/entry.rs: the in-process backend. A shard is a hash map and a queue
-- of keys with the SIEVE hand.
pub mod Map
pub mod Seq
pub mod Guard
pub mod Shard
pub mod Raised
pub mod Invariant
pub mod Scan
pub mod Evict
pub mod Room
pub mod Function
pub mod Order
pub mod Keys
