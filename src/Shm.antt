-- ===== src/Shm.antt =====
-- The shared-memory backend, src/shm.
pub mod Layout
pub mod HashTable
pub mod Region
pub mod Ordering
pub mod Cache
pub mod Lock
pub mod Optimistic
