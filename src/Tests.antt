-- ===== src/Tests.antt =====
-- Concrete runs of the code, and the theorems applied to concrete inputs.
mod Shm
mod Ordering
mod Start
mod Serde
mod Store
mod Function
mod Keys
mod Guard
mod Cache
mod Lock
mod Reader
mod Optimistic
mod Sections
mod Shared
