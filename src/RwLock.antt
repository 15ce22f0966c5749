-- ===== src/RwLock.antt =====
-- lab10_rwlock: one writer, and readers that share a read-write lock.
pub mod Format
pub mod System
pub mod Invariant
pub mod Writer
pub mod Reader
pub mod Schedules
pub mod Main
mod Tests
