-- ===== src/Mutex.antt =====
-- lab8_mtx: one writer and ten readers that share a buffer under a mutex.
pub mod System
pub mod Invariant
pub mod Writer
pub mod Reader
pub mod Schedules
pub mod Progress
pub mod Main
mod Tests
