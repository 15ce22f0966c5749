-- ===== src/CondVar.antt =====
-- lab11_condvar: one writer, and readers that wait at a condition variable for new letters.
pub mod System
pub mod Invariant
pub mod Knows
pub mod Writer
pub mod Reader
pub mod Schedules
pub mod Absent
pub mod Progress
pub mod Main
mod Tests
