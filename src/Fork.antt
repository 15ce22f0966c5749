-- ===== src/Fork.antt =====
-- lab3_fork: a parent that waits for its child and tells how it ended.
pub mod Status
pub mod Hierarchy
pub mod Laws
mod Tests
