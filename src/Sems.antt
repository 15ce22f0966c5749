-- ===== src/Sems.antt =====
-- lab9_sems: messages through a shared buffer, guarded by a semaphore.
pub mod Exchange
pub mod Invariant
pub mod Sender
pub mod Receiver
pub mod Schedules
pub mod Process
pub mod ThreadPair
pub mod Startup
mod Tests
