-- ===== src/Shmem.antt =====
-- lab7_shmem: the time and the number of a process through shared memory, without a lock.
pub mod Transfer
pub mod Startup
mod Tests
