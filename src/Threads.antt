-- ===== src/Threads.antt =====
-- What the programs with a writer and several readers share: families of threads, a lock, and the
-- array of letters.
pub mod Family
pub mod Owner
pub mod Letters
pub mod Launch
