-- ===== src/Chmod.antt =====
-- lab4_chmod/mychmod.c: the numeric and the symbolic way to change the permissions of a file.
pub mod Os
pub mod Numeric
pub mod Symbolic
pub mod Main
mod Tests
