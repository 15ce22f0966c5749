-- ===== src/Ls.antt =====
-- lab2_ls/myls.c: `myls [-a] [-l] [-h] [directory]`.
pub mod Order
pub mod Entry
pub mod Directory
pub mod Main
mod Tests
