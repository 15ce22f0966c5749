-- ===== src/CatGrep.antt =====
-- lab1_cat_grep/main.c: one program that is `mycat` or `mygrep` by the name that it is run under.
pub mod Stream
pub mod Cat
pub mod Grep
pub mod Main
mod Tests
