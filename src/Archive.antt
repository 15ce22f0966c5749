-- ===== src/Archive.antt =====
-- lab5_archive/main.c: an archive of records in one file, with adding, listing, extracting and
-- the compression that drops the records marked as deleted.
pub mod Io
pub mod Record
pub mod Disk
pub mod Compress
pub mod Add
pub mod Scan
pub mod Extract
pub mod Display
pub mod RoundTrip
pub mod Main
mod Tests
