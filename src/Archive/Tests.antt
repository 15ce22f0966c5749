-- ===== src/Archive/Tests.antt =====
-- The theorems on lab5_archive/main.c at concrete archives.
mod Fixture
use secured_operation_system.Base.{
  ℕ, ◌<◌, ◌≡◌, ◌≢◌, refl, sym, ap, ◌∙◌, Bool, true, false, Option, none, some, List, [], ◌∷◌, ◌++◌,
  Bytes, bytes, c_str, map, arith, length, pos,
}
use secured_operation_system.Archive.Io.{
  Io, fail, amount, done, complete_write, duplicate_content, skip_bytes,
}
use secured_operation_system.Archive.Io.Write.{Prefix, complete_write-Prefix}
use secured_operation_system.Archive.Io.Copy.{Copies, duplicate_content-Copies}
use secured_operation_system.Archive.Io.Skip.{Skips, skip_bytes-Skips}
use secured_operation_system.Archive.Record.{
  Layout, Entry, IsRecord, serialize, live, Stat, ArchiveRecord,
}
use secured_operation_system.Archive.Disk.{
  File, Disk, Env, Outcome, added, data_of, not_found, report, help,
}
use secured_operation_system.Archive.Compress.{compress_archive_file}
use secured_operation_system.Archive.Compress.Atomic.{Atomic, compress_archive_file-Atomic}
use secured_operation_system.Archive.Compress.Refines.{compress_archive_file-live}
use secured_operation_system.Archive.Compress.ShortRead.{compress_archive_file-short_read}
use secured_operation_system.Archive.Add.{add_file_to_archive, new_record, open_or_create, padded}
use secured_operation_system.Archive.Scan.{is_wanted}
use secured_operation_system.Archive.Add.Laws.{
  Extends, add_file_to_archive-Extends, add_file_to_archive-serialize, new_entry,
  new_record-IsRecord, c_str-padded,
}
use secured_operation_system.Archive.Extract.{extract_and_remove_file, max_allowed_size}
use secured_operation_system.Archive.Extract.Output.{Holds}
use secured_operation_system.Archive.Extract.Laws.{Ready, extract_and_remove_file-first}
use secured_operation_system.Archive.Extract.Missing.{extract_and_remove_file-missing}
use secured_operation_system.Archive.Display.{display_archive_contents, list_records}
use secured_operation_system.Archive.Display.Laws.{
  row_of_entry, display_archive_contents-live, back_to_start, list_records-never,
}
use secured_operation_system.Archive.RoundTrip.{Conditions, Restored, add-extract}
use secured_operation_system.Archive.Tests.Fixture.{
  cells, cells-IsLayout, no_fault_env, no_fault_env-NoFaults, plain_file, entry_a, archive_file,
  files, entry_a-IsArchive,
}

duplicate_content-Copies_example :
    Copies 4 (bytes "abcdef") (duplicate_content (amount 2 ∷ amount 1 ∷ []) (bytes "abcdef") 4)
duplicate_content-Copies_example =
    duplicate_content-Copies (amount 2 ∷ amount 1 ∷ []) (bytes "abcdef") 4

compress_archive_file-Atomic_example :
    Atomic cells no_fault_env files
      (bytes "arc")
      (compress_archive_file cells no_fault_env files (bytes "arc") (amount 1032 ∷ fail ∷ []))
compress_archive_file-Atomic_example =
    compress_archive_file-Atomic cells no_fault_env cells-IsLayout.size_pos files (bytes "arc")
      (amount 1032 ∷ fail ∷ []) refl

compress_archive_file-live_example :
    (g : File) × ((compress_archive_file cells no_fault_env files (bytes "arc") []).status ≡ done)
    × ((compress_archive_file cells no_fault_env files (bytes "arc") []).disk (bytes "arc")
        ≡ some g)
    × (g.data_bytes ≡ serialize cells (live (entry_a ∷ [])))
    × (g.mode ≡ 420)
compress_archive_file-live_example =
    compress_archive_file-live cells cells-IsLayout no_fault_env files (bytes "arc") (entry_a ∷ [])
      archive_file no_fault_env-NoFaults refl refl refl entry_a-IsArchive

compress_archive_file-short_read_example :
    ((compress_archive_file cells no_fault_env files (bytes "arc") (amount 5 ∷ [])).status ≡ done)
    × (data_of
          (compress_archive_file cells no_fault_env files (bytes "arc") (amount 5 ∷ [])).disk
          (bytes "arc")
        ≡ [])
compress_archive_file-short_read_example =
    compress_archive_file-short_read cells no_fault_env files (bytes "arc") archive_file 5 []
      no_fault_env-NoFaults refl refl (omega arith)

add_file_to_archive-Extends_example :
    Extends files (bytes "arc") archive_file (
      add_file_to_archive cells no_fault_env files (bytes "arc") (bytes "b") (amount 3 ∷ fail ∷ []))
add_file_to_archive-Extends_example =
    add_file_to_archive-Extends cells no_fault_env (bytes "arc") (bytes "b") files archive_file
      (amount 3 ∷ fail ∷ []) refl

display_archive_contents-live_example :
    display_archive_contents cells no_fault_env 2 files (bytes "arc") []
    ≡ some (record { rows = map row_of_entry (live (entry_a ∷ [])); errors = [] })
display_archive_contents-live_example =
    display_archive_contents-live cells no_fault_env 2 files (bytes "arc") (entry_a ∷ [])
      archive_file cells-IsLayout refl refl refl refl entry_a-IsArchive (omega arith)

-- A record whose size leads back to its own start.
abbrev looping_record : ArchiveRecord
looping_record =
    let r = new_record (bytes "a") (plain_file []) in
    record r { file_stats = record r.file_stats { st_size = back_to_start cells } }

list_records-never_example :
    list_records cells true (cells.encode looping_record ++ bytes "rest") 1000 0 [] ≡ none
list_records-never_example =
    list_records-never cells cells-IsLayout looping_record (bytes "rest") 1000
      (new_record-IsRecord (bytes "a") (plain_file [])) refl

-- Extracting "a" from the archive of "a" alone.
a_name : c_str entry_a.header.path ≡ bytes "a"
unfolding new_record
a_name = c_str-padded (bytes "a") (omega arith) (omega arith, tt)

extract_ready :
    Ready cells cells-IsLayout no_fault_env (λ _ _ _. refl) files (bytes "arc") [] [] entry_a
unfolding new_record
extract_ready = record {
  faults = no_fault_env-NoFaults;
  seeks = refl;
  output = refl;
  fresh = refl;
  apart = λ e. absurd (omega (arith, ap length (e ∙ a_name)));
  lasting = λ e. absurd (omega (arith, ap length (sym a_name ∙ e)));
  first = refl;
  unmarked = refl;
  small = omega arith;
  wf = entry_a-IsArchive;
}

extract_and_remove_file-first_example :
    (o : Outcome) × (extract_and_remove_file cells no_fault_env 1 files
        (bytes "arc")
        (c_str entry_a.header.path)
        []
      ≡ some o)
    × Holds o.disk (c_str entry_a.header.path) (bytes "one")
    × Holds o.disk (bytes "arc") (serialize cells [])
    × ((q : Bytes) → q ≢ bytes "arc" → q ≢ c_str entry_a.header.path → o.disk q ≡ files q)
unfolding live
extract_and_remove_file-first_example =
    extract_and_remove_file-first cells cells-IsLayout no_fault_env (λ _ _ _. refl) files
      (bytes "arc") [] [] entry_a 1 archive_file extract_ready refl refl (omega arith)

-- Adding "b" to the archive and extracting it.
add_conditions :
    Conditions cells cells-IsLayout no_fault_env
      (λ _ _ _. refl)
      files
      (bytes "arc")
      (bytes "b")
      (entry_a ∷ [])
      archive_file
      (plain_file (bytes "two"))
unfolding new_record padded
add_conditions = record {
  there = refl;
  holds = refl;
  wf = entry_a-IsArchive;
  readable = refl;
  small = omega arith;
  short = omega arith;
  no_nul = (omega arith, tt);
  new_name = refl;
  faults = no_fault_env-NoFaults;
  opens = refl;
  seeks = refl;
  fresh = refl;
  apart = λ e. absurd (omega (arith, ap length e));
}

add-extract_example :
    Restored cells cells-IsLayout no_fault_env
      (λ _ _ _. refl)
      files
      (bytes "arc")
      (bytes "b")
      (entry_a ∷ [])
      archive_file
      (plain_file (bytes "two"))
      2
      (bytes "b")
add-extract_example =
    add-extract cells cells-IsLayout no_fault_env (λ _ _ _. refl) files (bytes "arc") (bytes "b")
      (entry_a ∷ []) archive_file (plain_file (bytes "two")) 2 add_conditions (omega arith)
