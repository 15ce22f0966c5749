-- ===== src/Archive/Scan.antt =====
-- Walking through the records of an archive: the loop of `extract_and_remove_file` of
-- lab5_archive/main.c up to the record that it looks for.
pub mod Laws
use secured_operation_system.Base.{
  ℕ, zero, suc, ◌+◌, ◌-◌, Bool, true, false, not, ◌&&◌, Option, none, some, List, [], ◌∷◌, Bytes,
  length, drop, c_str, str_eq, leb, ◌==◌, if◌then◌else◌, ℤ, pos, negsuc,
}
use secured_operation_system.Archive.Io.{Io, Read, read_error, got, read_some}
use secured_operation_system.Archive.Record.{ArchiveRecord, Layout, is_marked}
use secured_operation_system.Archive.Disk.{
  Message, header_read_error, skip_seek_error, position_error,
}

-- `lseek(fd, offset, SEEK_CUR)`: a position before the start of the file is refused.
unfoldable pub seek_by : ℕ → ℤ → Option ℕ
seek_by at (pos n) = some (at + n)
seek_by at (negsuc n) = if leb (suc n) at then some (at - suc n) else none

-- The record that is looked for, with its place; or the end of the loop, with what it printed.
pub data ScanEnd : Type 0 where
  found : ℕ → ArchiveRecord → List Io → ScanEnd
  finished : List Message → ScanEnd
  no_fuel : ScanEnd

-- `strcmp(record.path, file_to_extract) == 0 && !record.marked_deleted`
abbrev pub is_wanted : Bytes → ArchiveRecord → Bool
is_wanted name r = str_eq (c_str r.path) name && not (is_marked r)

module _ (layout : Layout) (seekable : Bool) (content name : Bytes) where
  scan_past : Option ℕ → (ℕ → ScanEnd) → ScanEnd
  scan_past none again = finished (skip_seek_error ∷ [])
  scan_past (some at) again = again at

  scan_record : ℕ → ArchiveRecord → List Io → (ℕ → ScanEnd) → ScanEnd
  unfolding scan_past
  scan_record at r io again =
      if is_wanted name r
      then found at r io
      else scan_past (seek_by (at + layout.size) r.file_stats.st_size) again

  scan_read : ℕ → Read → (List Io → ℕ → ScanEnd) → ScanEnd
  unfolding scan_record
  scan_read at (read_error io) again = finished (header_read_error ∷ [])
  scan_read at (got [] io) again = finished []
  scan_read at (got (b ∷ bs) io) again =
      if length (b ∷ bs) == layout.size
      then scan_record at (layout.decode (b ∷ bs)) io (again io)
      else finished (header_read_error ∷ [])

  -- The `while (1)`. It may run for ever: the sizes in an archive can lead backwards.
  pub scan : ℕ → ℕ → List Io → ScanEnd
  unfolding scan_read
  scan zero at io = no_fuel
  scan (suc fuel) at io =
      let round =
        scan_read at (read_some io layout.size (drop at content)) (λ io' at'. scan fuel at' io') in
      if seekable then round else finished (position_error ∷ [])
