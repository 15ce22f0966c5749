-- ===== src/Archive/Compress.antt =====
-- `compress_archive_file` of lab5_archive/main.c.
pub mod Atomic
pub mod Refines
pub mod ShortRead
use secured_operation_system.Base.{
  ℕ, zero, suc, ◌+◌, Bool, true, false, not, ◌||◌, Option, none, some, List, [], ◌∷◌, Bytes, length,
  drop, ◌==◌, if◌then◌else◌, pos_part,
}
use secured_operation_system.Archive.Io.{
  Io, complete_write, Written, Read, read_error, got, read_some, Status, done, failed, out_of_fuel,
  Copied, duplicate_content, skip_bytes,
}
use secured_operation_system.Archive.Record.{ArchiveRecord, Layout, is_marked}
use secured_operation_system.Archive.Disk.{
  File, Disk, update, data_of, append_data, Env, Message, compress_open_error, compress_temp_error,
  compress_header_error, compress_copy_error, compress_skip_error, compress_read_error,
  compress_rename_error,
}

-- How the loop ends: by a header that is not whole, by a jump to `error_cleanup`, or never.
pub data LoopEnd : Type 0 where
  ended : Disk → LoopEnd
  error_cleanup : Message → Disk → LoopEnd
  no_fuel : Disk → LoopEnd

-- The return value, the file system and what was printed.
pub record Compressed : Type 0 where
  pub status : Status
  pub disk : Disk
  pub printed : List Message

module _ (layout : Layout) (env : Env) where
  abbrev data_size : Bytes → ℕ
  data_size header = pos_part (layout.decode header).file_stats.st_size

  -- The file system after a call that copied, and the loop's next step.
  abbrev after_copy : Message → Disk → Copied → (Disk → Bytes → List Io → LoopEnd) → LoopEnd
  after_copy message d c next = elim c.status [
    | done ↦ next d c.rest c.later
    | failed ↦ error_cleanup message d
    | out_of_fuel ↦ no_fuel d
  ]

  abbrev after_header :
      Bytes → Bytes → Disk → Written → (Disk → Bytes → List Io → LoopEnd) → LoopEnd
  after_header header rest d w next =
      if w.success
      then (let c = duplicate_content w.later rest (data_size header) in
          after_copy compress_copy_error (append_data d env.temp_name c.copied) c next)
      else error_cleanup compress_header_error d

  -- The body of the loop, behind the read of a whole header.
  compress_record : Disk → Bytes → Bytes → List Io → (Disk → Bytes → List Io → LoopEnd) → LoopEnd
  compress_record d header rest io next =
      if is_marked (layout.decode header)
      then after_copy compress_skip_error d (skip_bytes env.seekable io rest (data_size header))
          next
      else (let w = complete_write io header in
          after_header header rest (append_data d env.temp_name w.written) w next)

  compress_read : Disk → Bytes → Read → (Disk → Bytes → List Io → LoopEnd) → LoopEnd
  compress_read d rest (read_error io) next = error_cleanup compress_read_error d
  compress_read d rest (got header io) next =
      if length header == layout.size
      then compress_record d header (drop layout.size rest) io next
      else ended d

  -- `rest` is what is left to read of the archive.
  pub compress_loop : ℕ → Disk → Bytes → List Io → LoopEnd
  unfolding compress_record compress_read
  compress_loop zero d rest io = no_fuel d
  compress_loop (suc fuel) d rest io =
      compress_read d rest (read_some io layout.size rest)
        (λ d' rest' io'. compress_loop fuel d' rest' io')

  -- `unlink` of the temporary file, whose result is not looked at.
  abbrev pub unlink_temp : Disk → Disk
  unlink_temp d = if env.unlink_fails then d else update d env.temp_name none

  -- The code behind the loop: the replacement of the archive, or the removal of the temporary file.
  finish : Bytes → LoopEnd → Compressed
  finish archive (error_cleanup message d) = record {
    status = failed;
    disk = unlink_temp d;
    printed = message ∷ [];
  }
  finish archive (no_fuel d) = record { status = out_of_fuel; disk = d; printed = [] }
  finish archive (ended d) =
      if env.rename_fails
      then record { status = failed; disk = unlink_temp d; printed = compress_rename_error ∷ [] }
      else record {
        status = done;
        disk = update (update d archive (d env.temp_name)) env.temp_name none;
        printed = [];
      }

  -- The temporary file, with the mode of the archive if `fstat` gives it.
  pub temp_file : File → File
  temp_file f = record (env.new_file 0o600) {
    data_bytes = [];
    mode = if env.fstat_fails then 0o600 else f.mode;
  }

  abbrev refused : Disk → Message → Compressed
  refused d message = record { status = failed; disk = d; printed = message ∷ [] }

  compress_file : Disk → Bytes → File → List Io → Compressed
  compress_file d archive f io =
      if env.open_fails archive
      then refused d compress_open_error
      else if env.mkstemp_fails
      then refused d compress_temp_error
      else finish archive (
          compress_loop (length f.data_bytes + 1) (update d env.temp_name (some (temp_file f)))
            f.data_bytes io)

  pub compress_archive_file : Disk → Bytes → List Io → Compressed
  unfolding compress_file finish compress_loop temp_file
  compress_archive_file d archive io = elim (d archive) [
    | none ↦ refused d compress_open_error
    | some f ↦ compress_file d archive f io
  ]
