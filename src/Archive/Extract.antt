-- ===== src/Archive/Extract.antt =====
-- `extract_and_remove_file` and `apply_original_attributes` of lab5_archive/main.c.
pub mod Marks
pub mod Output
pub mod Laws
pub mod Missing
use secured_operation_system.Base.{
  ℕ, zero, suc, ◌+◌, ◌*◌, Bool, true, false, not, ◌&&◌, Option, none, some, List, [], ◌∷◌, ◌++◌,
  Bytes, length, take, drop, c_str, ltb, ◌==◌, if◌then◌else◌, pos_part,
}
use secured_operation_system.Archive.Io.{
  Io, fail, amount, Status, done, failed, out_of_fuel, Copied, duplicate_content,
}
use secured_operation_system.Archive.Record.{Stat, ArchiveRecord, Layout}
use secured_operation_system.Archive.Disk.{
  File, Disk, update, data_of, map_file, append_data, overwrite_data, Env, Outcome, report, Message,
  chmod_warning, utime_warning, archive_open_error, too_large, skip_seek_error, output_open_error,
  output_skip_error, extract_error, mark_write_error, compress_failed, extracted, not_found,
}
use secured_operation_system.Archive.Scan.{seek_by, ScanEnd, found, finished, no_fuel, scan}
use secured_operation_system.Archive.Compress.{Compressed, compress_archive_file}

-- 1024 * 1024 * 1024
abbrev pub max_allowed_size : ℕ
max_allowed_size = 1073741824

-- One call of `write`: what reached the file.
write_once : List Io → Bytes → Bytes × List Io
write_once [] buf = (buf, [])
write_once (fail ∷ io) buf = ([], io)
write_once (amount k ∷ io) buf = (take k buf, io)

abbrev warn_if : Bool → Message → List Message
warn_if b message = if b then message ∷ [] else []

-- The report of an `lseek` over the data that failed.
abbrev skip_error : Option ℕ → List Message
skip_error none = output_skip_error ∷ []
skip_error (some at) = []

module _ (layout : Layout) (env : Env) where
  -- What `chmod`, `chown` and `utime` make of the file.
  pub restored : Stat → File → File
  restored s f =
      let moded = if env.chmod_fails then f else record f { mode = s.st_mode } in
      let owned = env.chown s.st_uid s.st_gid moded in
      if env.utime_fails then owned else record owned { atime = s.st_atime; mtime = s.st_mtime }

  -- A failure of `chmod` or `utime` is only reported.
  pub apply_original_attributes : Disk → Bytes → Stat → Outcome
  apply_original_attributes d path s = record {
    disk = map_file (restored s) d path;
    printed = warn_if env.chmod_fails chmod_warning ++ warn_if env.utime_fails utime_warning;
  }

  -- `open` with O_CREAT and O_TRUNC.
  pub open_output : Disk → Bytes → ℕ → Disk
  open_output d path mode = elim (d path) [
    | none ↦ update d path (some (record (env.new_file mode) { data_bytes = [] }))
    | some f ↦ update d path (some (record f { data_bytes = [] }))
  ]

  -- Closing the archive, its compression and the last line.
  compress_after : Disk → Bytes → List Io → List Message → Outcome
  compress_after d archive io printed =
      let c = compress_archive_file layout env d archive io in
      let warning : List Message = elim c.status [ failed ↦ compress_failed ∷ [] | _ ↦ [] ] in
      record { disk = c.disk; printed = printed ++ (warning ++ extracted ∷ []) }

  -- The mark in the archive, at the place of the record.
  mark_record : Disk → Bytes → ℕ → ArchiveRecord → List Io → List Message → Outcome
  unfolding compress_after write_once
  mark_record d archive at r io printed =
      let header = layout.encode (record r { marked_deleted = 1 }) in
      let (w, later) = write_once io header in
      let warning = if length w == layout.size then [] else mark_write_error ∷ [] in
      compress_after (overwrite_data d archive at w) archive later (printed ++ warning)

  finish_output : Disk → Bytes → ℕ → ArchiveRecord → Copied → Outcome
  unfolding mark_record apply_original_attributes
  finish_output d archive at r c = elim c.status [
    | done ↦
        let a = apply_original_attributes d (c_str r.path) r.file_stats in
        mark_record a.disk archive at r c.later a.printed
    | failed ↦ report d extract_error
    | out_of_fuel ↦ record { disk = d; printed = [] }
  ]

  -- The record was found at `at`, and its header has been read.
  extract_record : Disk → Bytes → ℕ → ArchiveRecord → List Io → Outcome
  unfolding finish_output open_output
  extract_record d archive at r io =
      let path = c_str r.path in
      let size = pos_part r.file_stats.st_size in
      if ltb max_allowed_size size
      then report d too_large
      else if env.open_fails path
      then record {
        disk = d;
        printed = output_open_error ∷ skip_error (seek_by (at + layout.size) r.file_stats.st_size);
      }
      else (let d' = open_output d path r.file_stats.st_mode in
          let c = duplicate_content io (drop (at + layout.size) (data_of d' archive)) size in
          finish_output (append_data d' path c.copied) archive at r c)

  after_scan : Disk → Bytes → ScanEnd → Option Outcome
  unfolding extract_record
  after_scan d archive no_fuel = none
  after_scan d archive (finished printed) =
      some (record { disk = d; printed = printed ++ not_found ∷ [] })
  after_scan d archive (found at r io) = some (extract_record d archive at r io)

  -- `none`: the loop has not ended after `fuel` rounds.
  pub extract_and_remove_file : ℕ → Disk → Bytes → Bytes → List Io → Option Outcome
  unfolding after_scan
  extract_and_remove_file fuel d archive name io = elim (d archive) [
    | none ↦ some (report d archive_open_error)
    | some f ↦
        if env.open_fails archive
        then some (report d archive_open_error)
        else after_scan d archive (scan layout env.seekable f.data_bytes name fuel 0 io)
  ]
