-- ===== src/Archive/Add.antt =====
-- `add_file_to_archive` of lab5_archive/main.c.
pub mod Laws
use secured_operation_system.Base.{
  ℕ, ◌-◌, Bool, Option, none, some, List, [], ◌∷◌, ◌++◌, Bytes, length, take, replicate, ltb,
  if◌then◌else◌, pos_part,
}
use secured_operation_system.Archive.Io.{
  Io, complete_write, Written, Status, done, failed, out_of_fuel, Copied, duplicate_content,
}
use secured_operation_system.Archive.Record.{Stat, path_size, ArchiveRecord, Layout}
use secured_operation_system.Archive.Disk.{
  File, Disk, update, data_of, append_data, stat_of, Env, Message, archive_open_error,
  source_open_error, name_too_long, metadata_error, header_write_error, data_write_error, added,
  Outcome, report,
}

-- `memset`, `strncpy` and the metadata of the source: the array holds the name, then NUL bytes.
unfoldable pub padded : Bytes → Bytes
padded name =
    let copied = take (path_size - 1) name in copied ++ replicate (path_size - length copied) 0

unfoldable pub new_record : Bytes → File → ArchiveRecord
new_record name source = record {
  path = padded name;
  file_stats = stat_of source;
  marked_deleted = 0;
}

module _ (layout : Layout) (env : Env) where
  abbrev report_copy : Disk → Status → Outcome
  report_copy d done = report d added
  report_copy d failed = report d data_write_error
  report_copy d out_of_fuel = record { disk = d; printed = [] }

  -- The data behind the header.
  add_data : Disk → Bytes → File → List Io → Outcome
  add_data d archive source io =
      let c = duplicate_content io source.data_bytes (pos_part (stat_of source).st_size) in
      report_copy (append_data d archive c.copied) c.status

  add_record : Disk → Bytes → Bytes → File → List Io → Outcome
  unfolding add_data new_record
  add_record d archive target source io =
      let w = complete_write io (layout.encode (new_record target source)) in
      let d' = append_data d archive w.written in
      if w.success then add_data d' archive source w.later else report d' header_write_error

  -- The open source file.
  add_source : Disk → Bytes → Bytes → List Io → Option File → Outcome
  unfolding add_record
  add_source d archive target io none = report d source_open_error
  add_source d archive target io (some source) =
      if env.open_fails target
      then report d source_open_error
      else if ltb (length target) path_size
      then (if env.fstat_fails
          then report d metadata_error
          else add_record d archive target source io)
      else report d name_too_long

  -- `open` with O_CREAT.
  unfoldable pub open_or_create : Disk → Bytes → Disk
  open_or_create d archive = elim (d archive) [
    | none ↦ update d archive (some (record (env.new_file 0o666) { data_bytes = [] }))
    | some f ↦ d
  ]

  pub add_file_to_archive : Disk → Bytes → Bytes → List Io → Outcome
  unfolding add_source open_or_create
  add_file_to_archive d archive target io =
      if env.open_fails archive
      then report d archive_open_error
      else (let d' = open_or_create d archive in add_source d' archive target io (d' target))
