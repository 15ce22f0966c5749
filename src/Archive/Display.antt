-- ===== src/Archive/Display.antt =====
-- `display_archive_contents` of lab5_archive/main.c.
pub mod Laws
use secured_operation_system.Base.{
  ℕ, zero, suc, ◌+◌, Bool, true, false, Option, none, some, List, [], ◌∷◌, Bytes, length, drop,
  c_str, ◌==◌, if◌then◌else◌, ℤ,
}
use secured_operation_system.Archive.Io.{Io, Read, read_error, got, read_some}
use secured_operation_system.Archive.Record.{ArchiveRecord, Layout, is_marked}
use secured_operation_system.Archive.Disk.{
  Disk, Env, Message, archive_open_error, header_read_error, listing_seek_error,
}
use secured_operation_system.Archive.Scan.{seek_by}

-- The values of one line: the name, the size, and the time that `strftime` formats.
pub record Row : Type 0 where
  pub name : Bytes
  pub size : ℤ
  pub time : ℕ

abbrev pub row_of : ArchiveRecord → Row
row_of r = record { name = c_str r.path; size = r.file_stats.st_size; time = r.file_stats.st_mtime }

pub record Listing : Type 0 where
  pub rows : List Row
  pub errors : List Message

abbrev no_rows : List Message → Listing
no_rows errors = record { rows = []; errors = errors }

module _ (layout : Layout) (seekable : Bool) (content : Bytes) where
  add_row : ArchiveRecord → Listing → Listing
  add_row r l = if is_marked r then l else record l { rows = row_of r ∷ l.rows }

  list_past : ArchiveRecord → Option ℕ → (ℕ → Option Listing) → Option Listing
  unfolding add_row
  list_past r none again = some (add_row r (no_rows (listing_seek_error ∷ [])))
  list_past r (some at) again = elim (again at) [ none ↦ none | some l ↦ some (add_row r l) ]

  list_read : ℕ → Read → (List Io → ℕ → Option Listing) → Option Listing
  unfolding list_past
  list_read at (read_error io) again = some (no_rows [])
  list_read at (got [] io) again = some (no_rows [])
  list_read at (got (b ∷ bs) io) again =
      if length (b ∷ bs) == layout.size
      then (let r = layout.decode (b ∷ bs) in
          list_past r (if seekable then seek_by (at + layout.size) r.file_stats.st_size else none)
            (again io))
      else some (no_rows (header_read_error ∷ []))

  -- The loop over the headers; `none`: it has not ended after `fuel` rounds.
  pub list_records : ℕ → ℕ → List Io → Option Listing
  unfolding list_read
  list_records zero at io = none
  list_records (suc fuel) at io =
      list_read at (read_some io layout.size (drop at content))
        (λ io' at'. list_records fuel at' io')

pub display_archive_contents : Layout → Env → ℕ → Disk → Bytes → List Io → Option Listing
display_archive_contents layout env fuel d archive io = elim (d archive) [
  | none ↦ some (no_rows (archive_open_error ∷ []))
  | some f ↦
      if env.open_fails archive
      then some (no_rows (archive_open_error ∷ []))
      else list_records layout env.seekable f.data_bytes fuel 0 io
]
