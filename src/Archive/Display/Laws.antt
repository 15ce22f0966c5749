-- ===== src/Archive/Display/Laws.antt =====
-- The listing of lab5_archive/main.c: the live records of a well-formed archive, and an archive on
-- which it never ends.
use secured_operation_system.Base.{
  ℕ, zero, suc, ◌+◌, ◌-◌, ◌<◌, ◌≡◌, refl, ap, ap₂, ◌∙◌, Bool, true, false, Option, none, some, List,
  [], ◌∷◌, ◌++◌, Bytes, length, drop, take-append, take-nil, map, ℤ, pos, negsuc, arith, Bool-cases,
  inl, inr,
}
use secured_operation_system.Archive.Io.{Io, Read, got, read_some}
use secured_operation_system.Archive.Record.{
  ArchiveRecord, Layout, IsLayout, IsRecord, is_marked, Entry, IsArchive, serialize, live,
}
use secured_operation_system.Archive.Disk.{File, Disk, Env}
use secured_operation_system.Archive.Scan.{seek_by}
use secured_operation_system.Archive.Scan.Laws.{drop-entry, read-entry}
use secured_operation_system.Archive.Display.{
  Row, row_of, Listing, add_row, list_past, list_read, list_records, display_archive_contents,
}

-- The line of an entry.
abbrev pub row_of_entry : Entry → Row
row_of_entry x = row_of x.header

module _ (layout : Layout) (lawful : IsLayout layout) (content : Bytes) where
  list_read-got :
      (at : ℕ) (hs : Bytes) (io : List Io) (again : List Io → ℕ → Option Listing)
      → length hs ≡ layout.size
      → list_read layout true content at (got hs io) again
        ≡ list_past layout true content
            (layout.decode hs)
            (seek_by (at + layout.size) (layout.decode hs).file_stats.st_size)
            (again io)
  unfolding list_read
  list_read-got at [] io again h = absurd (omega (arith, lawful.size_pos))
  list_read-got at (b ∷ bs) io again h = ground (arith, h)

  list_past-sized :
      (at n : ℕ) (r : ArchiveRecord) (again : ℕ → Option Listing) (l : Listing)
      → r.file_stats.st_size ≡ pos n
      → again (at + n) ≡ some l
      → list_past layout true content r (seek_by at r.file_stats.st_size) again
        ≡ some (add_row layout true content r l)
  unfolding list_past seek_by
  list_past-sized at n r again l h e =
      ap (λ (z : ℤ). list_past layout true content r (seek_by at z) again) h ∙ rw e

  list_past-none :
      (at : ℕ) (r : ArchiveRecord) (again : ℕ → Option Listing)
      → again at ≡ none
      → list_past layout true content r (some at) again ≡ none
  unfolding list_past
  list_past-none at r again e = rw (e, list_past)

  add_row-live :
      (x : Entry) (es : List Entry)
      → add_row layout true content x.header
          (record { rows = map row_of_entry (live es); errors = [] })
        ≡ record { rows = map row_of_entry (live (x ∷ es)); errors = [] }
  unfolding add_row live
  add_row-live x es = elim (Bool-cases (is_marked x.header)) [ inl m ↦ rw m | inr k ↦ rw k ]

  -- The rows are those of the live records, in order.
  list_records-live :
      (fuel at : ℕ) (es : List Entry)
      → IsArchive es
      → length es < fuel
      → drop at content ≡ serialize layout es
      → list_records layout true content fuel at []
        ≡ some (record { rows = map row_of_entry (live es); errors = [] })
  unfolding list_records
  list_records-live zero at es wf enough here = absurd (omega arith)
  list_records-live (suc fuel) at [] wf enough here =
      unfold read_some serialize live in rw (here, take-nil)
  list_records-live (suc fuel) at (x ∷ es) wf enough here =
      let again = λ (io : List Io) (at' : ℕ). list_records layout true content fuel at' io in
      let ih =
        list_records-live fuel (at + layout.size + length x.body) es wf.1 (omega arith)
          (drop-entry layout lawful at content x es wf.0 here) in
      ap (λ (r : Read). list_read layout true content at r again)
        (read-entry layout lawful at content x es wf.0 here)
      ∙ list_read-got at (layout.encode x.header) [] again
          (lawful.length-encode x.header wf.0.header_record)
      ∙ ap
          (λ (r : ArchiveRecord).
            list_past layout true content r (seek_by (at + layout.size) r.file_stats.st_size)
              (again []))
          (lawful.decode-encode x.header wf.0.header_record)
      ∙ list_past-sized (at + layout.size) (length x.body) x.header (again []) _ wf.0.sized ih
      ∙ ap some (add_row-live x es)

-- With reads that give all that they are asked for and an archive that can seek, the listing of a
-- well-formed archive ends after a round for each record and one more, and shows exactly the
-- records that are not marked as deleted, in their order, with no error.
pub display_archive_contents-live :
    (layout : Layout) (env : Env) (fuel : ℕ) (d : Disk) (archive : Bytes) (es : List Entry)
    (f : File)
    → IsLayout layout
    → env.open_fails archive ≡ false
    → env.seekable ≡ true
    → d archive ≡ some f
    → f.data_bytes ≡ serialize layout es
    → IsArchive es
    → length es < fuel
    → display_archive_contents layout env fuel d archive []
      ≡ some (record { rows = map row_of_entry (live es); errors = [] })
unfolding display_archive_contents
display_archive_contents-live layout env fuel d archive es f lawful opens seeks there holds wf
      enough =
    let walk : list_records layout env.seekable f.data_bytes fuel 0 []
        ≡ some (record { rows = map row_of_entry (live es); errors = [] }) =
      ap₂ (λ (b : Bool) (t : Bytes). list_records layout b t fuel 0 []) seeks holds
      ∙ list_records-live layout lawful (serialize layout es) fuel 0 es wf enough refl in
    ground (arith, there, opens, walk)

-- The size that leads from behind a header back to its start.
abbrev pub back_to_start : Layout → ℤ
back_to_start layout = negsuc (layout.size - 1)

seek_by-back_to_start :
    (layout : Layout) → 0 < layout.size → seek_by layout.size (back_to_start layout) ≡ some 0
unfolding seek_by
seek_by-back_to_start layout h = ground arith

module _ (layout : Layout) (lawful : IsLayout layout) (r : ArchiveRecord) (rest : Bytes) where
  -- An archive that begins with a record of size -sizeof(record) is listed for ever.
  pub list_records-never :
      (fuel : ℕ)
      → IsRecord r
      → r.file_stats.st_size ≡ back_to_start layout
      → list_records layout true (layout.encode r ++ rest) fuel 0 [] ≡ none
  unfolding list_records
  list_records-never zero h size = refl
  list_records-never (suc fuel) h size =
      let content : Bytes = layout.encode r ++ rest in
      let again = λ (io : List Io) (at' : ℕ). list_records layout true content fuel at' io in
      let header : read_some [] layout.size content ≡ got (layout.encode r) [] =
        unfold read_some in
        ap (λ (t : Bytes). got t [])
          (take-append layout.size (layout.encode r) rest (lawful.length-encode r h)) in
      let from : 0 + layout.size ≡ layout.size = omega arith in
      let to : seek_by (0 + layout.size) r.file_stats.st_size ≡ some 0 =
        rw (from, size) (seek_by-back_to_start layout lawful.size_pos) in
      ap (λ (q : Read). list_read layout true content 0 q again) header
      ∙ list_read-got layout lawful content 0 (layout.encode r) [] again (lawful.length-encode r h)
      ∙ ap
          (λ (q : ArchiveRecord).
            list_past layout true content q (seek_by (0 + layout.size) q.file_stats.st_size)
              (again []))
          (lawful.decode-encode r h)
      ∙ ap (λ (o : Option ℕ). list_past layout true content r o (again [])) to
      ∙ list_past-none layout lawful content 0 r (again []) (list_records-never fuel h size)
