-- ===== src/Archive/Scan/Laws.antt =====
-- The walk over a well-formed archive finds the first live record of a name: lab5_archive/main.c.
use secured_operation_system.Base.{
  ℕ, zero, suc, ◌+◌, ◌<◌, ◌≡◌, refl, ap, ◌∙◌, Bool, true, false, not, ◌&&◌, List, [], ◌∷◌, ◌++◌,
  Bytes, length, drop, take-append, drop-append, drop-add, take-nil, length-append, ℤ, pos,
  if◌then◌else◌, arith,
}
use secured_operation_system.Archive.Io.{Io, got, read_some}
use secured_operation_system.Archive.Record.{
  ArchiveRecord, Layout, IsLayout, Entry, IsEntry, IsArchive, serialize,
}
use secured_operation_system.Archive.Scan.{
  seek_by, ScanEnd, found, finished, is_wanted, scan_past, scan_record, scan_read, scan,
}

-- No record in the list is live under this name.
abbrev pub none_wanted : Bytes → List Entry → Bool
none_wanted name [] = true
none_wanted name (x ∷ es) = not (is_wanted name x.header) && none_wanted name es

module _ (layout : Layout) (lawful : IsLayout layout) where
  -- The record behind the header of a whole entry starts where the entry ends.
  pub drop-entry :
      (at : ℕ) (content : Bytes) (x : Entry) (es : List Entry)
      → IsEntry x
      → drop at content ≡ serialize layout (x ∷ es)
      → drop (at + layout.size + length x.body) content ≡ serialize layout es
  unfolding serialize
  drop-entry at content x es h here =
      let S : Bytes = serialize layout es in
      drop-add (at + layout.size) (length x.body) content
      ∙ ap (drop (length x.body)) (
          drop-add at layout.size content
          ∙ ap (drop layout.size) here
          ∙ drop-append layout.size (layout.encode x.header) (x.body ++ S)
              (lawful.length-encode x.header h.header_record))
      ∙ drop-append (length x.body) x.body S refl

  -- A read of the header of a whole entry.
  pub read-entry :
      (at : ℕ) (content : Bytes) (x : Entry) (es : List Entry)
      → IsEntry x
      → drop at content ≡ serialize layout (x ∷ es)
      → read_some [] layout.size (drop at content) ≡ got (layout.encode x.header) []
  unfolding serialize read_some
  read-entry at content x es h here = rw here (
      ap (λ (t : Bytes). got t [])
        (take-append layout.size (layout.encode x.header) (x.body ++ serialize layout es)
          (lawful.length-encode x.header h.header_record)))

module _ (layout : Layout) (lawful : IsLayout layout) (content name : Bytes) where
  scan_read-got :
      (at : ℕ) (hs : Bytes) (io : List Io) (again : List Io → ℕ → ScanEnd)
      → length hs ≡ layout.size
      → scan_read layout true content name at (got hs io) again
        ≡ scan_record layout true content name at (layout.decode hs) io (again io)
  unfolding scan_read
  scan_read-got at [] io again h = absurd (omega (arith, lawful.size_pos))
  scan_read-got at (b ∷ bs) io again h = ground (arith, h)

  scan_record-sized :
      (at n : ℕ) (r : ArchiveRecord) (io : List Io) (again : ℕ → ScanEnd)
      → r.file_stats.st_size ≡ pos n
      → scan_record layout true content name at r io again
        ≡ (if is_wanted name r then found at r io else again (at + layout.size + n))
  unfolding scan_record scan_past seek_by
  scan_record-sized at n r io again h =
      ap
        (λ (z : ℤ).
          if is_wanted name r
          then found at r io
          else scan_past layout true content name (seek_by (at + layout.size) z) again)
        h

  -- One round at a whole entry.
  scan_entry :
      (fuel at : ℕ) (x : Entry) (es : List Entry)
      → IsEntry x
      → drop at content ≡ serialize layout (x ∷ es)
      → scan layout true content name (suc fuel) at [] ≡ (
          if is_wanted name x.header
          then found at x.header []
          else scan layout true content name fuel (at + layout.size + length x.body) [])
  unfolding scan
  scan_entry fuel at x es h here =
      let again = λ (at' : ℕ). scan layout true content name fuel at' [] in
      rw (read-entry layout lawful at content x es h here) (
        scan_read-got at (layout.encode x.header) [] _
          (lawful.length-encode x.header h.header_record)
        ∙ ap (λ (r : ArchiveRecord). scan_record layout true content name at r [] again)
            (lawful.decode-encode x.header h.header_record)
        ∙ scan_record-sized at (length x.body) x.header [] again h.sized)

  entry_length :
      (x : Entry) (es : List Entry)
      → IsEntry x
      → length (serialize layout (x ∷ es))
        ≡ layout.size + length x.body + length (serialize layout es)
  unfolding serialize
  entry_length x es h = omega (
    arith,
    length-append (layout.encode x.header) (x.body ++ serialize layout es),
    length-append x.body (serialize layout es),
    lawful.length-encode x.header h.header_record,
  )

  -- The walk stops at the first wanted record.
  pub scan_found :
      (fuel at : ℕ) (before after : List Entry) (x : Entry)
      → IsArchive (before ++ x ∷ after)
      → none_wanted name before ≡ true
      → is_wanted name x.header ≡ true
      → length before < fuel
      → drop at content ≡ serialize layout (before ++ x ∷ after)
      → scan layout true content name fuel at []
        ≡ found (at + length (serialize layout before)) x.header []
  scan_found zero at before after x wf none_before wanted enough here = absurd (omega arith)
  scan_found (suc fuel) at [] after x wf none_before wanted enough here =
      scan_entry fuel at x after wf.0 here
      ∙ rw wanted (ap (λ (t : ℕ). found t x.header []) (unfold serialize in omega arith))
  scan_found (suc fuel) at (b ∷ before) after x wf none_before wanted enough here =
      let skip : is_wanted name b.header ≡ false = ground arith in
      scan_entry fuel at b (before ++ x ∷ after) wf.0 here
      ∙ rw skip (
          scan_found fuel (at + layout.size + length b.body) before after x wf.1 (ground arith)
            wanted (omega arith)
            (drop-entry layout lawful at content b (before ++ x ∷ after) wf.0 here)
          ∙ ap (λ (t : ℕ). found t x.header []) (omega (arith, entry_length b before wf.0)))

  -- With no wanted record the walk ends at the end of the archive.
  pub scan_missing :
      (fuel at : ℕ) (es : List Entry)
      → IsArchive es
      → none_wanted name es ≡ true
      → length es < fuel
      → drop at content ≡ serialize layout es
      → scan layout true content name fuel at [] ≡ finished []
  scan_missing zero at es wf missing enough here = absurd (omega arith)
  scan_missing (suc fuel) at [] wf missing enough here =
      unfold scan scan_read read_some serialize in rw (here, take-nil)
  scan_missing (suc fuel) at (b ∷ es) wf missing enough here =
      let skip : is_wanted name b.header ≡ false = ground arith in
      scan_entry fuel at b es wf.0 here
      ∙ rw skip (
          scan_missing fuel (at + layout.size + length b.body) es wf.1 (ground arith) (omega arith)
            (drop-entry layout lawful at content b es wf.0 here))
