-- ===== src/Archive/Extract/Laws.antt =====
-- What extracting a file leaves behind: lab5_archive/main.c, `extract_and_remove_file`.
use mathlib.Core.Option
use secured_operation_system.Base.{
  ℕ, ◌+◌, ◌≤◌, ◌<◌, ◌≡◌, ◌≢◌, refl, sym, ap, ap₂, ◌∙◌, Bool, true, false, Option, none, some, List,
  [], ◌∷◌, ◌++◌, Bytes, length, drop, take-append, drop-append, drop-add, length-append, c_str,
  str_eq_refl, ℤ, pos_part, arith, ltb,
}
use secured_operation_system.Archive.Io.{done, duplicate_content}
use secured_operation_system.Archive.Io.Copy.{duplicate_content-nil}
use secured_operation_system.Archive.Record.{
  Layout, IsLayout, is_marked, Entry, IsEntry, IsArchive, serialize, serialize-append, live,
}
use secured_operation_system.Archive.Disk.{
  File, Disk, data_of, append_data, overwrite, overwrite_data, update-same, update-other, Env,
  Outcome,
}
use secured_operation_system.Archive.Compress.{compress_archive_file}
use secured_operation_system.Archive.Compress.Atomic.{compress_archive_file-Atomic}
use secured_operation_system.Archive.Compress.Refines.{NoFaults, compress_archive_file-live}
use secured_operation_system.Archive.Scan.{found, is_wanted, scan}
use secured_operation_system.Archive.Scan.Laws.{none_wanted, scan_found}
use secured_operation_system.Archive.Extract.{
  max_allowed_size, apply_original_attributes, open_output, compress_after, mark_record,
  finish_output, extract_record, after_scan, extract_and_remove_file,
}
use secured_operation_system.Archive.Extract.Marks.{
  marked, live-marked, overwrite-marked, IsArchive-marked, IsArchive-entry,
}
use secured_operation_system.Archive.Extract.Output.{
  Holds, open_output-Holds, open_output-other, append_data-Holds, apply-Holds,
}

-- Extracting `x` under `name` from the archive `before ++ x ∷ after`, with calls that do what they
-- are asked for.
module _ (layout : Layout) (lawful : IsLayout layout) (env : Env)
    (keeps : (u v : ℕ) (g : File) → (env.chown u v g).data_bytes ≡ g.data_bytes) (d : Disk)
    (archive : Bytes) (before after : List Entry) (x : Entry) where
  abbrev name : Bytes
  name = c_str x.header.path

  abbrev place : ℕ
  place = length (serialize layout before)

  -- The output file, its attributes and the mark, one after the other.
  abbrev written : Disk
  written = append_data (open_output layout env d name x.header.file_stats.st_mode) name x.body

  abbrev attributed : Disk
  attributed = (apply_original_attributes layout env written name x.header.file_stats).disk

  abbrev marked_disk : Disk
  marked_disk = overwrite_data attributed archive place (layout.encode (marked x).header)

  written-other : (q : Bytes) → q ≢ name → attributed q ≡ d q
  unfolding apply_original_attributes
  written-other q ne =
      update-other written name q _ ne
      ∙ update-other (open_output layout env d name x.header.file_stats.st_mode) name q _ ne
      ∙ open_output-other layout env name d x.header.file_stats.st_mode q ne

  marked_disk-archive :
      (f : File)
      → IsEntry x
      → archive ≢ name
      → d archive ≡ some f
      → f.data_bytes ≡ serialize layout (before ++ x ∷ after)
      → Holds marked_disk archive (serialize layout (before ++ marked x ∷ after))
  marked_disk-archive f h ne there holds = (
    record f { data_bytes = overwrite f.data_bytes place (layout.encode (marked x).header) },
    update-same attributed archive _
        ∙ ap
            (Option.map (λ (g : File). record g {
              data_bytes = overwrite g.data_bytes place (layout.encode (marked x).header);
            }))
            (written-other archive ne ∙ there),
    ap (λ (t : Bytes). overwrite t place (layout.encode (marked x).header)) holds
        ∙ overwrite-marked layout lawful before after x h,
  )

  marked_disk-name : name ≢ archive → Holds marked_disk name x.body
  marked_disk-name ne =
      let (g, there, same) = apply-Holds layout env name written x.body x.header.file_stats keeps (
        append_data-Holds layout env name
          (open_output layout env d name x.header.file_stats.st_mode) x.body
          (open_output-Holds layout env name d x.header.file_stats.st_mode)) in
      (g, update-other attributed archive name _ ne ∙ there, same)

  -- The bytes of the file are copied out of the archive.
  copied_out :
      (f : File)
      → IsEntry x
      → archive ≢ name
      → d archive ≡ some f
      → f.data_bytes ≡ serialize layout (before ++ x ∷ after)
      → duplicate_content []
          (drop
            (place + layout.size)
            (data_of (open_output layout env d name x.header.file_stats.st_mode) archive))
          (pos_part x.header.file_stats.st_size)
        ≡ record { status = done; copied = x.body; rest = serialize layout after; later = [] }
  copied_out f h ne there holds =
      let D : Disk = open_output layout env d name x.header.file_stats.st_mode in
      let S : Bytes = serialize layout after in
      let H : Bytes = layout.encode x.header in
      let P : Bytes = serialize layout before in
      let file : D archive ≡ some f = open_output-other layout env name d _ archive ne ∙ there in
      let content : data_of D archive ≡ P ++ (H ++ (x.body ++ S)) =
        ap (λ (o : Option File). elim o [ none ↦ [] | some g ↦ g.data_bytes ]) file
        ∙ holds
        ∙ serialize-append layout before (x ∷ after)
        ∙ unfold serialize in refl in
      let rest : drop (place + layout.size) (data_of D archive) ≡ x.body ++ S =
        drop-add place layout.size (data_of D archive)
        ∙ ap (λ (t : Bytes). drop layout.size (drop place t)) content
        ∙ ap (drop layout.size) (drop-append place P (H ++ (x.body ++ S)) refl)
        ∙ drop-append layout.size H (x.body ++ S) (lawful.length-encode x.header h.header_record) in
      ap₂ (duplicate_content []) rest (ap pos_part h.sized)
      ∙ duplicate_content-nil (x.body ++ S) (length x.body) (omega (arith, length-append x.body S))
      ∙ rw (take-append (length x.body) x.body S refl, drop-append (length x.body) x.body S refl)

  -- The run comes to the compression of the marked archive.
  extract_record-compress :
      (f : File)
      → length x.body ≤ max_allowed_size
      → env.open_fails name ≡ false
      → IsEntry x
      → archive ≢ name
      → d archive ≡ some f
      → f.data_bytes ≡ serialize layout (before ++ x ∷ after)
      → (extract_record layout env d archive place x.header []).disk
        ≡ (compress_archive_file layout env marked_disk archive []).disk
  unfolding extract_record finish_output mark_record compress_after
  extract_record-compress f small opens h ne there holds =
      let fits : ltb max_allowed_size (pos_part x.header.file_stats.st_size) ≡ false =
        ap (λ (z : ℤ). ltb max_allowed_size (pos_part z)) h.sized ∙ ground arith in
      rw (fits, opens, copied_out f h ne there holds) refl

  -- The calls of the system do what they are asked for, the names differ, and `x` is the first live
  -- record of its name.
  pub record Ready : Type 0 where
    pub faults : NoFaults env archive
    pub seeks : env.seekable ≡ true
    pub output : env.open_fails name ≡ false
    pub fresh : d env.temp_name ≡ none
    pub apart : archive ≢ name
    pub lasting : name ≢ env.temp_name
    pub first : none_wanted name before ≡ true
    pub unmarked : is_marked x.header ≡ false
    pub small : length x.body ≤ max_allowed_size
    pub wf : IsArchive (before ++ x ∷ after)

  extract-found :
      (fuel : ℕ) (f : File)
      → Ready
      → d archive ≡ some f
      → f.data_bytes ≡ serialize layout (before ++ x ∷ after)
      → length before < fuel
      → extract_and_remove_file layout env fuel d archive name []
        ≡ some (extract_record layout env d archive place x.header [])
  unfolding extract_and_remove_file after_scan
  extract-found fuel f ready there holds enough =
      let wanted : is_wanted name x.header ≡ true =
        ground (arith, str_eq_refl name, ready.unmarked) in
      let walk : scan layout env.seekable f.data_bytes name fuel 0 [] ≡ found place x.header [] =
        ap₂ (λ (b : Bool) (t : Bytes). scan layout b t name fuel 0 []) ready.seeks holds
        ∙ scan_found layout lawful (serialize layout (before ++ x ∷ after)) name fuel 0 before after
            x ready.wf ready.first wanted enough refl
        ∙ ap (λ (t : ℕ). found t x.header []) (omega arith) in
      ground (arith, there, ready.faults.opens, walk)

  -- Where the calls of the system do what they are asked for, the archive is well-formed and can be
  -- seeked, no file has the name of the temporary one, the archive, the output file and the
  -- temporary file have three different names, the output file opens, and the first live record of
  -- its name has at most 1 GiB (MAX_ALLOWED_SIZE) of data: extracting gives the output file exactly
  -- the bytes of that record, drops it and all marked records from the archive, and changes no other
  -- file.
  pub extract_and_remove_file-first :
      (fuel : ℕ) (f : File)
      → Ready
      → d archive ≡ some f
      → f.data_bytes ≡ serialize layout (before ++ x ∷ after)
      → length before < fuel
      → (o : Outcome) × (extract_and_remove_file layout env fuel d archive name [] ≡ some o)
        × Holds o.disk name x.body
        × Holds o.disk archive (serialize layout (live (before ++ after)))
        × ((q : Bytes) → q ≢ archive → q ≢ name → o.disk q ≡ d q)
  extract_and_remove_file-first fuel f ready there holds enough =
      let h = IsArchive-entry before after x ready.wf in
      let (fm, there', holds') = marked_disk-archive f h ready.apart there holds in
      let e = extract_record-compress f ready.small ready.output h ready.apart there holds in
      let t : Bytes = env.temp_name in
      let t_archive : t ≢ archive = λ p. absurd (ground (arith, ap d p, ready.fresh, there)) in
      let t_name : t ≢ name = λ p. ready.lasting (sym p) in
      let fresh' : marked_disk t ≡ none =
        update-other attributed archive t _ t_archive ∙ written-other t t_name ∙ ready.fresh in
      let atomic =
        compress_archive_file-Atomic layout env lawful.size_pos marked_disk archive [] fresh' in
      let (g, ok, archived, kept, mode) =
        compress_archive_file-live layout lawful env marked_disk archive
          (before ++ marked x ∷ after) fm ready.faults fresh' there' holds'
          (IsArchive-marked before after x ready.wf) in
      let away : name ≢ archive = λ p. ready.apart (sym p) in
      let (n, named, body) = marked_disk-name away in
      (
        extract_record layout env d archive place x.header [],
        extract-found fuel f ready there holds enough,
        (n, ap (λ (k : Disk). k name) e ∙ atomic.2 ok name away ∙ named, body),
        (
          g,
          ap (λ (k : Disk). k archive) e ∙ archived,
          kept ∙ ap (serialize layout) (live-marked before after x),
        ),
        λ q ne_archive ne_name.
            ap (λ (k : Disk). k q) e
            ∙ atomic.2 ok q ne_archive
            ∙ update-other attributed archive q _ ne_archive
            ∙ written-other q ne_name,
      )
