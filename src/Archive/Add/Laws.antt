-- ===== src/Archive/Add/Laws.antt =====
-- What adding a file does to an archive: lab5_archive/main.c, `add_file_to_archive`.
use mathlib.Core.Option
use secured_operation_system.Base.{
  ℕ, zero, suc, ◌-◌, ◌<◌, ◌≡◌, ◌≢◌, refl, sym, ap, ◌∙◌, false, Option, none, some, List, [], ◌∷◌,
  ◌++◌, Bytes, length, take, replicate, length-append, length-take, take_all, length-replicate,
  append_assoc, append-nil, All, ltb, lt→ltb, if_cases, c_str, arith,
}
use secured_operation_system.Archive.Io.{
  Io, Status, done, failed, out_of_fuel, complete_write, duplicate_content,
}
use secured_operation_system.Archive.Io.Write.{complete_write-nil}
use secured_operation_system.Archive.Io.Copy.{duplicate_content-nil}
use secured_operation_system.Archive.Record.{
  path_size, Layout, IsRecord, Entry, IsEntry, serialize, serialize-append,
}
use secured_operation_system.Archive.Disk.{
  File, Disk, append_data, update-same, update-other, Env, Message, added, metadata_error,
  source_open_error, name_too_long, archive_open_error, Outcome, report,
}
use secured_operation_system.Archive.Add.{
  padded, new_record, add_data, add_record, add_source, open_or_create, add_file_to_archive,
  report_copy,
}

pub new_record-IsRecord : (name : Bytes) (source : File) → IsRecord (new_record name source)
unfolding new_record padded
new_record-IsRecord name source =
    let copied : Bytes = take (path_size - 1) name in
    omega (
      arith,
      length-append copied (replicate (path_size - length copied) 0),
      length-replicate {A = ℕ} (path_size - length copied) 0,
      length-take (path_size - 1) name,
    )

-- The entry that is added for a file.
abbrev pub new_entry : Bytes → File → Entry
new_entry name source = record { header = new_record name source; body = source.data_bytes }

pub new_entry-IsEntry : (name : Bytes) (source : File) → IsEntry (new_entry name source)
unfolding new_record
new_entry-IsEntry name source = record {
  header_record = new_record-IsRecord name source;
  sized = refl;
}

-- The name is read back from the array, if it holds no NUL and fits.
c_str-replicate : (s : Bytes) (n : ℕ) → All (λ c. 0 < c) s → c_str (s ++ replicate n 0) ≡ s
c_str-replicate [] zero h = refl
c_str-replicate [] (suc n) h = refl
c_str-replicate (c ∷ s) n h = ground (arith, c_str-replicate s n h.1)

pub c_str-padded :
    (name : Bytes) → length name < path_size → All (λ c. 0 < c) name → c_str (padded name) ≡ name
unfolding padded
c_str-padded name short h =
    let whole : take 1023 name ≡ name = take_all 1023 name (omega arith) in
    rw whole (c_str-replicate name _ h)

-- The file at `archive` is `f` with some bytes added at its end, and no other file has changed.
pub record Extends (d : Disk) (archive : Bytes) (f : File) (o : Outcome) : Type 0 where
  pub more : Bytes
  pub grown : o.disk archive ≡ some (record f { data_bytes = f.data_bytes ++ more })
  pub others : (q : Bytes) → q ≢ archive → o.disk q ≡ d q

module _ (layout : Layout) (env : Env) (d : Disk) (archive : Bytes) (f : File)
    (there : d archive ≡ some f) where
  report-Extends : (message : Message) → Extends d archive f (report d message)
  report-Extends message = record {
    more = [];
    grown =
        there
        ∙ ap (λ (t : Bytes). some (record f { data_bytes = t })) (sym (append-nil f.data_bytes));
    others = λ q _. refl;
  }

  append_data-other : (w q : Bytes) → q ≢ archive → append_data d archive w q ≡ d q
  append_data-other w q ne = update-other d archive q _ ne

  append_data-there :
      (w : Bytes)
      → append_data d archive w archive ≡ some (record f { data_bytes = f.data_bytes ++ w })
  append_data-there w =
      update-same d archive _
      ∙ ap (Option.map (λ (g : File). record g { data_bytes = g.data_bytes ++ w })) there

module _ (layout : Layout) (env : Env) (archive target : Bytes) where
  report_copy-disk : (d : Disk) (s : Status) → (report_copy layout env d s).disk ≡ d
  report_copy-disk d done = refl
  report_copy-disk d failed = refl
  report_copy-disk d out_of_fuel = refl

  add_record-Extends :
      (d : Disk) (f source : File) (io : List Io)
      → d archive ≡ some f
      → Extends d archive f (add_record layout env d archive target source io)
  unfolding add_record add_data
  add_record-Extends d f source io there =
      let w = complete_write io (layout.encode (new_record target source)) in
      let c = duplicate_content w.later source.data_bytes (length source.data_bytes) in
      let d1 : Disk = append_data d archive w.written in
      let f1 : File = record f { data_bytes = f.data_bytes ++ w.written } in
      let h1 = append_data-there layout env d archive f there w.written in
      let d2 : Disk = append_data d1 archive c.copied in
      if_cases (Extends d archive f) w.success
        (λ _. record {
          more = w.written ++ c.copied;
          grown =
              ap (λ (e : Disk). e archive) (report_copy-disk d2 c.status)
              ∙ append_data-there layout env d1 archive f1 h1 c.copied
              ∙ ap (λ (t : Bytes). some (record f { data_bytes = t }))
                  (append_assoc f.data_bytes w.written c.copied);
          others = λ q ne.
              ap (λ (e : Disk). e q) (report_copy-disk d2 c.status)
              ∙ append_data-other layout env d1 archive f1 h1 c.copied q ne
              ∙ append_data-other layout env d archive f there w.written q ne;
        })
        (λ _. record {
          more = w.written;
          grown = h1;
          others = λ q ne. append_data-other layout env d archive f there w.written q ne;
        })

  add_source-Extends :
      (d : Disk) (f : File) (source : Option File) (io : List Io)
      → d archive ≡ some f
      → Extends d archive f (add_source layout env d archive target io source)
  unfolding add_source
  add_source-Extends d f none io there = report-Extends layout env d archive f there _
  add_source-Extends d f (some source) io there =
      let quit = report-Extends layout env d archive f there in
      if_cases (Extends d archive f) (env.open_fails target) (λ _. quit source_open_error)
        λ _.
          if_cases (Extends d archive f) (ltb (length target) path_size)
            (λ _.
              if_cases (Extends d archive f) env.fstat_fails (λ _. quit metadata_error)
                λ _. add_record-Extends d f source io there)
            λ _. quit name_too_long

  -- Whatever fails, adding a file only ever adds bytes at the end of an existing archive, and
  -- changes no other file.
  pub add_file_to_archive-Extends :
      (d : Disk) (f : File) (io : List Io)
      → d archive ≡ some f
      → Extends d archive f (add_file_to_archive layout env d archive target io)
  unfolding add_file_to_archive open_or_create
  add_file_to_archive-Extends d f io there =
      if_cases (Extends d archive f) (env.open_fails archive)
        (λ _. report-Extends layout env d archive f there archive_open_error)
        λ _. rw (there, open_or_create) (add_source-Extends d f (d target) io there)

  abbrev both_written : Disk → File → Disk
  both_written d source =
      append_data (append_data d archive (layout.encode (new_record target source))) archive
        source.data_bytes

  add_record-nil :
      (d : Disk) (source : File)
      → add_record layout env d archive target source [] ≡ report (both_written d source) added
  unfolding add_record add_data
  add_record-nil d source = rw (
    complete_write-nil (layout.encode (new_record target source)),
    duplicate_content-nil source.data_bytes (length source.data_bytes) (omega arith),
    take_all (length source.data_bytes) source.data_bytes (omega arith),
  )

  both_written-there :
      (d : Disk) (es : List Entry) (f source : File)
      → d archive ≡ some f
      → f.data_bytes ≡ serialize layout es
      → both_written d source archive
        ≡ some (record f { data_bytes = serialize layout (es ++ new_entry target source ∷ []) })
  unfolding serialize
  both_written-there d es f source there holds =
      let H : Bytes = layout.encode (new_record target source) in
      let h1 = append_data-there layout env d archive f there H in
      append_data-there layout env (append_data d archive H) archive _ h1 source.data_bytes
      ∙ ap (λ (t : Bytes). some (record f { data_bytes = t }))
          (simp (holds, serialize-append, append_assoc, append-nil))

  -- With calls that do what they are asked for, a file that can be read and whose name fits is
  -- added as one more record with its bytes, at the end of a well-formed archive; a missing
  -- archive is created.
  pub add_file_to_archive-serialize :
      (d : Disk) (es : List Entry) (f source : File)
      → env.open_fails archive ≡ false
      → env.open_fails target ≡ false
      → env.fstat_fails ≡ false
      → open_or_create layout env d archive archive ≡ some f
      → f.data_bytes ≡ serialize layout es
      → open_or_create layout env d archive target ≡ some source
      → length target < path_size
      → ((add_file_to_archive layout env d archive target []).printed ≡ added ∷ [])
        × ((add_file_to_archive layout env d archive target []).disk archive
            ≡ some
                (record f { data_bytes = serialize layout (es ++ new_entry target source ∷ []) }))
  unfolding add_file_to_archive add_source
  add_file_to_archive-serialize d es f source opens readable attributes there holds found short =
      let D : Disk = open_or_create layout env d archive in
      let run : add_file_to_archive layout env d archive target []
          ≡ report (both_written D source) added =
        ground (
          arith,
          opens,
          readable,
          attributes,
          found,
          lt→ltb (length target) path_size short,
          add_record-nil D source,
        ) in
      (
        ap (λ (o : Outcome). o.printed) run,
        ap (λ (o : Outcome). o.disk archive) run ∙ both_written-there D es f source there holds,
      )
