-- ===== src/Archive/Compress/Refines.antt =====
-- On a well-formed archive, with calls that do what they are asked for, the compression of
-- lab5_archive/main.c keeps exactly the records that are not marked as deleted.
use secured_operation_system.Base.{
  ℕ, zero, suc, ◌+◌, ◌≤◌, ◌<◌, ◌≡◌, ◌≢◌, refl, sym, ap, ◌∙◌, true, false, none, some, List, [], ◌∷◌,
  ◌++◌, Bytes, length, take, drop, length-append, take-append, drop-append, take-nil, append_assoc,
  append-nil, ==_refl, pos_part, if◌then◌else◌, arith, Bool-cases, str_eq_refl, str_eq_refl, inl,
  inr,
}
use secured_operation_system.Archive.Io.{Io, done, read_some}
use secured_operation_system.Archive.Io.Write.{complete_write-nil}
use secured_operation_system.Archive.Io.Copy.{duplicate_content-nil}
use secured_operation_system.Archive.Io.Skip.{skip_bytes-nil}
use secured_operation_system.Archive.Record.{
  ArchiveRecord, Layout, IsLayout, is_marked, Entry, IsEntry, IsArchive, serialize, live,
}
use secured_operation_system.Archive.Disk.{
  File, Disk, update, append_data, update-same, update-other, Env,
}
use secured_operation_system.Archive.Compress.{
  data_size, LoopEnd, ended, Compressed, compress_read, compress_record, compress_loop, finish,
  temp_file, compress_file, compress_archive_file,
}

module _ (layout : Layout) (env : Env) (next : Disk → Bytes → List Io → LoopEnd) where
  record_marked :
      (e : Disk) (header rest : Bytes) (n : ℕ)
      → is_marked (layout.decode header) ≡ true
      → data_size layout env header ≡ n
      → n ≤ length rest
      → compress_record layout env e header rest [] next ≡ next e (drop n rest) []
  unfolding compress_record
  record_marked e header rest n marked size room =
      rw (marked, size, skip_bytes-nil env.seekable rest n room)

  record_kept :
      (e : Disk) (header rest : Bytes) (n : ℕ)
      → is_marked (layout.decode header) ≡ false
      → data_size layout env header ≡ n
      → n ≤ length rest
      → compress_record layout env e header rest [] next
        ≡ next
            (append_data (append_data e env.temp_name header) env.temp_name (take n rest))
            (drop n rest)
            []
  unfolding compress_record
  record_kept e header rest n kept size room =
      rw (kept, complete_write-nil header, size, duplicate_content-nil rest n room)

module _ (layout : Layout) (lawful : IsLayout layout) (env : Env) where
  -- What one record adds to the temporary file.
  abbrev keep : Entry → Disk → Disk
  keep x e =
      if is_marked x.header
      then e
      else append_data (append_data e env.temp_name (layout.encode x.header)) env.temp_name x.body

  -- A header is read whole, and the loop goes on with it.
  header_step :
      (fuel : ℕ) (e : Disk) (header rest : Bytes)
      → length header ≡ layout.size
      → compress_loop layout env (suc fuel) e (header ++ rest) []
        ≡ compress_record layout env e header rest []
            (λ d' rest' io'. compress_loop layout env fuel d' rest' io')
  unfolding compress_loop compress_read read_some
  header_step fuel e header rest len = rw (
    take-append layout.size header rest len,
    drop-append layout.size header rest len,
    len,
    ==_refl layout.size,
  )

  entry_length :
      (x : Entry) (es : List Entry)
      → IsEntry x
      → layout.size + length (serialize layout es) ≤ length (serialize layout (x ∷ es))
  unfolding serialize
  entry_length x es h = omega (
    arith,
    length-append (layout.encode x.header) (x.body ++ serialize layout es),
    length-append x.body (serialize layout es),
    lawful.length-encode x.header h.header_record,
  )

  record_step :
      (fuel : ℕ) (e : Disk) (x : Entry) (es : List Entry)
      → IsEntry x
      → compress_loop layout env (suc fuel) e (serialize layout (x ∷ es)) []
        ≡ compress_loop layout env fuel (keep x e) (serialize layout es) []
  unfolding serialize
  record_step fuel e x es h =
      let S : Bytes = serialize layout es in
      let H : Bytes = layout.encode x.header in
      let back = lawful.decode-encode x.header h.header_record in
      let size : data_size layout env H ≡ length x.body =
        ap (λ (r : ArchiveRecord). pos_part r.file_stats.st_size) back ∙ ap pos_part h.sized in
      let room : length x.body ≤ length (x.body ++ S) = omega (arith, length-append x.body S) in
      let whole = drop-append (length x.body) x.body S refl in
      header_step fuel e H (x.body ++ S) (lawful.length-encode x.header h.header_record)
      ∙ elim (Bool-cases (is_marked x.header)) [
        | inl m ↦
            record_marked layout env _ e H (x.body ++ S) (length x.body) (ap is_marked back ∙ m)
              size room
            ∙ rw (whole, m)
        | inr k ↦
            record_kept layout env _ e H (x.body ++ S) (length x.body) (ap is_marked back ∙ k) size
              room
            ∙ rw (whole, take-append (length x.body) x.body S refl, k)
      ]

  abbrev keep_all : List Entry → Disk → Disk
  keep_all [] e = e
  keep_all (x ∷ es) e = keep_all es (keep x e)

  loop_ended :
      (fuel : ℕ) (e : Disk) (es : List Entry)
      → IsArchive es
      → length (serialize layout es) < fuel
      → compress_loop layout env fuel e (serialize layout es) [] ≡ ended (keep_all es e)
  loop_ended zero e es h enough = absurd (omega arith)
  loop_ended (suc fuel) e [] h enough =
      unfold compress_loop compress_read read_some serialize in
      rw take-nil (ground (arith, lawful.size_pos))
  loop_ended (suc fuel) e (x ∷ es) h enough =
      record_step fuel e x es h.0
      ∙ loop_ended fuel (keep x e) es h.1 (omega (arith, entry_length x es h.0, lawful.size_pos))

  -- The temporary file then holds its bytes and the live records.
  temp_holds :
      (es : List Entry) (e : Disk) (g : File)
      → e env.temp_name ≡ some g
      → keep_all es e env.temp_name
        ≡ some (record g { data_bytes = g.data_bytes ++ serialize layout (live es) })
  unfolding serialize live
  temp_holds [] e g h =
      h ∙ ap (λ (t : Bytes). some (record g { data_bytes = t })) (sym (append-nil g.data_bytes))
  temp_holds (x ∷ es) e g h = elim (Bool-cases (is_marked x.header)) [
    | inl m ↦ rw m (temp_holds es e g h)
    | inr k ↦
        let H : Bytes = layout.encode x.header in
        let g' : File = record g { data_bytes = (g.data_bytes ++ H) ++ x.body } in
        rw k (
          temp_holds es (append_data (append_data e env.temp_name H) env.temp_name x.body) g'
            (rw (str_eq_refl env.temp_name, h))
          ∙ ap (λ (t : Bytes). some (record g { data_bytes = t }))
              (append_assoc (g.data_bytes ++ H) x.body _ ∙ append_assoc g.data_bytes H _))
  ]

-- No call of the system fails.
pub record NoFaults (env : Env) (archive : Bytes) : Type 0 where
  pub opens : env.open_fails archive ≡ false
  pub temporary : env.mkstemp_fails ≡ false
  pub attributes : env.fstat_fails ≡ false
  pub renames : env.rename_fails ≡ false

module _ (layout : Layout) (env : Env) (d : Disk) (archive : Bytes) where
  -- With a loop that has ended, the temporary file takes the place of the archive.
  pub compress_ended :
      (f : File) (io : List Io) (e : Disk)
      → NoFaults env archive
      → d archive ≡ some f
      → compress_loop layout env
          (length f.data_bytes + 1)
          (update d env.temp_name (some (temp_file layout env f)))
          f.data_bytes
          io
        ≡ ended e
      → compress_archive_file layout env d archive io ≡ record {
        status = done;
        disk = update (update e archive (e env.temp_name)) env.temp_name none;
        printed = [];
      }
  unfolding compress_archive_file compress_file finish
  compress_ended f io e ok there loop =
      ground (arith, there, ok.opens, ok.temporary, ok.renames, loop)

  pub moved :
      (e : Disk) (f g : File)
      → d env.temp_name ≡ none
      → d archive ≡ some f
      → e env.temp_name ≡ some g
      → update (update e archive (e env.temp_name)) env.temp_name none archive ≡ some g
  moved e f g fresh there h =
      let apart : archive ≢ env.temp_name = λ p. absurd (ground (arith, ap d p)) in
      update-other (update e archive (e env.temp_name)) env.temp_name archive none apart
      ∙ update-same e archive (e env.temp_name)
      ∙ h

module _ (layout : Layout) (lawful : IsLayout layout) (env : Env) (d : Disk) (archive : Bytes) where
  -- The file system when the loop has gone through the records.
  abbrev loop_disk : List Entry → File → Disk
  loop_disk es f =
      keep_all layout lawful env es (update d env.temp_name (some (temp_file layout env f)))

  compress_run :
      (es : List Entry) (f : File)
      → NoFaults env archive
      → d archive ≡ some f
      → f.data_bytes ≡ serialize layout es
      → IsArchive es
      → compress_archive_file layout env d archive [] ≡ (
          let e = loop_disk es f in
          record {
            status = done;
            disk = update (update e archive (e env.temp_name)) env.temp_name none;
            printed = [];
          })
  compress_run es f ok there holds wf =
      let e0 : Disk = update d env.temp_name (some (temp_file layout env f)) in
      compress_ended layout env d archive f [] (loop_disk es f) ok there (
        ap (λ (t : Bytes). compress_loop layout env (length t + 1) e0 t []) holds
        ∙ loop_ended layout lawful env (length (serialize layout es) + 1) e0 es wf (omega arith))

  -- Where the calls of the system do what they are asked for, the compression of a well-formed
  -- archive returns 0; the archive then holds exactly the records that were not marked as deleted,
  -- in their order, under its old mode.
  pub compress_archive_file-live :
      (es : List Entry) (f : File)
      → NoFaults env archive
      → d env.temp_name ≡ none
      → d archive ≡ some f
      → f.data_bytes ≡ serialize layout es
      → IsArchive es
      → (g : File) × ((compress_archive_file layout env d archive []).status ≡ done)
        × ((compress_archive_file layout env d archive []).disk archive ≡ some g)
        × (g.data_bytes ≡ serialize layout (live es))
        × (g.mode ≡ f.mode)
  unfolding temp_file
  compress_archive_file-live es f ok fresh there holds wf =
      let t : File = temp_file layout env f in
      let g : File = record t { data_bytes = serialize layout (live es) } in
      let e : Disk = loop_disk es f in
      let run = compress_run es f ok there holds wf in
      let now =
        moved layout env d archive e f g fresh there
          (temp_holds layout lawful env es _ t (update-same d env.temp_name (some t))) in
      (
        g,
        ap (λ (c : Compressed). c.status) run,
        ap (λ (c : Compressed). c.disk archive) run ∙ now,
        refl,
        ground (arith, ok.attributes),
      )
