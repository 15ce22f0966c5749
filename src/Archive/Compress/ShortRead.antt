-- ===== src/Archive/Compress/ShortRead.antt =====
-- A header that `read` gives only in part: `compress_archive_file` of lab5_archive/main.c.
use secured_operation_system.Base.{
  ℕ, zero, suc, ◌+◌, ◌<◌, ◌≡◌, ap, ◌∙◌, false, Option, none, some, List, [], ◌∷◌, Bytes, length,
  take, length-take, min, ◌==◌, arith,
}
use secured_operation_system.Archive.Io.{Io, amount, done, read_some}
use secured_operation_system.Archive.Record.{Layout}
use secured_operation_system.Archive.Disk.{File, Disk, update, data_of, update-same, Env}
use secured_operation_system.Archive.Compress.{
  ended, Compressed, compress_read, compress_loop, temp_file, compress_archive_file,
}
use secured_operation_system.Archive.Compress.Refines.{NoFaults, compress_ended, moved}

loop_short :
    (layout : Layout) (env : Env) (fuel : ℕ) (e : Disk) (rest : Bytes) (k : ℕ) (io : List Io)
    → k < layout.size
    → 0 < fuel
    → compress_loop layout env fuel e rest (amount k ∷ io) ≡ ended e
unfolding compress_loop compress_read read_some
loop_short layout env zero e rest k io short pos_ = absurd (omega arith)
loop_short layout env (suc fuel) e rest k io short pos_ =
    let part : length (take (min k layout.size) rest) < layout.size =
      omega (arith, length-take (min k layout.size) rest) in
    let ne : length (take (min k layout.size) rest) == layout.size ≡ false = ground arith in rw ne

-- Where all other calls do what they are asked for, a first header that `read` gives in part ends
-- the loop as the end of the file does: the compression returns 0, and no record is left in the
-- archive.
pub compress_archive_file-short_read :
    (layout : Layout) (env : Env) (d : Disk) (archive : Bytes) (f : File) (k : ℕ) (io : List Io)
    → NoFaults env archive
    → d env.temp_name ≡ none
    → d archive ≡ some f
    → k < layout.size
    → ((compress_archive_file layout env d archive (amount k ∷ io)).status ≡ done)
      × (data_of (compress_archive_file layout env d archive (amount k ∷ io)).disk archive ≡ [])
unfolding temp_file
compress_archive_file-short_read layout env d archive f k io ok fresh there short =
    let t : File = temp_file layout env f in
    let e : Disk = update d env.temp_name (some t) in
    let run =
      compress_ended layout env d archive f (amount k ∷ io) e ok there
        (loop_short layout env (length f.data_bytes + 1) e f.data_bytes k io short (omega arith)) in
    let now = moved layout env d archive e f t fresh there (update-same d env.temp_name (some t)) in
    (
      ap (λ (c : Compressed). c.status) run,
      ap (λ (c : Compressed). data_of c.disk archive) run
          ∙ ap (λ (o : Option File). elim o [ none ↦ [] | some g ↦ g.data_bytes ]) now,
    )
