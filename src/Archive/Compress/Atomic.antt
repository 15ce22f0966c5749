-- ===== src/Archive/Compress/Atomic.antt =====
-- Whatever calls fail: the compression of lab5_archive/main.c ends, touches no file but the archive,
-- and leaves the archive alone if it fails.
use secured_operation_system.Base.{
  ℕ, zero, suc, false, ◌+◌, ◌≤◌, ◌<◌, ◌≡◌, ◌≢◌, refl, ◌∙◌, ◌-◌, ◌==◌, Option, none, some, List,
  Bytes, length, drop, length-drop, arith, ==_eq, Bool-cases, if_cases, sym, ap, str_eq,
  eq_of_str_eq, str_eq_refl, inl, inr,
}
use secured_operation_system.Archive.Io.{
  Io, complete_write, Written, Read, read_error, got, read_some, Status, done, failed, out_of_fuel,
  Copied, duplicate_content, skip_bytes,
}
use secured_operation_system.Archive.Io.Copy.{IsRead, read_some-IsRead, duplicate_content-Copies}
use secured_operation_system.Archive.Io.Skip.{skip_bytes-Skips}
use secured_operation_system.Archive.Record.{Layout, is_marked}
use secured_operation_system.Archive.Disk.{
  File, Disk, update, append_data, update-other, Env, Message, compress_open_error,
  compress_temp_error,
}
use secured_operation_system.Archive.Compress.{
  LoopEnd, ended, error_cleanup, no_fuel, Compressed, compress_read, compress_record, compress_loop,
  unlink_temp, finish, compress_archive_file, compress_file, refused, temp_file, after_copy,
  after_header, data_size,
}

-- Two file systems agree but for one file.
abbrev SameBut : Bytes → Disk → Disk → Type 0
SameBut path d e = (q : Bytes) → q ≢ path → e q ≡ d q

module _ (layout : Layout) (env : Env) where
  -- The end of the loop changed the temporary file alone.
  abbrev Local : Disk → LoopEnd → Type 0
  Local d (ended e) = SameBut env.temp_name d e
  Local d (error_cleanup message e) = SameBut env.temp_name d e
  Local d (no_fuel e) = ⊥

  SameBut-append_data :
      (d e : Disk) (w : Bytes)
      → SameBut env.temp_name d e
      → SameBut env.temp_name d (append_data e env.temp_name w)
  SameBut-append_data d e w h q ne = update-other e env.temp_name q _ ne ∙ h q ne

module _ (layout : Layout) (env : Env) (d : Disk) (bound : ℕ)
    (next : Disk → Bytes → List Io → LoopEnd) where
  -- What the rest of the loop guarantees from a state with less than `bound` bytes to read.
  abbrev Next : Type 0
  Next =
      (e : Disk) (rest : Bytes) (io : List Io)
      → SameBut env.temp_name d e
      → length rest < bound
      → Local layout env d (next e rest io)

  after_copy-Local :
      (message : Message) (e : Disk) (c : Copied) (s : Status)
      → c.status ≡ s
      → c.status ≢ out_of_fuel
      → (c.status ≡ done → length c.rest < bound)
      → SameBut env.temp_name d e
      → Next
      → Local layout env d (after_copy layout env message e c next)
  after_copy-Local message e c done q ends short h n = rw q (n e c.rest c.later h (short q))
  after_copy-Local message e c failed q ends short h n = rw q h
  after_copy-Local message e c out_of_fuel q ends short h n = absurd (ends q)

  after_header-Local :
      (header rest : Bytes) (e : Disk) (w : Written)
      → length rest < bound
      → SameBut env.temp_name d e
      → Next
      → Local layout env d (after_header layout env header rest e w next)
  after_header-Local header rest e w small h n = elim (Bool-cases w.success) [
    | inl good ↦
        let size : ℕ = data_size layout env header in
        let c = duplicate_content w.later rest size in
        let copies = duplicate_content-Copies w.later rest size in
        rw good (
          after_copy-Local _ (append_data e env.temp_name c.copied) c c.status refl copies.ends
            (λ q. rw (copies.complete q).1 (omega (arith, length-drop size rest)))
            (SameBut-append_data layout env d e c.copied h) n)
    | inr bad ↦ rw bad h
  ]

  compress_record-Local :
      (header rest : Bytes) (io : List Io) (e : Disk)
      → length rest < bound
      → SameBut env.temp_name d e
      → Next
      → Local layout env d (compress_record layout env e header rest io next)
  unfolding compress_record
  compress_record-Local header rest io e small h n =
      elim (Bool-cases (is_marked (layout.decode header))) [
        | inl marked ↦
            let size : ℕ = data_size layout env header in
            let skips = skip_bytes-Skips env.seekable io rest size in
            rw marked (
              after_copy-Local _ e (skip_bytes env.seekable io rest size) _ refl skips.ends
                (λ q. rw (skips.complete q) (omega (arith, length-drop size rest))) h n)
        | inr kept ↦
            let w = complete_write io header in
            rw kept (
              after_header-Local header rest (append_data e env.temp_name w.written) w small
                (SameBut-append_data layout env d e w.written h) n)
      ]

  compress_read-Local :
      (rest : Bytes) (r : Read) (e : Disk)
      → IsRead layout.size rest r
      → (layout.size ≤ length rest → length rest - layout.size < bound)
      → SameBut env.temp_name d e
      → Next
      → Local layout env d (compress_read layout env e rest r next)
  unfolding compress_read
  compress_read-Local rest (read_error io) e there small h n = h
  compress_read-Local rest (got header io) e there small h n =
      elim (Bool-cases (length header == layout.size)) [
        | inl whole ↦
            let full : layout.size ≤ length rest =
              omega (arith, there.2, ==_eq (length header) layout.size whole) in
            rw whole (
              compress_record-Local header (drop layout.size rest) io e
                (omega (arith, small full, length-drop layout.size rest)) h n)
        | inr short ↦ rw short h
      ]

module _ (layout : Layout) (env : Env) (size_pos : 0 < layout.size) where
  compress_loop-Local :
      (fuel : ℕ) (d e : Disk) (rest : Bytes) (io : List Io)
      → length rest < fuel
      → SameBut env.temp_name d e
      → Local layout env d (compress_loop layout env fuel e rest io)
  unfolding compress_loop
  compress_loop-Local zero d e rest io h same = absurd (omega arith)
  compress_loop-Local (suc fuel) d e rest io h same =
      compress_read-Local layout env d fuel
        (λ d' rest' io'. compress_loop layout env fuel d' rest' io') rest
        (read_some io layout.size rest) e (read_some-IsRead io layout.size rest) (omega arith) same
        (λ e' rest' io' same' small. compress_loop-Local fuel d e' rest' io' small same')

module _ (layout : Layout) (env : Env) (d : Disk) (archive : Bytes) where
  -- With the temporary file removed, nothing is left of the attempt.
  cleanup-same :
      (e : Disk) (f : Option File)
      → d env.temp_name ≡ none
      → SameBut env.temp_name (update d env.temp_name f) e
      → (q : Bytes) → update e env.temp_name none q ≡ d q
  cleanup-same e f fresh h q = elim (Bool-cases (str_eq q env.temp_name)) [
    | inl same ↦
        let here : q ≡ env.temp_name = eq_of_str_eq q env.temp_name same in
        rw same (sym fresh ∙ ap d (sym here))
    | inr other ↦
        let apart : q ≢ env.temp_name = λ p. absurd (ground (arith, str_eq_refl q)) in
        rw other (h q apart ∙ update-other d env.temp_name q f apart)
  ]

  -- `unlink` does not leave the file of this name behind.
  abbrev pub Removed : Bytes → Type 0
  Removed q = q ≡ env.temp_name → env.unlink_fails ≡ false

  unlink-same :
      (e : Disk) (f : Option File)
      → d env.temp_name ≡ none
      → SameBut env.temp_name (update d env.temp_name f) e
      → (q : Bytes) → Removed q
      → unlink_temp layout env e q ≡ d q
  unlink-same e f fresh h q removed = elim (Bool-cases env.unlink_fails) [
    | inl stays ↦
        let apart : q ≢ env.temp_name = λ p. absurd (ground (arith, removed p, stays)) in
        rw stays (h q apart ∙ update-other d env.temp_name q f apart)
    | inr works ↦ rw works (cleanup-same e f fresh h q)
  ]

  -- A run ends; if it fails, no file has changed, but for a temporary file that could not be
  -- removed; if it succeeds, none but the archive.
  abbrev pub Atomic : Compressed → Type 0
  Atomic c =
      (c.status ≢ out_of_fuel)
      × (c.status ≡ failed → (q : Bytes) → Removed q → c.disk q ≡ d q)
      × (c.status ≡ done → (q : Bytes) → q ≢ archive → c.disk q ≡ d q)

  finish-Atomic :
      (f : Option File) (r : LoopEnd)
      → d env.temp_name ≡ none
      → Local layout env (update d env.temp_name f) r
      → Atomic (finish layout env archive r)
  unfolding finish
  finish-Atomic f (error_cleanup message e) fresh h =
      (λ q. cc, λ _. unlink-same e f fresh h, λ q. cc)
  finish-Atomic f (no_fuel e) fresh h = elim h [ ]
  finish-Atomic f (ended e) fresh h =
      if_cases Atomic env.rename_fails (λ fails. (λ q. cc, λ _. unlink-same e f fresh h, λ q. cc))
        (λ works. (
          λ q. cc,
          λ q. cc,
          λ _ q ne.
              ground
                (arith, update-other e archive q (e env.temp_name) ne, cleanup-same e f fresh h q),
        ))

module _ (layout : Layout) (env : Env) (size_pos : 0 < layout.size) (d : Disk)
    (archive : Bytes) where
  refused-Atomic : (message : Message) → Atomic layout env d archive (refused layout env d message)
  refused-Atomic message = (λ q. cc, λ _ q _. refl, λ q. cc)

  compress_file-Atomic :
      (f : File) (io : List Io)
      → d env.temp_name ≡ none
      → Atomic layout env d archive (compress_file layout env d archive f io)
  unfolding compress_file
  compress_file-Atomic f io fresh =
      let t : Option File = some (temp_file layout env f) in
      if_cases (Atomic layout env d archive) (env.open_fails archive)
        (λ _. refused-Atomic compress_open_error)
        λ _.
          if_cases (Atomic layout env d archive) env.mkstemp_fails
            (λ _. refused-Atomic compress_temp_error)
            λ _. finish-Atomic layout env d archive t _ fresh (
              compress_loop-Local layout env size_pos (length f.data_bytes + 1)
                (update d env.temp_name t) (update d env.temp_name t) f.data_bytes io (omega arith)
                (λ q _. refl))

  -- Whatever calls of the system fail or fall short, `compress_archive_file` ends, given that no
  -- file has the name of the temporary one. If it returns -1, every file is as it was, but that the
  -- temporary file may be left where `unlink` fails too; if it returns 0, every file but the archive
  -- is as it was.
  pub compress_archive_file-Atomic :
      (io : List Io)
      → d env.temp_name ≡ none
      → Atomic layout env d archive (compress_archive_file layout env d archive io)
  unfolding compress_archive_file
  compress_archive_file-Atomic io fresh = by_file (d archive) refl
    where
      by_file :
          (r : Option File)
          → d archive ≡ r
          → Atomic layout env d archive (compress_archive_file layout env d archive io)
      by_file none e = rw (e, compress_archive_file) (refused-Atomic compress_open_error)
      by_file (some f) e = rw (e, compress_archive_file) (compress_file-Atomic f io fresh)
