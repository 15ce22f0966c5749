-- ===== src/Archive/Extract/Output.antt =====
-- The output file that lab5_archive/main.c creates, and its attributes.
use mathlib.Core.Option
use secured_operation_system.Base.{
  ℕ, ◌≡◌, ◌≢◌, refl, ap, ◌∙◌, Option, none, some, [], ◌++◌, Bytes, if◌then◌else◌, if_cases,
}
use secured_operation_system.Archive.Record.{Stat, Layout}
use secured_operation_system.Archive.Disk.{File, Disk, append_data, update-same, update-other, Env}
use secured_operation_system.Archive.Extract.{restored, apply_original_attributes, open_output}

-- The file at `path` holds these bytes.
abbrev pub Holds : Disk → Bytes → Bytes → Type 0
Holds d path bs = (g : File) × (d path ≡ some g) × (g.data_bytes ≡ bs)

module _ (layout : Layout) (env : Env) (path : Bytes) where
  pub open_output-Holds : (d : Disk) (mode : ℕ) → Holds (open_output layout env d path mode) path []
  unfolding open_output
  open_output-Holds d mode = by_file (d path) refl
    where
      by_file : (r : Option File) → d path ≡ r → Holds (open_output layout env d path mode) path []
      by_file none e = rw (e, open_output) (_, update-same d path _, refl)
      by_file (some g) e = rw (e, open_output) (_, update-same d path _, refl)

  pub open_output-other :
      (d : Disk) (mode : ℕ) (q : Bytes) → q ≢ path → open_output layout env d path mode q ≡ d q
  unfolding open_output
  open_output-other d mode q ne = by_file (d path) refl
    where
      by_file : (r : Option File) → d path ≡ r → open_output layout env d path mode q ≡ d q
      by_file none e = rw (e, open_output) (update-other d path q _ ne)
      by_file (some g) e = rw (e, open_output) (update-other d path q _ ne)

  pub append_data-Holds :
      (d : Disk) (w : Bytes) → Holds d path [] → Holds (append_data d path w) path w
  append_data-Holds d w (g, there, empty) = (
    record g { data_bytes = g.data_bytes ++ w },
    update-same d path _
        ∙ ap (Option.map (λ (h : File). record h { data_bytes = h.data_bytes ++ w })) there,
    ap (λ (t : Bytes). t ++ w) empty,
  )

  restored-data_bytes :
      ((u v : ℕ) (g : File) → (env.chown u v g).data_bytes ≡ g.data_bytes)
      → (s : Stat) (g : File) → (restored layout env s g).data_bytes ≡ g.data_bytes
  unfolding restored
  restored-data_bytes keeps s g =
      let moded : File = if env.chmod_fails then g else record g { mode = s.st_mode } in
      let same : moded.data_bytes ≡ g.data_bytes =
        if_cases (λ (h : File). h.data_bytes ≡ g.data_bytes) env.chmod_fails (λ _. refl)
          (λ _. refl) in
      if_cases (λ (h : File). h.data_bytes ≡ g.data_bytes) env.utime_fails
        (λ _. keeps s.st_uid s.st_gid moded ∙ same) (λ _. keeps s.st_uid s.st_gid moded ∙ same)

  -- The attributes do not touch the bytes, if `chown` does not.
  pub apply-Holds :
      (d : Disk) (bs : Bytes) (s : Stat)
      → ((u v : ℕ) (g : File) → (env.chown u v g).data_bytes ≡ g.data_bytes)
      → Holds d path bs
      → Holds (apply_original_attributes layout env d path s).disk path bs
  unfolding apply_original_attributes
  apply-Holds d bs s keeps (g, there, same) = (
    restored layout env s g,
    update-same d path _ ∙ ap (Option.map (restored layout env s)) there,
    restored-data_bytes keeps s g ∙ same,
  )
