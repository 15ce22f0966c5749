-- ===== src/Chmod/Main/Laws.antt =====
-- What a run of lab4_chmod/mychmod.c leaves behind.
use secured_operation_system.Base.{
  ℕ, ◌/◌, ◌<◌, ◌≤◌, ◌≡◌, ◌≢◌, refl, ◌∙◌, lt→ltb, true, false, Option, none, some, List, [], ◌∷◌,
  ◌++◌, Bytes, bytes, contains, all, arith, if◌then◌else◌, ltb,
}
use secured_operation_system.Base.Bits.{bit_at}
use secured_operation_system.Chmod.Os.{
  FileModes, IsLawful, invalid_numeric, exit_success, exit_failure,
}
use secured_operation_system.Chmod.Numeric.{is_octal, change_mode, apply_numeric_mode}
use secured_operation_system.Chmod.Numeric.Octal.{octal_value, numeric_mode-octal_value}
use secured_operation_system.Chmod.Symbolic.{apply_symbolic_mode}
use secured_operation_system.Chmod.Symbolic.Categories.{letter_of, is_category, is_permission}
use secured_operation_system.Chmod.Symbolic.Laws.{
  is_operator, selects, wanted, Changed, symbolic_change-mode,
}
use secured_operation_system.Chmod.Main.{is_numeric, main}

-- The command line `mychmod mode_string target_file`.
abbrev pub command : Bytes → Bytes → List Bytes
command mode_string path = bytes "mychmod" ∷ mode_string ∷ path ∷ []

module _ (fs : FileModes) where
  apply_numeric_mode-failure :
      (input path : Bytes) (s : fs.State)
      → (apply_numeric_mode fs input path s).status ≢ exit_success
      → (apply_numeric_mode fs input path s).state ≡ s
  unfolding apply_numeric_mode change_mode
  apply_numeric_mode-failure input path s h = ground arith

  apply_symbolic_mode-failure :
      (spec path : Bytes) (s : fs.State)
      → (apply_symbolic_mode fs spec path s).status ≢ exit_success
      → (apply_symbolic_mode fs spec path s).state ≡ s
  unfolding apply_symbolic_mode change_mode
  apply_symbolic_mode-failure spec path s h = ground arith

  -- A run that does not exit with 0 leaves the file system as it was.
  pub main-failure :
      (argv : List Bytes) (s : fs.State)
      → (main fs argv s).status ≢ exit_success
      → (main fs argv s).state ≡ s
  unfolding main
  main-failure (program ∷ mode_string ∷ target_file ∷ []) s h = ground (
    arith,
    apply_numeric_mode-failure mode_string target_file s,
    apply_symbolic_mode-failure mode_string target_file s,
  )
  main-failure argv s h = refl

-- The nine permission bits of the file at `path` are `want`.
abbrev pub HasBits : (fs : FileModes) → fs.State → Bytes → (ℕ → ℕ) → Type 0
HasBits fs s path want =
    (mode : ℕ) × (fs.stat s path ≡ some mode) × ((i : ℕ) → i < 9 → bit_at mode i ≡ want i)

all_octal-append :
    (who s : Bytes) (c : ℕ) → is_octal c ≡ false → all is_octal (who ++ c ∷ s) ≡ false
all_octal-append [] s c h = ground arith
all_octal-append (d ∷ who) s c h = ground (arith, all_octal-append who s c h)

module _ (fs : FileModes) where
  main-numeral :
      (s : fs.State) (input path : Bytes)
      → all is_octal input ≡ true
      → main fs (command input path) s ≡ (
          if ltb 0o7777 (octal_value input)
          then record { status = exit_failure; errors = invalid_numeric input ∷ []; state = s }
          else change_mode fs s path (octal_value input))
  unfolding main apply_numeric_mode is_numeric
  main-numeral s input path h = ground (arith, numeric_mode-octal_value input h)

  main-Changed :
      (s : fs.State) (path who perms : Bytes) (operation mode : ℕ)
      → is_operator operation ≡ true
      → fs.stat s path ≡ some mode
      → (c : Changed who operation perms mode)
      → main fs (command (who ++ operation ∷ perms) path) s ≡ change_mode fs s path c.after
  unfolding main apply_symbolic_mode is_numeric
  main-Changed s path who perms operation mode h e c =
      ground (arith, all_octal-append who perms operation, c.changed)

-- A numeral of octal digits above 07777 is refused, and nothing is changed.
main-octal_too_large :
    (fs : FileModes) (s : fs.State) (input path : Bytes)
    → all is_octal input ≡ true
    → 0o7777 < octal_value input
    → main fs (command input path) s
      ≡ record { status = exit_failure; errors = invalid_numeric input ∷ []; state = s }
main-octal_too_large fs s input path h lt =
    rw (main-numeral fs s input path h) (rw (lt→ltb _ _ lt) refl)

module _ (fs : FileModes) (lawful : IsLawful fs) where
  change_mode-HasBits :
      (s : fs.State) (path : Bytes) (mode : ℕ) (r : Option fs.State)
      → fs.chmod s path mode ≡ r
      → (change_mode fs s path mode).status ≡ exit_success
      → HasBits fs (change_mode fs s path mode).state path (bit_at mode)
  unfolding change_mode
  change_mode-HasBits s path mode none e h = absurd (ground arith)
  change_mode-HasBits s path mode (some t) e h =
      rw (e, change_mode) (lawful.stat-chmod s t path mode e)

  -- On a file system where chmod(2) does what it documents, a numeral of octal digits up to 07777
  -- becomes the permission bits of the file, if the run exits with 0; so does the empty string,
  -- whose value is 0.
  pub main-octal_value :
      (s : fs.State) (input path : Bytes)
      → all is_octal input ≡ true
      → octal_value input ≤ 0o7777
      → (main fs (command input path) s).status ≡ exit_success
      → HasBits fs (main fs (command input path) s).state path (bit_at (octal_value input))
  main-octal_value s input path h le ok =
      let small : ltb 0o7777 (octal_value input) ≡ false = ground arith in
      let run : main fs (command input path) s ≡ change_mode fs s path (octal_value input) =
        main-numeral fs s input path h ∙ rw small refl in
      rw run (change_mode-HasBits s path (octal_value input) _ refl (rw run at ok))

  -- On a file system where chmod(2) does what it documents, a specification of letters of `ugoa`,
  -- one operator and letters of `rwx`, for a file that `stat` finds, gives each of its permission
  -- bits as asked for, if the run exits with 0.
  pub main-mode :
      (s : fs.State) (path who perms : Bytes) (operation mode : ℕ)
      → all is_category who ≡ true
      → is_operator operation ≡ true
      → all is_permission perms ≡ true
      → fs.stat s path ≡ some mode
      → (main fs (command (who ++ operation ∷ perms) path) s).status ≡ exit_success
      → HasBits fs (main fs (command (who ++ operation ∷ perms) path) s).state path (λ i.
        wanted operation (selects who (i / 3)) (contains perms (letter_of i)) (bit_at mode i))
  main-mode s path who perms operation mode p h q e ok =
      let c = symbolic_change-mode who perms operation mode p h q in
      let run = main-Changed fs s path who perms operation mode h e c in
      let (m, found, bits) = change_mode-HasBits s path c.after _ refl (rw run at ok) in
      (m, rw run found, λ i lt. bits i lt ∙ c.permission i lt)
