-- ===== src/Archive/Main.antt =====
-- `main` of lab5_archive/main.c.
use secured_operation_system.Base.{
  ℕ, ◌||◌, Option, some, List, [], ◌∷◌, Bytes, bytes, str_eq, if◌then◌else◌,
}
use secured_operation_system.Archive.Io.{Io}
use secured_operation_system.Archive.Record.{Layout}
use secured_operation_system.Archive.Disk.{Disk, Env, Outcome, report, help}
use secured_operation_system.Archive.Add.{add_file_to_archive}
use secured_operation_system.Archive.Extract.{extract_and_remove_file}
use secured_operation_system.Archive.Display.{Listing, display_archive_contents}

-- The first result of `getopt_long` from index 2, with its argument.
pub data Choice : Type 0 where
  input : Bytes → Choice
  extract : Bytes → Choice
  stat : Choice
  show_help : Choice
  other : Choice

-- What the run did: the new file system with what was printed, or a listing; `none` where a walk
-- through the archive has not ended.
pub data Ran : Type 0 where
  changed : Option Outcome → Ran
  listed : Option Listing → Ran

module _ (layout : Layout) (env : Env) (getopt_long : List Bytes → Choice) (fuel : ℕ) where
  show_help_info : Disk → Ran
  show_help_info d = changed (some (report d help))

  -- The `switch`, and the exit status.
  run_choice : Disk → Bytes → List Io → Choice → ℕ × Ran
  unfolding show_help_info
  run_choice d archive io (input file) =
      (0, changed (some (add_file_to_archive layout env d archive file io)))
  run_choice d archive io (extract file) =
      (0, changed (extract_and_remove_file layout env fuel d archive file io))
  run_choice d archive io stat = (0, listed (display_archive_contents layout env fuel d archive io))
  run_choice d archive io show_help = (0, show_help_info d)
  run_choice d archive io other = (1, show_help_info d)

  -- `argv` with the name of the program first.
  unfoldable pub main : List Bytes → Disk → List Io → ℕ × Ran
  unfolding run_choice
  main (program ∷ first ∷ more) d io =
      if str_eq first (bytes "--help") || str_eq first (bytes "-h")
      then (0, show_help_info d)
      else elim more [
        | [] ↦ (1, show_help_info d)
        | m ∷ ms ↦ run_choice d first io (getopt_long (program ∷ first ∷ m ∷ ms))
      ]
  main argv d io = (1, show_help_info d)
