-- ===== src/Chmod/Main.antt =====
-- `main` of lab4_chmod/mychmod.c.
pub mod Laws
use secured_operation_system.Base.{ℕ, Bool, List, [], ◌∷◌, Bytes, all, if◌then◌else◌}
use secured_operation_system.Chmod.Os.{FileModes, Outcome, usage, exit_failure}
use secured_operation_system.Chmod.Numeric.{is_octal, apply_numeric_mode}
use secured_operation_system.Chmod.Symbolic.{apply_symbolic_mode}

-- The loop that looks for a character outside '0' to '7'.
unfoldable pub is_numeric : Bytes → Bool
is_numeric mode_string = all is_octal mode_string

module _ (fs : FileModes) where
  -- `argv`, the program's name first.
  unfoldable pub main : List Bytes → fs.State → Outcome fs.State
  main (program ∷ mode_string ∷ target_file ∷ []) s =
      if is_numeric mode_string
      then apply_numeric_mode fs mode_string target_file s
      else apply_symbolic_mode fs mode_string target_file s
  main argv s = record { status = exit_failure; errors = usage ∷ []; state = s }
