-- ===== src/Chmod/Os.antt =====
-- What lab4_chmod/mychmod.c uses of the system, and what a run of the program leaves behind.
use secured_operation_system.Base.{ℕ, ◌^◌, ◌<◌, ◌≡◌, List, Option, some, Bytes}
use secured_operation_system.Base.Bits.{bit_at}

-- `stat` gives `st_mode`, and `chmod` a new state of the file system; `none` is the -1 of both.
pub record FileModes : Type 1 where
  pub State : Type 0
  pub stat : State → Bytes → Option ℕ
  pub chmod : State → Bytes → ℕ → Option State

-- chmod(2): the nine permission bits of the file become those of the argument.
pub record IsLawful (fs : FileModes) : Type 0 where
  pub stat_width :
      (s : fs.State) (path : Bytes) {mode : ℕ} → fs.stat s path ≡ some mode → mode < 2 ^ 32
  pub stat-chmod :
      (s t : fs.State) (path : Bytes) (mode : ℕ)
      → fs.chmod s path mode ≡ some t
      → (after : ℕ) × (fs.stat t path ≡ some after)
        × ((i : ℕ) → i < 9 → bit_at after i ≡ bit_at mode i)

-- The lines that the program writes to `stderr`, by the format string that prints them.
pub data Message : Type 0 where
  usage : Message
  invalid_numeric : Bytes → Message
  invalid_operator : Bytes → Message
  invalid_permission : ℕ → Bytes → Message
  system_error : Bytes → Message

abbrev pub exit_success : ℕ
exit_success = 0

abbrev pub exit_failure : ℕ
exit_failure = 1

pub record Outcome (State : Type 0) : Type 0 where
  pub status : ℕ
  pub errors : List Message
  pub state : State
