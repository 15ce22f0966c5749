-- ===== src/Fork/Status.antt =====
-- The status that `wait` gives, and how `monitor_child_process` of lab3_fork/main.c reads it.
use secured_operation_system.Base.{
  ℕ, ◌+◌, ◌*◌, ◌/◌, ◌%◌, ◌<◌, ◌≡◌, refl, Bool, true, false, ◌&&◌, ltb, ◌==◌, if◌then◌else◌, to_int,
  arith,
}

-- How a child can end, or be stopped or continued, as waitpid(2) tells it.
pub data Ending : Type 0 where
  exits : ℕ → Ending
  killed_by : ℕ → Bool → Ending
  stopped_by : ℕ → Ending
  continued : Ending

-- The status of Linux: the low seven bits are the signal, 127 for a stop, the eighth tells of a core
-- dump, and the next eight are the exit code or the signal of the stop.
abbrev pub status_of : Ending → ℕ
status_of (exits code) = code % 256 * 256
status_of (killed_by sig core) = sig + 128 * to_int core
status_of (stopped_by sig) = sig * 256 + 127
status_of continued = 65535

-- The macros of <sys/wait.h>. WIFSIGNALED adds 1 to the low seven bits in a `signed char`, so that
-- 127 becomes negative.
abbrev wifexited : ℕ → Bool
wifexited s = s % 128 == 0

abbrev wexitstatus : ℕ → ℕ
wexitstatus s = s / 256 % 256

abbrev wifsignaled : ℕ → Bool
wifsignaled s = ltb 0 (s % 128) && ltb (s % 128) 127

abbrev wtermsig : ℕ → ℕ
wtermsig s = s % 128

abbrev wifstopped : ℕ → Bool
wifstopped s = s % 256 == 127

-- What the parent prints of the child.
pub data Report : Type 0 where
  terminated_normally : ℕ → Report
  terminated_by_signal : ℕ → Report
  stopped_by_signal : ℕ → Report
  undetermined : Report

-- The tests of `monitor_child_process` on the status.
pub report : ℕ → Report
report s =
    if wifexited s
    then terminated_normally (wexitstatus s)
    else if wifsignaled s
    then terminated_by_signal (wtermsig s)
    else if wifstopped s
    then stopped_by_signal (wexitstatus s)
    else undetermined

-- What the parent should print.
abbrev pub described : Ending → Report
described (exits code) = terminated_normally (code % 256)
described (killed_by sig core) = terminated_by_signal sig
described (stopped_by sig) = stopped_by_signal sig
described continued = undetermined

-- Signals have the numbers 1 to 126.
abbrev IsPossible : Ending → Type 0
IsPossible (exits code) = Unit
IsPossible (killed_by sig core) = (0 < sig) × (sig < 127)
IsPossible (stopped_by sig) = (0 < sig) × (sig < 127)
IsPossible continued = Unit

-- The parent tells of every way in which a child can end what it was: the exit code modulo 256, the
-- signal that killed it, with or without a core dump, or the signal that stopped it.
pub report-status_of : (e : Ending) → IsPossible e → report (status_of e) ≡ described e
unfolding report
report-status_of (exits code) p = ground arith
report-status_of (killed_by sig true) (pos, lt) = ground arith
report-status_of (killed_by sig false) (pos, lt) = ground arith
report-status_of (stopped_by sig) (pos, lt) = ground arith
report-status_of continued p = refl
