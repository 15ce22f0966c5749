-- ===== src/Fork/Laws.antt =====
-- What the processes of lab3_fork/main.c print in the end.
use secured_operation_system.Base.{
  ℕ, suc, ◌<◌, ◌≡◌, ◌≢◌, refl, Bool, true, false, if◌then◌else◌, Option, none, some, List, [], ◌∷◌,
  ◌++◌, arith, Option-cases, inl, inr, if_cases,
}
use secured_operation_system.Fork.Status.{
  exits, killed_by, status_of, Report, terminated_normally, terminated_by_signal, report,
  report-status_of,
}
use secured_operation_system.Fork.Hierarchy.{
  Line, cleanup_performed, main_initialized, created_child, child_report, parent_complete,
  interrupt_failed, termination_failed, creation_failed, Calls, Fate, goes_on, interrupted,
  terminated, killed, Process, child_process, parent_process, Hierarchy, execute_process_hierarchy,
}

-- The calls that work, with a child of some number.
abbrev pub all_work : ℕ → Calls
all_work id = record {
  registers_cleanup = true;
  installs_interrupt = true;
  installs_termination = true;
  forks = some id;
  waits = true;
}

-- What the parent should print of the child.
abbrev pub told : Fate → Report
told goes_on = terminated_normally 42
told interrupted = terminated_normally 0
told terminated = terminated_normally 0
told (killed sig) = terminated_by_signal sig

abbrev IsSignal : Fate → Type 0
IsSignal (killed sig) = (0 < sig) × (sig < 127)
IsSignal goes_on = Unit
IsSignal interrupted = Unit
IsSignal terminated = Unit

child_process-told :
    (id pid : ℕ) (flushed : Bool) (inherited : List Line) (f : Fate)
    → IsSignal f
    → report (status_of (child_process id pid flushed inherited f).ending) ≡ told f
unfolding child_process
child_process-told id pid flushed inherited goes_on p = report-status_of (exits 42) tt
child_process-told id pid flushed inherited interrupted p = report-status_of (exits 0) tt
child_process-told id pid flushed inherited terminated p = report-status_of (exits 0) tt
child_process-told id pid flushed inherited (killed sig) p =
    report-status_of (killed_by sig false) p

-- With calls that work and a parent that no signal hits, whatever happens to the child the parent
-- waits for it, tells how it ended, an exit with 42, a handled signal as an exit with 0, or a signal
-- that killed it, goes on to its end, does its cleanup and exits with 0.
pub execute_process_hierarchy-told :
    (id pid ppid : ℕ) (flushed : Bool) (f : Fate)
    → IsSignal f
    → (execute_process_hierarchy (all_work id) flushed pid ppid f goes_on).parent ≡ record {
      printed =
          main_initialized pid ppid
          ∷ created_child id
          ∷ child_report (told f)
          ∷ parent_complete
          ∷ cleanup_performed pid
          ∷ [];
      ending = exits 0;
    }
unfolding execute_process_hierarchy parent_process
execute_process_hierarchy-told id pid ppid flushed f p =
    rw
      (child_process-told id pid flushed (if flushed then [] else main_initialized pid ppid ∷ []) f
        p)
      refl

-- A process that exits, and is not killed, ends with its cleanup.
abbrev CleansUp : ℕ → Process → Type 0
CleansUp pid p =
    (code : ℕ)
    → p.ending ≡ exits code
    → (lines : List Line) × (p.printed ≡ lines ++ cleanup_performed pid ∷ [])

-- A child is there only where `fork` gave one, and has its number.
abbrev ChildCleansUp : Option ℕ → Option Process → Type 0
ChildCleansUp forks none = Unit
ChildCleansUp forks (some p) = (id : ℕ) × (forks ≡ some id) × CleansUp id p

child_process-CleansUp :
    (id pid : ℕ) (flushed : Bool) (inherited : List Line) (f : Fate)
    → CleansUp id (child_process id pid flushed inherited f)
unfolding child_process
child_process-CleansUp id pid flushed inherited goes_on code e = (_, refl)
child_process-CleansUp id pid flushed inherited interrupted code e = (_, refl)
child_process-CleansUp id pid flushed inherited terminated code e = (_, refl)
child_process-CleansUp id pid flushed inherited (killed sig) code e = absurd (ground (arith, e))

parent_process-CleansUp :
    (pid : ℕ) (waits flushed : Bool) (lines : List Line) (status : ℕ) (f : Fate)
    → CleansUp pid (parent_process pid waits flushed lines status f)
unfolding parent_process
parent_process-CleansUp pid true flushed lines status goes_on code e = (_, refl)
parent_process-CleansUp pid false flushed lines status goes_on code e = (_, refl)
parent_process-CleansUp pid waits flushed lines status interrupted code e = (_, refl)
parent_process-CleansUp pid waits flushed lines status terminated code e = (_, refl)
parent_process-CleansUp pid waits flushed lines status (killed sig) code e =
    absurd (ground (arith, e))

abbrev AllCleanUp : ℕ → Option ℕ → Hierarchy → Type 0
AllCleanUp pid forks h = CleansUp pid h.parent × ChildCleansUp forks h.child

-- Once the cleanup is registered, every process that exits, the parent at any error and the child
-- too, prints its cleanup line last; a child is there only where `fork` gave one.
execute_process_hierarchy-CleansUp :
    (calls : Calls) (flushed : Bool) (pid ppid : ℕ) (child_fate parent_fate : Fate)
    → calls.registers_cleanup ≡ true
    → AllCleanUp pid calls.forks
        (execute_process_hierarchy calls flushed pid ppid child_fate parent_fate)
unfolding execute_process_hierarchy
execute_process_hierarchy-CleansUp calls flushed pid ppid child_fate parent_fate e = rw e (
    if_cases (AllCleanUp pid calls.forks) calls.installs_interrupt
      (λ _.
        if_cases (AllCleanUp pid calls.forks) calls.installs_termination
          (λ _. elim (Option-cases calls.forks) [
            | inl n ↦
                rw n ((λ code q. (main_initialized pid ppid ∷ creation_failed ∷ [], refl)), tt)
            | inr (id, j) ↦ rw j (
              parent_process-CleansUp pid calls.waits flushed
                  (main_initialized pid ppid ∷ created_child id ∷ []) _ parent_fate,
              (
                id,
                refl,
                child_process-CleansUp id pid flushed
                    (if flushed then [] else main_initialized pid ppid ∷ []) child_fate,
              ),
            )
          ])
          (λ _. ((λ code q. (termination_failed ∷ [], refl)), tt)))
      (λ _. ((λ code q. (interrupt_failed ∷ [], refl)), tt)))

-- How often the line of the start is in an output.
abbrev pub initial_lines : List Line → ℕ
initial_lines [] = 0
initial_lines (main_initialized pid ppid ∷ lines) = suc (initial_lines lines)
initial_lines (_ ∷ lines) = initial_lines lines

abbrev pub child_lines : Option Process → List Line
child_lines none = []
child_lines (some p) = p.printed

-- The output of both processes, the child's behind the parent's.
abbrev pub printed_by_all : Hierarchy → List Line
printed_by_all h = h.parent.printed ++ child_lines h.child

-- With calls that work, no signal that hits the parent and none that kills the child, the line of the start, which only the
-- main process prints, is in the output once where each line is written out at once, as on a
-- terminal, and twice otherwise, as in a file or a pipe, since the child inherits it in the buffer of
-- `stdout`.
pub execute_process_hierarchy-inherited :
    (id pid ppid : ℕ) (flushed : Bool) (f : Fate)
    → ((sig : ℕ) → f ≢ killed sig)
    → initial_lines
        (printed_by_all (execute_process_hierarchy (all_work id) flushed pid ppid f goes_on))
      ≡ (if flushed then 1 else 2)
unfolding execute_process_hierarchy parent_process child_process
execute_process_hierarchy-inherited id pid ppid true goes_on h = refl
execute_process_hierarchy-inherited id pid ppid true interrupted h = refl
execute_process_hierarchy-inherited id pid ppid true terminated h = refl
execute_process_hierarchy-inherited id pid ppid false goes_on h = refl
execute_process_hierarchy-inherited id pid ppid false interrupted h = refl
execute_process_hierarchy-inherited id pid ppid false terminated h = refl
execute_process_hierarchy-inherited id pid ppid flushed (killed sig) h = absurd (h sig refl)
