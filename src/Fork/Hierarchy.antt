-- ===== src/Fork/Hierarchy.antt =====
-- `execute_process_hierarchy` of lab3_fork/main.c, with its handlers, as what each process prints
-- and the code that it exits with.
use secured_operation_system.Base.{
  ℕ, Bool, false, if◌then◌else◌, Option, none, some, List, [], ◌∷◌, ◌++◌,
}
use secured_operation_system.Fork.Status.{Ending, exits, killed_by, status_of, Report, report}

-- The numbers in the lines are those of the process, of its parent or its child, and of a signal.
pub data Line : Type 0 where
  cleanup_performed : ℕ → Line
  signal_received : ℕ → ℕ → Line
  termination_received : ℕ → ℕ → Line
  main_initialized : ℕ → ℕ → Line
  child_active : ℕ → ℕ → Line
  child_complete : Line
  created_child : ℕ → Line
  child_report : Report → Line
  parent_complete : Line
  monitoring_failed : Line
  registration_error : Line
  interrupt_failed : Line
  termination_failed : Line
  creation_failed : Line

-- The results of the calls; `fork` gives the parent the child's number.
pub record Calls : Type 0 where
  pub registers_cleanup : Bool
  pub installs_interrupt : Bool
  pub installs_termination : Bool
  pub forks : Option ℕ
  pub waits : Bool

-- What happens to a process while it sleeps or waits: nothing, SIGINT, SIGTERM, or a signal that
-- kills it.
pub data Fate : Type 0 where
  goes_on interrupted terminated : Fate
  killed : ℕ → Fate

-- What a process has printed, in order, and how it ended.
pub record Process : Type 0 where
  pub printed : List Line
  pub ending : Ending

-- SUCCESS_TERMINATION, FAILURE_TERMINATION, SIGNAL_INTERRUPT and SIGNAL_TERMINATE
abbrev success_termination : ℕ
success_termination = 0

abbrev failure_termination : ℕ
failure_termination = 1

abbrev signal_interrupt : ℕ
signal_interrupt = 2

abbrev signal_terminate : ℕ
signal_terminate = 15

-- `exit`, where `cleanup_routine` has been registered.
abbrev exit_with : ℕ → List Line → ℕ → Process
exit_with pid lines code = record {
  printed = lines ++ cleanup_performed pid ∷ [];
  ending = exits code;
}

-- The two handlers, in a process that has printed some lines.
abbrev handle_interrupt_signal : ℕ → List Line → Process
handle_interrupt_signal pid lines =
    exit_with pid (lines ++ signal_received pid signal_interrupt ∷ []) success_termination

abbrev handle_termination_signal : ℕ → List Line → Process
handle_termination_signal pid lines =
    exit_with pid (lines ++ termination_received pid signal_terminate ∷ []) success_termination

-- The child, with the lines that it has inherited in the buffer of `stdout`. A killed process loses
-- what is in that buffer; `flushed` says whether a line is written out at once.
unfoldable pub child_process : ℕ → ℕ → Bool → List Line → Fate → Process
child_process pid ppid flushed inherited goes_on =
    exit_with pid (inherited ++ child_active pid ppid ∷ child_complete ∷ []) 42
child_process pid ppid flushed inherited interrupted =
    handle_interrupt_signal pid (inherited ++ child_active pid ppid ∷ [])
child_process pid ppid flushed inherited terminated =
    handle_termination_signal pid (inherited ++ child_active pid ppid ∷ [])
child_process pid ppid flushed inherited (killed sig) = record {
  printed = if flushed then inherited ++ child_active pid ppid ∷ [] else [];
  ending = killed_by sig false;
}

-- `monitor_child_process` and what follows it, in a parent that has printed some lines, where `wait`
-- gives the status of the child.
unfoldable pub parent_process : ℕ → Bool → Bool → List Line → ℕ → Fate → Process
parent_process pid waits flushed lines status goes_on =
    if waits
    then exit_with pid (lines ++ child_report (report status) ∷ parent_complete ∷ [])
        success_termination
    else exit_with pid (lines ++ monitoring_failed ∷ []) failure_termination
parent_process pid waits flushed lines status interrupted = handle_interrupt_signal pid lines
parent_process pid waits flushed lines status terminated = handle_termination_signal pid lines
parent_process pid waits flushed lines status (killed sig) = record {
  printed = if flushed then lines else [];
  ending = killed_by sig false;
}

-- The processes of a run.
pub record Hierarchy : Type 0 where
  pub parent : Process
  pub child : Option Process

abbrev pub alone : Process → Hierarchy
alone p = record { parent = p; child = none }

-- `execute_process_hierarchy`. With a `stdout` that is not written out at each line, as in a file or a
-- pipe, the child inherits the line before the `fork`.
unfoldable pub execute_process_hierarchy : Calls → Bool → ℕ → ℕ → Fate → Fate → Hierarchy
unfolding child_process parent_process
execute_process_hierarchy calls flushed pid ppid child_fate parent_fate =
    if calls.registers_cleanup
    then if calls.installs_interrupt
      then if calls.installs_termination
        then elim calls.forks [
          | none ↦
              alone (
                exit_with pid (main_initialized pid ppid ∷ creation_failed ∷ [])
                  failure_termination)
          | some id ↦
              let inherited = if flushed then [] else main_initialized pid ppid ∷ [] in
              let child = child_process id pid flushed inherited child_fate in
              record {
                parent =
                    parent_process pid calls.waits flushed
                      (main_initialized pid ppid ∷ created_child id ∷ []) (status_of child.ending)
                      parent_fate;
                child = some child;
              }
        ]
        else alone (exit_with pid (termination_failed ∷ []) failure_termination)
      else alone (exit_with pid (interrupt_failed ∷ []) failure_termination)
    else alone (record { printed = registration_error ∷ []; ending = exits failure_termination })
