-- ===== src/Pipes/Fifo.antt =====
-- `main` of lab6_pipefifo/fifo.c.
use secured_operation_system.Base.{
  ℕ, Bool, true, false, not, ◌&&◌, ◌||◌, Option, none, some, List, [], ◌∷◌, ◌++◌, Bytes, length,
  ◌==◌, if◌then◌else◌,
}
use secured_operation_system.Pipes.Message.{sent_text, received_text}
use secured_operation_system.Pipes.Pipe.{in_pipe}

pub data Line : Type 0 where
  usage file_exists mkfifo_failed fork_failed : Line
  open_reading_failed open_writing_failed : Line
  child_time : Bytes → Line
  received_from_parent : Bytes → Line
  read_failed write_failed close_failed unlink_failed : Line

-- The results of the calls; an `open` and an `unlink` fail also where the FIFO is not there. Where
-- one of the two calls of `open` fails, `comes_late` says whether the other process comes to its own
-- after the `unlink` of the first; where the child's `read` fails, `read_first` says whether that is
-- before the parent's `write`.
pub record Calls : Type 0 where
  pub has_name : Bool
  pub makes : Bool
  pub forks : Bool
  pub child_opens : Bool
  pub reads : Bool
  pub child_closes : Bool
  pub parent_opens : Bool
  pub writes : Option ℕ
  pub parent_closes : Bool
  pub comes_late : Bool
  pub read_first : Bool
  pub child_unlinks : Bool
  pub parent_unlinks : Bool

-- How a process ends: with a status, waiting for ever in `open` for the other end, or killed by
-- SIGPIPE.
pub data End : Type 0 where
  returns : ℕ → End
  blocked : End
  killed : End

-- What a process prints, whether it calls `unlink` on the FIFO, and how it ends.
pub record Process : Type 0 where
  pub lines : List Line
  pub unlinks : Bool
  pub end : End

-- The processes of a run, and whether the file is there at its end.
pub record Run : Type 0 where
  pub parent : Process
  pub child : Option Process
  pub exists : Bool

-- `perror`, `unlink` and a return of 1; and the same without the `unlink`.
abbrev pub removes_and_fails : Line → Process
removes_and_fails line = record { lines = line ∷ []; unlinks = true; end = returns 1 }

abbrev pub fails : Line → Process
fails line = record { lines = line ∷ []; unlinks = false; end = returns 1 }

-- A run of the first process alone, on a file that is there or not.
abbrev pub alone : Calls → Process → Bool → Run
alone calls p exists = record {
  parent = p;
  child = none;
  exists = exists && not (p.unlinks && calls.parent_unlinks);
}

-- A run of both processes on the FIFO, which is gone where one has removed it.
abbrev pub both : Calls → Process → Process → Run
both calls p c = record {
  parent = p;
  child = some c;
  exists = not (p.unlinks && calls.parent_unlinks || c.unlinks && calls.child_unlinks);
}

-- A process whose `open` waits for the other end for ever.
abbrev pub waits : Process
waits = record { lines = []; unlinks = false; end = blocked }

-- A process whose `open` could work, where the other one's has failed: it finds no file if it comes
-- after an `unlink` that worked, and waits for the other end if not.
abbrev pub other_opens : Bool → Bool → Line → Process
other_opens late removed line = if late && removed then removes_and_fails line else waits

-- The parent behind a `write` that worked: it closes, waits for the child, and removes the FIFO,
-- unless `unlink` fails, as it does where the child has removed it already.
abbrev parent_finishes : Calls → Bool → Process
parent_finishes calls child_removed =
    if calls.parent_closes
    then if child_removed || not calls.parent_unlinks
      then removes_and_fails unlink_failed
      else record { lines = []; unlinks = true; end = returns 0 }
    else removes_and_fails close_failed

abbrev pub parent_writes : Calls → Bool → Process
parent_writes calls child_removed = elim calls.writes [
  | none ↦ removes_and_fails write_failed
  | some n ↦ parent_finishes calls child_removed
]

-- The parent where the child's `read` has failed: a `write` behind that finds no reader.
abbrev pub parent_unread : Calls → Process
parent_unread calls =
    if calls.read_first
    then record { lines = []; unlinks = false; end = killed }
    else parent_writes calls calls.child_unlinks

-- The child behind a `read` that gave `content`.
abbrev child_finishes : Bool → Bytes → Bytes → Process
child_finishes closes child_str content =
    let got =
      if length content == 0 then [] else received_from_parent (received_text content) ∷ [] in
    if closes
    then record { lines = child_time child_str ∷ got; unlinks = false; end = returns 0 }
    else record {
      lines = child_time child_str ∷ got ++ close_failed ∷ [];
      unlinks = true;
      end = returns 1;
    }

-- The two processes when both have opened the FIFO.
abbrev pub both_open : Calls → Bytes → Bytes → ℕ → Run
both_open calls child_str time_str pid =
    if calls.reads
    then both calls (parent_writes calls (not calls.child_closes && calls.child_unlinks)) (
        child_finishes calls.child_closes child_str (in_pipe calls.writes (sent_text time_str pid)))
    else both calls (parent_unread calls) (record {
      lines = child_time child_str ∷ read_failed ∷ [];
      unlinks = true;
      end = returns 1;
    })

-- The two processes at their calls of `open`.
abbrev pub both_start : Calls → Bytes → Bytes → ℕ → Run
both_start calls child_str time_str pid =
    if calls.child_opens
    then if calls.parent_opens
      then both_open calls child_str time_str pid
      else both calls (removes_and_fails open_writing_failed)
          (other_opens calls.comes_late calls.parent_unlinks open_reading_failed)
    else if calls.parent_opens
    then both calls (other_opens calls.comes_late calls.child_unlinks open_writing_failed)
        (removes_and_fails open_reading_failed)
    else both calls (removes_and_fails open_writing_failed) (removes_and_fails open_reading_failed)

-- `main`, where `exists` says whether there is a file of the name before.
unfoldable pub fifo_main : Calls → Bool → Bytes → Bytes → ℕ → Run
fifo_main calls exists child_str time_str pid =
    if calls.has_name
    then if exists
      then alone calls (fails file_exists) true
      else if calls.makes
      then if calls.forks
        then both_start calls child_str time_str pid
        else alone calls (removes_and_fails fork_failed) true
      else alone calls (fails mkfifo_failed) false
    else alone calls (fails usage) exists
