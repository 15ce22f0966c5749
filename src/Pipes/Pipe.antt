-- ===== src/Pipes/Pipe.antt =====
-- `main` of lab6_pipefifo/pipe.c.
use secured_operation_system.Base.{
  ℕ, Bool, true, false, Option, none, some, List, [], ◌∷◌, Bytes, take, length, ◌==◌, if◌then◌else◌,
}
use secured_operation_system.Pipes.Message.{sent_text, received_text}

pub data Line : Type 0 where
  pipe_failed : Line
  fork_failed : Line
  child_time : Bytes → Line
  received_from_parent : Bytes → Line
  read_failed : Line

-- The results of the calls; `write` gives how many bytes it has written, or fails.
pub record Calls : Type 0 where
  pub pipes : Bool
  pub forks : Bool
  pub writes : Option ℕ
  pub reads : Bool

-- What the first process and its child print and return.
pub record Run : Type 0 where
  pub parent_lines : List Line
  pub parent_status : ℕ
  pub child_lines : List Line
  pub child_status : ℕ

-- The bytes in the pipe when the parent has closed it; the result of `write` is not looked at.
abbrev pub in_pipe : Option ℕ → Bytes → Bytes
in_pipe none text = []
in_pipe (some n) text = take n text

-- The child's `read` waits for bytes or for the end of the pipe.
abbrev child_reads : Bool → Bytes → List Line
child_reads true content =
    if length content == 0 then [] else received_from_parent (received_text content) ∷ []
child_reads false content = read_failed ∷ []

unfoldable pub pipe_main : Calls → Bytes → Bytes → ℕ → Run
pipe_main calls child_str time_str pid =
    if calls.pipes
    then if calls.forks
      then record {
        parent_lines = [];
        parent_status = 0;
        child_lines =
            child_time child_str
            ∷ child_reads calls.reads (in_pipe calls.writes (sent_text time_str pid));
        child_status = 0;
      }
      else record {
        parent_lines = fork_failed ∷ [];
        parent_status = 1;
        child_lines = [];
        child_status = 0;
      }
    else record {
      parent_lines = pipe_failed ∷ [];
      parent_status = 1;
      child_lines = [];
      child_status = 0;
    }
