-- ===== src/Pipes/PipeLaws.antt =====
-- What lab6_pipefifo/pipe.c guarantees.
use secured_operation_system.Base.{
  ℕ, ◌≤◌, ◌≡◌, refl, ap, ◌∙◌, true, false, some, [], ◌∷◌, Bytes, length, take_all, ◌==◌, arith,
}
use secured_operation_system.Base.Numerals.{IsText}
use secured_operation_system.Pipes.Message.{
  parent_text, sent_text, received_text, parent_text_pos, received_text-sent_text,
}
use secured_operation_system.Pipes.Pipe.{
  in_pipe, Calls, child_time, received_from_parent, pipe_main,
}

-- The child that reads what was written in full prints the text.
pub child_reads-sent :
    (time_str : Bytes) (pid n : ℕ)
    → IsText time_str
    → length time_str ≤ 63
    → length (sent_text time_str pid) ≤ n
    → (received_text (in_pipe (some n) (sent_text time_str pid)) ≡ parent_text time_str pid)
      × (length (in_pipe (some n) (sent_text time_str pid)) == 0 ≡ false)
child_reads-sent time_str pid n h fits all =
    let whole : in_pipe (some n) (sent_text time_str pid) ≡ sent_text time_str pid =
      take_all n (sent_text time_str pid) all in
    (
      ap received_text whole ∙ received_text-sent_text time_str pid h fits,
      rw whole (ground (arith, parent_text_pos time_str pid)),
    )

-- Where the calls work and `write` takes the whole text, the child prints its own time and the text
-- of the parent, in full and unchanged, with any time of up to 63 bytes, and both return 0.
pub pipe_main-delivers :
    (calls : Calls) (child_str time_str : Bytes) (pid n : ℕ)
    → IsText time_str
    → length time_str ≤ 63
    → calls.pipes ≡ true
    → calls.forks ≡ true
    → calls.writes ≡ some n
    → length (sent_text time_str pid) ≤ n
    → calls.reads ≡ true
    → pipe_main calls child_str time_str pid ≡ record {
      parent_lines = [];
      parent_status = 0;
      child_lines = child_time child_str ∷ received_from_parent (parent_text time_str pid) ∷ [];
      child_status = 0;
    }
unfolding pipe_main
pipe_main-delivers calls child_str time_str pid n h fits e0 e1 e2 all e3 =
    let (text, some_bytes) = child_reads-sent time_str pid n h fits all in
    rw e0 (rw e1 (rw e2 (rw e3 (rw some_bytes (rw text refl)))))
