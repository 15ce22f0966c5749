-- ===== src/Pipes/Tests.antt =====
-- The theorems on lab6_pipefifo at concrete inputs.
use secured_operation_system.Base.{◌≡◌, refl, true, false, some, [], ◌∷◌, Bytes, bytes, arith}
use secured_operation_system.Base.Numerals.{numeral}
use secured_operation_system.Pipes.Message.{parent_text}
use secured_operation_system.Pipes.Pipe.{pipe_main}
use secured_operation_system.Pipes.Pipe as Pipe
use secured_operation_system.Pipes.PipeLaws.{pipe_main-delivers}
use secured_operation_system.Pipes.Fifo.{Calls, fifo_main}
use secured_operation_system.Pipes.FifoLaws.{fifo_main-exists}

abbrev noon : Bytes
noon = bytes "Wed May 01 12:00:05 2024"

abbrev before_noon : Bytes
before_noon = bytes "Wed May 01 12:00:00 2024"

abbrev pipe_works : Pipe.Calls
pipe_works = record { pipes = true; forks = true; writes = some 60; reads = true }

pipe_main-delivers_example : pipe_main pipe_works before_noon noon 7 ≡ record {
  parent_lines = [];
  parent_status = 0;
  child_lines = Pipe.child_time before_noon ∷ Pipe.received_from_parent (parent_text noon 7) ∷ [];
  child_status = 0;
}
pipe_main-delivers_example =
    pipe_main-delivers pipe_works before_noon noon 7 60 (omega arith) (omega arith) refl refl refl
      (unfold parent_text numeral in omega arith) refl

abbrev all_work : Calls
all_work = record {
  has_name = true;
  makes = true;
  forks = true;
  child_opens = true;
  reads = true;
  child_closes = true;
  parent_opens = true;
  writes = some 60;
  parent_closes = true;
  comes_late = false;
  read_first = true;
  child_unlinks = true;
  parent_unlinks = true;
}

fifo_main-exists_example :
    (fifo_main (record all_work { reads = false }) false before_noon noon 7).exists ≡ false
fifo_main-exists_example =
    fifo_main-exists (record all_work { reads = false }) false before_noon noon 7 refl refl

abbrev child_fails : Calls
child_fails = record all_work { child_opens = false }
