-- ===== src/Shmem/Tests.antt =====
-- The theorems on lab7_shmem at concrete inputs.
use secured_operation_system.Base.{
  ◌≡◌, refl, true, false, some, Bytes, bytes, replicate, ◌==◌, arith,
}
use secured_operation_system.Base.Numerals.{numeral}
use secured_operation_system.Shmem.Transfer.{
  transfer_data, copied, bufsize, receive, cleared, got_data, no_data, sender_text,
  receive-transfer_data,
}
use secured_operation_system.Shmem.Startup.Laws.{start_for-left_behind}
use secured_operation_system.Shmem.Startup.{
  sigint, World, Calls, already_running, started, start, start_for, start_step, signalled,
}

abbrev noon : Bytes
noon = bytes "2024-05-01 12:00:00"

receive-transfer_data_example :
    (receive (copied bufsize (transfer_data 9 noon 77 (replicate 207 9)).data_string cleared)
      ≡ got_data (sender_text noon 77))
    × (receive cleared ≡ no_data)
receive-transfer_data_example =
    receive-transfer_data 9 noon 77 (replicate 207 9) cleared (omega arith) (omega arith)
      (unfold sender_text numeral in refl) refl

abbrev nothing : World
nothing = record { info_file = false; segments = λ id. id == 0 }

abbrev all_work : Calls
all_work = record { opens = true; keys = true; gets = some 5; attaches = true }

-- A SIGINT between the two calls of `signal`.
start_for-left_behind_example :
    (start all_work (signalled sigint (start_for 5 all_work (started nothing))).world).place
    ≡ already_running
start_for-left_behind_example =
    start_for-left_behind sigint 5 all_work all_work nothing (unfold start_for start_step in refl)
      (unfold start_for start_step in refl)
