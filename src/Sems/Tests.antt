-- ===== src/Sems/Tests.antt =====
-- The theorems on lab9_sems at concrete schedules.
use secured_operation_system.Base.{
  ℕ, true, false, none, zero, suc, ◌≡◌, refl, List, [], ◌∷◌, ◌++◌, bytes, some,
}
use secured_operation_system.Base.Numerals.{numeral, two_digits}
use secured_operation_system.Threads.Owner.{Thread, writer, reader}
use secured_operation_system.Sems.Exchange.{
  initial, step, run, sender_step, receiver_step, sent, received,
}
use secured_operation_system.Sems.Invariant.{Ordered}
use secured_operation_system.Sems.Process.{Clock, clock_text, message, messages, exchanged-Ordered}
use secured_operation_system.Sems.Startup.Laws.{start-on_signal, start-left_behind}
use secured_operation_system.Sems.Startup.{
  World, Calls, Owner, nobody, same_user, running, already_running, error_in, semget, ftok, start,
  start_for, start_step, signalled, receiver_start,
}
use secured_operation_system.Sems.ThreadPair.{
  thread_format, thread_message, thread_messages, threads-Ordered,
}

abbrev noon : ℕ → Clock
noon n = record { hour = 12; minute = 0; second = n }

abbrev times : ℕ → Thread → List Thread
times zero t = []
times (suc n) t = t ∷ times n t

-- The reader runs between the bytes of the writer.
abbrev between : ℕ → List Thread
between zero = []
between (suc n) = writer ∷ reader 1 ∷ between n

thread_messages_lem :
    (run
      (thread_messages noon)
      (between 35 ++ times 30 (reader 1))
      (initial (thread_messages noon))).printed
    ≡ received 1 (bytes "Message #1 at 12:00:01") ∷ sent 1 (bytes "Message #1 at 12:00:01") ∷ []
unfolding run step sender_step receiver_step thread_format clock_text numeral two_digits
thread_messages_lem = refl

exchanged-Ordered_example :
    Ordered
      (message noon 77)
      (run (messages noon 77) (between 9) (initial (messages noon 77))).message_counter
      (run (messages noon 77) (between 9) (initial (messages noon 77))).printed
exchanged-Ordered_example = exchanged-Ordered noon 77 (between 9)

threads-Ordered_example :
    Ordered
      (thread_message noon)
      (run
        (thread_messages noon)
        (between 35 ++ times 30 (reader 1))
        (initial (thread_messages noon))).message_counter
      (run
        (thread_messages noon)
        (between 35 ++ times 30 (reader 1))
        (initial (thread_messages noon))).printed
threads-Ordered_example = threads-Ordered noon (between 35 ++ times 30 (reader 1))

-- Another program of the user has made the first object.
abbrev others : ℕ → Owner
others zero = same_user
others (suc id) = nobody

abbrev nothing : World
nothing = record { key_file = false; segments = others; semaphores = others }

abbrev all_work : Calls
all_work = record {
  opens = true;
  installs = true;
  keys = true;
  gets = some 5;
  attaches = true;
  creates = some 7;
  sets = true;
}

start-on_signal_example :
    ((start all_work nothing).place ≡ running)
    × (receiver_start all_work (start all_work nothing).world ≡ running)
    × ((signalled (start all_work nothing)).world ≡ nothing)
    × (receiver_start all_work (signalled (start all_work nothing)).world ≡ error_in ftok)
start-on_signal_example =
    start-on_signal all_work nothing 5 7 refl refl refl refl refl refl refl refl refl refl

abbrev no_semaphore : Calls
no_semaphore = record all_work { creates = none }

start-left_behind_example :
    ((start no_semaphore nothing).world.key_file ≡ true)
    × ((start all_work (start no_semaphore nothing).world).place ≡ already_running)
start-left_behind_example =
    start-left_behind no_semaphore all_work nothing semget (unfold start_for start_step in refl)
