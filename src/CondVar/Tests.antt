-- ===== src/CondVar/Tests.antt =====
-- The theorems on lab11_condvar/condvar.c at concrete schedules.
use secured_operation_system.Base.{
  ℕ, zero, suc, ◌<◌, ◌≤◌, ◌≡◌, refl, true, List, [], ◌∷◌, ◌++◌, arith, some, bytes,
}
use secured_operation_system.Threads.Owner.{Thread}
use secured_operation_system.Threads.Letters.{array_size, num_readers}
use secured_operation_system.Threads.Launch.{Calls}
use secured_operation_system.CondVar.System.{
  Event, writer_runs, reader_runs, run, step, reader_finished, sleeping,
}
use secured_operation_system.CondVar.Invariant.{Rising}
use secured_operation_system.CondVar.Schedules.{reached, shows, reached-Rising}
use secured_operation_system.CondVar.Main.{
  main, main-letters, creating, waiting_for_threads, final_array, finished,
}
use secured_operation_system.CondVar.Progress.{CanStep, reached-CanStep}

abbrev times : ℕ → Event → List Event
times zero e = []
times (suc n) e = e ∷ times n e

-- Two readers fall asleep, the writer puts a letter and wakes the second, which prints it.
abbrev mixed : List Event
mixed =
    times 3 (reader_runs 1)
    ++ times 3 (reader_runs 2)
    ++ times 7 (writer_runs 2)
    ++ times 5 (reader_runs 2)

-- The first reader falls asleep, the writer comes to its end and wakes it, and then the readers end.
abbrev complete : List Event
complete =
    times 3 (reader_runs 1)
    ++ times 67 (writer_runs 0)
    ++ times 5 (reader_runs 1)
    ++ times 6 (reader_runs 2)
    ++ times 6 (reader_runs 3)
    ++ times 6 (reader_runs 4)
    ++ times 6 (reader_runs 5)
    ++ times 6 (reader_runs 6)
    ++ times 6 (reader_runs 7)
    ++ times 6 (reader_runs 8)
    ++ times 6 (reader_runs 9)
    ++ times 6 (reader_runs 10)

-- The reader that the signal did not wake still sleeps, and the other has shown the letter.
mixed_lem : ((reached mixed).reader_at 1 ≡ sleeping) × (shows (reached mixed).printed ≡ 1)
unfolding run step
mixed_lem = (refl, refl)

reached-Rising_example :
    Rising (reached mixed).write_counter (reached mixed).printed
    × (shows (reached mixed).printed ≤ (reached mixed).write_counter)
    × (shows (reached mixed).printed ≤ array_size)
reached-Rising_example = reached-Rising mixed

reached-CanStep_example : (t : Thread) × CanStep t (reached mixed)
reached-CanStep_example = reached-CanStep mixed 1 refl (λ e. unfold run step in ground (arith, e))

abbrev all_work : Calls
all_work = record {
  creates_writer = true;
  creates_reader = λ i. true;
  joins_writer = true;
  joins_reader = λ i. true;
}

complete-ended :
    (id : ℕ) → 0 < id → id ≤ num_readers → (reached complete).reader_at id ≡ reader_finished
unfolding run step
complete-ended id pos le = ground arith

main-letters_example :
    main all_work complete
    ≡ some (record {
      messages =
          creating
          ∷ waiting_for_threads
          ∷ final_array (bytes "A B C D E F G H I J")
          ∷ finished
          ∷ [];
      status = 0;
    })
main-letters_example =
    main-letters all_work complete refl (λ i. refl) refl (λ i. refl) complete-ended
      (unfold run step in refl)
