-- ===== src/Mutex/Tests.antt =====
-- The theorems on lab8_mtx/main.c at concrete schedules.
use secured_operation_system.Base.{
  ℕ, ◌≡◌, refl, true, List, [], ◌∷◌, ◌++◌, arith, zero, suc, ◌<◌, ◌≤◌, some,
}
use secured_operation_system.Mutex.System.{run, step}
use secured_operation_system.Threads.Owner.{Thread, writer, reader}
use secured_operation_system.Mutex.Invariant.{IsValid}
use secured_operation_system.Mutex.Schedules.{after, after-IsValid}
use secured_operation_system.Threads.Launch.{Calls}
use secured_operation_system.Mutex.System.{reader_finished}
use secured_operation_system.Mutex.Main.{
  reader_threads, main, main-listing, total_written, buffer_is, completed,
}

abbrev repeat : ℕ → List Thread → List Thread
repeat zero ts = []
repeat (suc n) ts = ts ++ repeat n ts

-- A round of the writer, with a reader at the lock.
abbrev mixed : List Thread
mixed =
    writer
    ∷ writer
    ∷ reader 1
    ∷ writer
    ∷ writer
    ∷ writer
    ∷ writer
    ∷ reader 1
    ∷ writer
    ∷ writer
    ∷ repeat 20 (reader 1 ∷ [])

-- The writer to its end, then the first reader.
abbrev complete : List Thread
complete = repeat 61 (writer ∷ []) ++ repeat 26 (reader 1 ∷ [])

after-IsValid_example : IsValid (after mixed)
after-IsValid_example = after-IsValid mixed

abbrev all_work : Calls
all_work = record {
  creates_writer = true;
  creates_reader = λ i. true;
  joins_writer = true;
  joins_reader = λ i. true;
}

-- The writer to its end, then each reader.
abbrev all_end : List Thread
all_end =
    repeat 62 (writer ∷ [])
    ++ repeat 26 (reader 1 ∷ [])
    ++ repeat 26 (reader 2 ∷ [])
    ++ repeat 26 (reader 3 ∷ [])
    ++ repeat 26 (reader 4 ∷ [])
    ++ repeat 26 (reader 5 ∷ [])
    ++ repeat 26 (reader 6 ∷ [])
    ++ repeat 26 (reader 7 ∷ [])
    ++ repeat 26 (reader 8 ∷ [])
    ++ repeat 26 (reader 9 ∷ [])
    ++ repeat 26 (reader 10 ∷ [])

all_end-finished :
    (id : ℕ) → 0 < id → id ≤ reader_threads → (after all_end).reader_at id ≡ reader_finished
unfolding run step
all_end-finished id pos le = ground arith

main-listing_example :
    main true all_work all_end
    ≡ some (record {
      messages =
          total_written 10
          ∷ buffer_is (1 ∷ 2 ∷ 3 ∷ 4 ∷ 5 ∷ 6 ∷ 7 ∷ 8 ∷ 9 ∷ 10 ∷ [])
          ∷ completed
          ∷ [];
      cancelled = [];
      cleaned_up = true;
      status = 0;
    })
main-listing_example =
    main-listing all_work all_end refl (λ i. refl) refl (λ i. refl) all_end-finished
      (unfold run step in refl)
