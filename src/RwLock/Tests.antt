-- ===== src/RwLock/Tests.antt =====
-- The theorems on lab10_rwlock/rwlock.c at concrete schedules.
use secured_operation_system.Base.{
  ℕ, zero, suc, ◌+◌, ◌<◌, ◌≤◌, ◌≡◌, refl, true, false, List, [], ◌∷◌, ◌++◌, arith, bytes,
}
use secured_operation_system.Threads.Owner.{Thread, writer, reader}
use secured_operation_system.Base.Numerals.{numeral}
use secured_operation_system.Threads.Letters.{num_readers}
use secured_operation_system.Threads.Launch.{Calls}
use secured_operation_system.RwLock.Format.{header, buffer_size}
use secured_operation_system.RwLock.System.{run, step, writer_step, reader_finished}
use secured_operation_system.RwLock.Invariant.{writes, Ordered, is_overrun, reader_inside}
use secured_operation_system.RwLock.Schedules.{
  written, state_after, state_after-Ordered, state_after-in_bounds, state_after-exclusive,
}

-- Thread ids as glibc gives them.
abbrev ids : ℕ → ℕ
ids id = 140737488355328 + id

abbrev times : ℕ → Thread → List Thread
times zero t = []
times (suc n) t = t ∷ times n t

-- Two readers build their lines at once, while the writer waits.
abbrev together : ℕ → List Thread
together zero = []
together (suc n) = reader 1 ∷ reader 2 ∷ writer ∷ together n

-- The writer puts one letter, and is behind its next lock.
abbrev writing : List Thread
writing = times 7 writer ++ times 3 writer

abbrev complete : List Thread
complete =
    times 75 writer
    ++ times 3 (reader 1)
    ++ times 3 (reader 2)
    ++ times 3 (reader 3)
    ++ times 3 (reader 4)
    ++ times 3 (reader 5)
    ++ times 3 (reader 6)
    ++ times 3 (reader 7)
    ++ times 3 (reader 8)
    ++ times 3 (reader 9)
    ++ times 3 (reader 10)

header_lem : header 3 48879 ≡ bytes "Reader 3 (TID: beef): Array = ["
unfolding header numeral
header_lem = refl

state_after-Ordered_example :
    Ordered ids (state_after ids (times 7 writer ++ together 30)).printed
    × (writes (state_after ids (times 7 writer ++ together 30)).printed
        ≤ (state_after ids (times 7 writer ++ together 30)).write_counter)
state_after-Ordered_example = state_after-Ordered ids (times 7 writer ++ together 30)

state_after-in_bounds_example :
    (is_overrun ((state_after ids (together 12)).reader_at 1) ≡ false)
    × (written ((state_after ids (together 12)).reader_at 1) < buffer_size)
state_after-in_bounds_example = state_after-in_bounds ids (together 12) 1

state_after-exclusive_example : reader_inside ((state_after ids writing).reader_at 1) ≡ false
state_after-exclusive_example =
    state_after-exclusive ids writing 1 (unfold run step writer_step in refl)

abbrev all_work : Calls
all_work = record {
  creates_writer = true;
  creates_reader = λ i. true;
  joins_writer = true;
  joins_reader = λ i. true;
}

complete-ended :
    (id : ℕ) → 0 < id → id ≤ num_readers → (state_after ids complete).reader_at id ≡ reader_finished
unfolding run step
complete-ended id pos le = ground arith
