-- ===== src/Mutex/Progress.antt =====
-- The threads of lab8_mtx/main.c never block each other for good.
use secured_operation_system.Base.{ℕ, ◌≡◌, ◌≢◌, refl, true, Option, none, some, List, arith}
use secured_operation_system.Mutex.System.{
  WriterAt, testing, locking, deciding, storing, advancing, unlocking, writer_finished, ReaderAt,
  waiting, printing, listing, separating, checking, leaving, ending, releasing, reader_finished,
  State, lock, move, writer_step, reader_step, step,
}
use secured_operation_system.Threads.Owner.{Thread, writer, reader}
use secured_operation_system.Mutex.Invariant.{writer_inside, reader_inside}
use secured_operation_system.Mutex.Schedules.{after, after-IsValid}

-- A thread can take a step.
abbrev pub CanStep : Thread → State → Type 0
CanStep t s = (s' : State) × (step t s ≡ some s')

writer_inside-CanStep :
    (s : State) (place : WriterAt)
    → writer_inside place ≡ true
    → (s' : State) × (writer_step place s ≡ some s')
unfolding writer_step
writer_inside-CanStep s deciding h = (_, refl)
writer_inside-CanStep s storing h = (_, refl)
writer_inside-CanStep s advancing h = (_, refl)
writer_inside-CanStep s unlocking h = (_, refl)
writer_inside-CanStep s testing h = absurd (ground arith)
writer_inside-CanStep s locking h = absurd (ground arith)
writer_inside-CanStep s writer_finished h = absurd (ground arith)

reader_inside-CanStep :
    (s : State) (id : ℕ) (place : ReaderAt)
    → reader_inside place ≡ true
    → (s' : State) × (reader_step id place s ≡ some s')
unfolding reader_step
reader_inside-CanStep s id printing h = (_, refl)
reader_inside-CanStep s id (listing i) h = (_, refl)
reader_inside-CanStep s id (separating i) h = (_, refl)
reader_inside-CanStep s id checking h = (_, refl)
reader_inside-CanStep s id leaving h = (_, refl)
reader_inside-CanStep s id releasing h = (_, refl)
reader_inside-CanStep s id ending h = absurd (ground arith)
reader_inside-CanStep s id waiting h = absurd (ground arith)
reader_inside-CanStep s id reader_finished h = absurd (ground arith)

-- With a free lock a reader that has not ended can go on.
free-CanStep :
    (s : State) (id : ℕ) (place : ReaderAt)
    → s.buffer_lock ≡ none
    → place ≢ reader_finished
    → (s' : State) × (reader_step id place s ≡ some s')
unfolding reader_step
free-CanStep s id waiting free h =
    (record (move s id printing) { buffer_lock = some (reader id) }, rw (free, lock) refl)
free-CanStep s id printing free h = (_, refl)
free-CanStep s id (listing i) free h = (_, refl)
free-CanStep s id (separating i) free h = (_, refl)
free-CanStep s id checking free h = (_, refl)
free-CanStep s id leaving free h = (_, refl)
free-CanStep s id ending free h = (_, refl)
free-CanStep s id releasing free h = (_, refl)
free-CanStep s id reader_finished free h = absurd (h refl)

-- Under every schedule, as long as a reader has not ended some thread can take a step: there is no
-- deadlock.
after-CanStep :
    (ts : List Thread) (id : ℕ)
    → (after ts).reader_at id ≢ reader_finished
    → (t : Thread) × CanStep t (after ts)
unfolding step
after-CanStep ts id h = by_owner (after ts).buffer_lock refl
  where
    by_owner :
        (l : Option Thread) → (after ts).buffer_lock ≡ l → (t : Thread) × CanStep t (after ts)
    by_owner none e = (reader id, free-CanStep (after ts) id ((after ts).reader_at id) e h)
    by_owner (some writer) e = (
      writer,
      writer_inside-CanStep (after ts) (after ts).writer_at
          ((after-IsValid ts).owned.owner_writer e),
    )
    by_owner (some (reader j)) e = (
      reader j,
      reader_inside-CanStep (after ts) j ((after ts).reader_at j)
          ((after-IsValid ts).owned.owner_reader j e),
    )
