-- ===== src/Mutex/System.antt =====
-- The threads of lab8_mtx/main.c as steps on the shared variables: `writer_routine`,
-- `reader_routine`, and `init_sync_resources`. A step is what a thread does between two points at
-- which another thread can be seen to run; the delays of `usleep` are such points too.
use secured_operation_system.Base.{
  ℕ, zero, suc, ◌+◌, ◌-◌, Option, none, some, List, [], ◌∷◌, ◌++◌, ltb, leb, if◌then◌else◌,
}
use secured_operation_system.Threads.Family.{set}
use secured_operation_system.Threads.Owner.{Thread, writer, reader}

-- BUFFER_SIZE of thread_ops.h
abbrev pub buffer_size : ℕ
buffer_size = 10

-- Where the writer stands: at the test of its loop, at the lock, behind it at the inner test, at
-- the assignment, at the increment, at the unlock, or at its end.
pub data WriterAt : Type 0 where
  testing locking deciding storing advancing unlocking writer_finished : WriterAt

-- Where a reader stands: at the lock, at the head of the listing, in the loop at an index before the
-- element or before the comma, at the test, at the unlock with the `break`, at its last line behind
-- it, at the unlock without the `break`, or at its end.
pub data ReaderAt : Type 0 where
  waiting printing : ReaderAt
  listing separating : ℕ → ReaderAt
  checking leaving ending releasing reader_finished : ReaderAt

-- What the threads print: lines, and the parts of a listing, for each of which there is a call of
-- `printf`.
pub data Line : Type 0 where
  added : ℕ → ℕ → Line
  listing_start : ℕ → Line
  element : ℕ → ℕ → Line
  comma : ℕ → Line
  listing_end : ℕ → Line
  writer_end : ℕ → Line
  reader_end : ℕ → Line

-- The shared variables, the owner of `buffer_lock`, the place of each thread, and the output, the
-- last line first.
pub record State : Type 0 where
  pub shared_data : ℕ → ℕ
  pub write_position : ℕ
  pub buffer_lock : Option Thread
  pub writer_at : WriterAt
  pub reader_at : ℕ → ReaderAt
  pub printed : List Line

-- The first `n` elements, as the loop of `main` prints them.
abbrev pub first : (ℕ → ℕ) → ℕ → List ℕ
first f zero = []
first f (suc n) = first f n ++ f n ∷ []

-- The state behind `init_sync_resources`, when the threads have been created.
abbrev pub initial : State
initial = record {
  shared_data = λ _. 0;
  write_position = 0;
  buffer_lock = none;
  writer_at = testing;
  reader_at = λ _. waiting;
  printed = [];
}

-- `pthread_mutex_lock`: it returns only if no thread holds the lock.
abbrev pub lock : State → Thread → State → Option State
lock s t next = elim s.buffer_lock [
  | none ↦ some (record next { buffer_lock = some t })
  | some _ ↦ none
]

-- `writer_routine`; none where the thread is blocked or has ended.
unfoldable pub writer_step : WriterAt → State → Option State
writer_step testing s = some (
    if ltb s.write_position buffer_size then record s { writer_at = locking } else record s {
      writer_at = writer_finished;
      printed = writer_end s.write_position ∷ s.printed;
    })
writer_step locking s = lock s writer (record s { writer_at = deciding })
writer_step deciding s = some (
    if ltb s.write_position buffer_size
    then record s { writer_at = storing }
    else record s { writer_at = unlocking })
writer_step storing s = some (record s {
  shared_data = set s.shared_data s.write_position (s.write_position + 1);
  printed = added (s.write_position + 1) s.write_position ∷ s.printed;
  writer_at = advancing;
})
writer_step advancing s =
    some (record s { write_position = s.write_position + 1; writer_at = unlocking })
writer_step unlocking s = some (record s { buffer_lock = none; writer_at = testing })
writer_step writer_finished s = none

abbrev pub move : State → ℕ → ReaderAt → State
move s id place = record s { reader_at = set s.reader_at id place }

-- `reader_routine`
unfoldable pub reader_step : ℕ → ReaderAt → State → Option State
reader_step id waiting s = lock s (reader id) (move s id printing)
reader_step id printing s =
    some (record (move s id (listing 0)) { printed = listing_start id ∷ s.printed })
reader_step id (listing i) s = some (
    if ltb i s.write_position
    then record (move s id (separating i)) { printed = element id (s.shared_data i) ∷ s.printed }
    else record (move s id checking) { printed = listing_end id ∷ s.printed })
reader_step id (separating i) s = some (
    if ltb i (s.write_position - 1)
    then record (move s id (listing (i + 1))) { printed = comma id ∷ s.printed }
    else move s id (listing (i + 1)))
reader_step id checking s =
    some (if leb buffer_size s.write_position then move s id leaving else move s id releasing)
reader_step id leaving s = some (record (move s id ending) { buffer_lock = none })
reader_step id ending s =
    some (record (move s id reader_finished) { printed = reader_end id ∷ s.printed })
reader_step id releasing s = some (record (move s id waiting) { buffer_lock = none })
reader_step id reader_finished s = none

unfoldable pub step : Thread → State → Option State
unfolding writer_step reader_step
step writer s = writer_step s.writer_at s
step (reader id) s = reader_step id (s.reader_at id) s

-- The threads in the order that the scheduler gives; a thread that cannot run leaves the state.
unfoldable pub run : List Thread → State → State
unfolding step
run [] s = s
run (t ∷ ts) s = elim (step t s) [ none ↦ run ts s | some s' ↦ run ts s' ]
