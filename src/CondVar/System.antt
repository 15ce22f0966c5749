-- ===== src/CondVar/System.antt =====
-- The threads of lab11_condvar/condvar.c as steps on the shared variables: `writer_thread` and
-- `reader_thread`. A step is what a thread does between two points at which another thread can be
-- seen to run. A thread's id, which each line shows too, is left out of the lines.
use secured_operation_system.Base.{
  ℕ, ◌+◌, Bool, true, false, not, ◌&&◌, leb, Option, none, some, List, [], ◌∷◌, Bytes, ltb, ◌==◌,
  if◌then◌else◌,
}
use secured_operation_system.Threads.Family.{set}
use secured_operation_system.Threads.Owner.{Thread, writer, reader}
use secured_operation_system.Threads.Letters.{
  array_size, num_readers, letter, underscores, array_text,
}

-- Where the writer stands: before its first line, at the test of its loop, at the lock, at the
-- assignment, at the increment and the flag, at the signal, at the unlock, at the lock behind the
-- loop, at the two flags, at the broadcast, at the last unlock, before its last line, or at its end.
pub data WriterAt : Type 0 where
  starting testing locking storing publishing signaling unlocking : WriterAt
  last_locking flagging broadcasting last_unlocking ending writer_finished : WriterAt

-- Where a reader stands: before its first line, at the lock, at the test of the inner loop, in
-- `pthread_cond_wait` until it is woken, there until it has the mutex again, at the test behind the
-- loop, at the unlock before the `break`, before its last line, at the printing, at the unlock at the
-- end of the round, or at its end.
pub data ReaderAt : Type 0 where
  reader_starting reader_locking waiting sleeping relocking checking : ReaderAt
  leaving reader_ending printing releasing reader_finished : ReaderAt

-- The lines that the threads print.
pub data Line : Type 0 where
  writer_start : Line
  wrote : ℕ → ℕ → Line
  writer_end : Line
  reader_start : ℕ → Line
  array_is : ℕ → Bytes → Line
  reader_end : ℕ → Line

-- The shared variables, the owner of `mutex`, the place of each thread, and the output, the last
-- line first.
pub record State : Type 0 where
  pub shared_array : ℕ → ℕ
  pub write_counter : ℕ
  pub all_written : Bool
  pub data_available : Bool
  pub mutex : Option Thread
  pub writer_at : WriterAt
  pub reader_at : ℕ → ReaderAt
  pub printed : List Line

abbrev pub initial : State
initial = record {
  shared_array = underscores;
  write_counter = 0;
  all_written = false;
  data_available = false;
  mutex = none;
  writer_at = starting;
  reader_at = λ _. reader_starting;
  printed = [];
}

-- `pthread_mutex_lock`: it returns only if no thread holds the mutex.
abbrev pub lock : State → Thread → State → Option State
lock s t next = elim s.mutex [ none ↦ some (record next { mutex = some t }) | some _ ↦ none ]

-- A thread that is woken in `pthread_cond_wait` still has to lock the mutex.
abbrev pub woken : ReaderAt → ReaderAt
woken sleeping = relocking
woken place = place

-- `writer_thread`, where the system wakes the reader `chosen` at the signal if that one sleeps; none
-- where the thread is blocked or has ended.
unfoldable pub writer_step : ℕ → WriterAt → State → Option State
writer_step chosen starting s =
    some (record s { writer_at = testing; printed = writer_start ∷ s.printed })
writer_step chosen testing s = some (
    if ltb s.write_counter array_size
    then record s { writer_at = locking }
    else record s { writer_at = last_locking })
writer_step chosen locking s = lock s writer (record s { writer_at = storing })
writer_step chosen storing s = some (record s {
  shared_array = set s.shared_array s.write_counter (letter s.write_counter);
  printed = wrote (letter s.write_counter) s.write_counter ∷ s.printed;
  writer_at = publishing;
})
writer_step chosen publishing s =
    some (record s {
      write_counter = s.write_counter + 1;
      data_available = true;
      writer_at = signaling;
    })
writer_step chosen signaling s = some (record s {
  reader_at = set s.reader_at chosen (woken (s.reader_at chosen));
  writer_at = unlocking;
})
writer_step chosen unlocking s = some (record s { mutex = none; writer_at = testing })
writer_step chosen last_locking s = lock s writer (record s { writer_at = flagging })
writer_step chosen flagging s =
    some (record s { all_written = true; data_available = true; writer_at = broadcasting })
writer_step chosen broadcasting s =
    some (record s { reader_at = λ id. woken (s.reader_at id); writer_at = last_unlocking })
writer_step chosen last_unlocking s = some (record s { mutex = none; writer_at = ending })
writer_step chosen ending s =
    some (record s { writer_at = writer_finished; printed = writer_end ∷ s.printed })
writer_step chosen writer_finished s = none

abbrev pub move : State → ℕ → ReaderAt → State
move s id place = record s { reader_at = set s.reader_at id place }

-- `reader_thread`; none where the thread is blocked or has ended.
unfoldable pub reader_step : ℕ → ReaderAt → State → Option State
reader_step id reader_starting s =
    some (record (move s id reader_locking) { printed = reader_start id ∷ s.printed })
reader_step id reader_locking s = lock s (reader id) (move s id waiting)
reader_step id waiting s = some (
    if not s.data_available && not s.all_written
    then record (move s id sleeping) { mutex = none }
    else move s id checking)
reader_step id sleeping s = none
reader_step id relocking s = lock s (reader id) (move s id waiting)
reader_step id checking s = some (
    if s.all_written && s.write_counter == array_size
    then move s id leaving
    else move s id printing)
reader_step id leaving s = some (record (move s id reader_ending) { mutex = none })
reader_step id reader_ending s =
    some (record (move s id reader_finished) { printed = reader_end id ∷ s.printed })
reader_step id printing s = some (record (move s id releasing) {
  printed = array_is id (array_text s.shared_array s.write_counter 0 array_size) ∷ s.printed;
  data_available = false;
})
reader_step id releasing s = some (record (move s id reader_locking) { mutex = none })
reader_step id reader_finished s = none

-- What the scheduler does next: it runs the writer, and says whom a signal is to wake, or a reader,
-- or it wakes a reader for no reason, as `pthread_cond_wait` allows.
pub data Event : Type 0 where
  writer_runs : ℕ → Event
  reader_runs : ℕ → Event
  wakes : ℕ → Event

-- `main` creates the readers 1 to NUM_READERS.
abbrev pub has_reader : ℕ → Bool
has_reader id = leb 1 id && leb id num_readers

unfoldable pub step : Event → State → Option State
unfolding writer_step reader_step
step (writer_runs chosen) s = writer_step chosen s.writer_at s
step (reader_runs id) s = if has_reader id then reader_step id (s.reader_at id) s else none
step (wakes id) s = some (move s id (woken (s.reader_at id)))

-- The threads in the order that the scheduler gives; a thread that cannot run leaves the state.
unfoldable pub run : List Event → State → State
unfolding step
run [] s = s
run (e ∷ es) s = elim (step e s) [ none ↦ run es s | some s' ↦ run es s' ]
