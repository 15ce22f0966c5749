-- ===== src/RwLock/System.antt =====
-- The threads of lab10_rwlock/rwlock.c as steps on the shared variables: `writer_thread` and
-- `reader_thread`. A step is what a thread does between two points at which another thread can be
-- seen to run, so the readers build their lines a call of `snprintf` at a time, side by side.
use secured_operation_system.Base.{
  ℕ, ◌+◌, ◌-◌, Bool, true, false, ◌||◌, not, Option, none, some, List, [], ◌∷◌, Bytes, bytes, ltb,
  ◌==◌, if◌then◌else◌,
}
use secured_operation_system.Threads.Family.{set}
use secured_operation_system.Threads.Owner.{Thread, writer, reader}
use secured_operation_system.Threads.Letters.{array_size, letter, underscores}
use secured_operation_system.RwLock.Format.{Buffer, empty, append, header, cell}

-- Where the writer stands: at the test of its loop, at the lock, at the inner test, at the
-- assignment, at the increment, at its line, at the unlock, at the lock behind the loop, at the
-- flag, at the last unlock, or at its end.
pub data WriterAt : Type 0 where
  testing locking deciding storing advancing telling unlocking : WriterAt
  last_locking flagging last_unlocking writer_finished : WriterAt

-- Where a reader stands: at the lock, at the test, at the unlock before the `break`, at the head of
-- the line, in the loop at an index before the cell or before the space, at the end of the line, at
-- the `printf`, at the unlock, at its end, or where it has written behind its buffer.
pub data ReaderAt : Type 0 where
  reader_locking reader_testing breaking heading : ReaderAt
  at_cell at_space : ℕ → Buffer → ReaderAt
  closing showing : Buffer → ReaderAt
  reader_unlocking reader_finished overrun : ReaderAt

pub data Line : Type 0 where
  wrote : ℕ → ℕ → Line
  array_is : ℕ → Bytes → Line

-- The read-write lock: does the writer hold it, and which readers do?
pub record Lock : Type 0 where
  pub write_held : Bool
  pub read_held : List ℕ

pub record State : Type 0 where
  pub shared_array : ℕ → ℕ
  pub write_counter : ℕ
  pub read_finished : Bool
  pub rwlock : Lock
  pub writer_at : WriterAt
  pub reader_at : ℕ → ReaderAt
  pub printed : List Line

abbrev pub initial : State
initial = record {
  shared_array = underscores;
  write_counter = 0;
  read_finished = false;
  rwlock = record { write_held = false; read_held = [] };
  writer_at = testing;
  reader_at = λ _. reader_locking;
  printed = [];
}

abbrev pub is_empty : List ℕ → Bool
is_empty [] = true
is_empty (_ ∷ _) = false

abbrev pub member : ℕ → List ℕ → Bool
member id [] = false
member id (j ∷ ids) = id == j || member id ids

-- A thread holds the lock once at most.
abbrev pub remove : ℕ → List ℕ → List ℕ
remove id [] = []
remove id (j ∷ ids) = let rest = remove id ids in if j == id then rest else j ∷ rest

-- `pthread_rwlock_wrlock`: it returns only if nobody holds the lock.
abbrev pub wrlock : State → State → Option State
wrlock s next =
    if s.rwlock.write_held || not (is_empty s.rwlock.read_held)
    then none
    else some
        (record next { rwlock = record { write_held = true; read_held = s.rwlock.read_held } })

-- `pthread_rwlock_rdlock`: it returns only if the writer does not hold the lock.
abbrev pub rdlock : State → ℕ → State → Option State
rdlock s id next =
    if s.rwlock.write_held
    then none
    else some (record next {
      rwlock = record { write_held = false; read_held = id ∷ s.rwlock.read_held };
    })

-- `pthread_rwlock_unlock`
abbrev pub write_unlock : State → State
write_unlock s = record s { rwlock = record { write_held = false; read_held = s.rwlock.read_held } }

abbrev pub read_unlock : ℕ → State → State
read_unlock id s = record s {
  rwlock = record { write_held = s.rwlock.write_held; read_held = remove id s.rwlock.read_held };
}

-- `writer_thread`; none where the thread is blocked or has ended.
unfoldable pub writer_step : WriterAt → State → Option State
writer_step testing s = some (
    if ltb s.write_counter array_size
    then record s { writer_at = locking }
    else record s { writer_at = last_locking })
writer_step locking s = wrlock s (record s { writer_at = deciding })
writer_step deciding s = some (
    if ltb s.write_counter array_size
    then record s { writer_at = storing }
    else record s { writer_at = unlocking })
writer_step storing s = some (record s {
  shared_array = set s.shared_array s.write_counter (letter s.write_counter);
  writer_at = advancing;
})
writer_step advancing s =
    some (record s { write_counter = s.write_counter + 1; writer_at = telling })
writer_step telling s = some (record s {
  printed = wrote (s.shared_array (s.write_counter - 1)) (s.write_counter - 1) ∷ s.printed;
  writer_at = unlocking;
})
writer_step unlocking s = some (write_unlock (record s { writer_at = testing }))
writer_step last_locking s = wrlock s (record s { writer_at = flagging })
writer_step flagging s = some (record s { read_finished = true; writer_at = last_unlocking })
writer_step last_unlocking s = some (write_unlock (record s { writer_at = writer_finished }))
writer_step writer_finished s = none

abbrev pub move : State → ℕ → ReaderAt → State
move s id place = record s { reader_at = set s.reader_at id place }

-- A call of `snprintf`, and where the reader goes with the buffer that it leaves.
abbrev pub appended : Option Buffer → (Buffer → ReaderAt) → ReaderAt
appended none next = overrun
appended (some b) next = next b

module _ (tid : ℕ → ℕ) where
  -- `reader_thread` of the reader `id`, whose `pthread_self` is `tid id`; none where the thread is
  -- blocked or has ended.
  unfoldable pub reader_step : ℕ → ReaderAt → State → Option State
  reader_step id reader_locking s = rdlock s id (move s id reader_testing)
  reader_step id reader_testing s =
      some (if s.read_finished then move s id breaking else move s id heading)
  reader_step id breaking s = some (read_unlock id (move s id reader_finished))
  reader_step id heading s =
      some (move s id (appended (append (header id (tid id)) empty) (at_cell 0)))
  reader_step id (at_cell i b) s = some (
      if ltb i array_size
      then move s id (appended (append (cell s.shared_array s.write_counter i) b) (at_space i))
      else move s id (closing b))
  reader_step id (at_space i b) s = some (
      if ltb i (array_size - 1)
      then move s id (appended (append (b' ' ∷ []) b) (at_cell (i + 1)))
      else move s id (at_cell (i + 1) b))
  reader_step id (closing b) s = some (move s id (appended (append (bytes "]\n") b) showing))
  reader_step id (showing b) s =
      some (record (move s id reader_unlocking) { printed = array_is id b.text ∷ s.printed })
  reader_step id reader_unlocking s = some (read_unlock id (move s id reader_locking))
  reader_step id reader_finished s = none
  reader_step id overrun s = none

  unfoldable pub step : Thread → State → Option State
  unfolding writer_step reader_step
  step writer s = writer_step s.writer_at s
  step (reader id) s = reader_step id (s.reader_at id) s

  -- The threads in the order that the scheduler gives; a thread that cannot run leaves the state.
  unfoldable pub run : List Thread → State → State
  unfolding step
  run [] s = s
  run (t ∷ ts) s = elim (step t s) [ none ↦ run ts s | some s' ↦ run ts s' ]
