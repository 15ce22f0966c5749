-- ===== src/RwLock/Main.antt =====
-- `main` of lab10_rwlock/rwlock.c: the lock is made, the threads are created and joined, and the
-- lock is destroyed.
use secured_operation_system.Base.{
  ℕ, ◌+◌, ◌<◌, ◌≤◌, ◌≡◌, refl, Bool, true, false, if◌then◌else◌, Option, none, some, List, [], ◌∷◌,
  ◌++◌, map, arith,
}
use secured_operation_system.Threads.Owner.{Thread}
use secured_operation_system.Threads.Letters.{num_readers}
use secured_operation_system.Threads.Launch.{
  Calls, create_readers, join_readers, create_readers_all, join_readers_all,
}
use secured_operation_system.RwLock.System.{
  State, ReaderAt, reader_finished, WriterAt, writer_finished, run, initial,
}
use secured_operation_system.RwLock.Schedules.{state_after}

pub data Message : Type 0 where
  error_initializing : Message
  error_creating_writer : Message
  error_creating_reader : ℕ → Message
  error_joining_reader : ℕ → Message
  error_joining_writer : Message
  finished : Message

-- What `main` prints and returns, and whether `pthread_rwlock_destroy` was called.
pub record Outcome : Type 0 where
  pub messages : List Message
  pub destroyed : Bool
  pub status : ℕ

abbrev pub has_ended : ReaderAt → Bool
has_ended reader_finished = true
has_ended _ = false

abbrev pub writer_has_ended : WriterAt → Bool
writer_has_ended writer_finished = true
writer_has_ended _ = false

abbrev pub report : List Message → Outcome
report errors = record { messages = errors ++ finished ∷ []; destroyed = true; status = 0 }

-- The joins, when the threads have come to the state `s`; none if one still waits. The reader at an
-- index has the index and one as its number.
abbrev pub join_threads : Calls → State → Option Outcome
join_threads calls s =
    elim (join_readers calls.joins_reader (λ i. has_ended (s.reader_at (i + 1))) 0 num_readers) [
      | none ↦ none
      | some failed ↦
          let errors = map error_joining_reader failed in
          if calls.joins_writer
          then if writer_has_ended s.writer_at then some (report errors) else none
          else some (report (errors ++ error_joining_writer ∷ []))
    ]

-- `main`, where `initializes` says whether `pthread_rwlock_init` works, under a schedule of the
-- threads.
unfoldable pub main : Bool → Calls → (ℕ → ℕ) → List Thread → Option Outcome
main initializes calls tid ts =
    if initializes
    then if calls.creates_writer
      then elim (create_readers calls.creates_reader 0 num_readers) [
        | some i ↦
            some (record { messages = error_creating_reader i ∷ []; destroyed = true; status = 1 })
        | none ↦ join_threads calls (run tid ts initial)
      ]
      else some (record { messages = error_creating_writer ∷ []; destroyed = true; status = 1 })
    else some (record { messages = error_initializing ∷ []; destroyed = false; status = 1 })

join_threads_all :
    (calls : Calls) (s : State)
    → calls.joins_writer ≡ true
    → ((i : ℕ) → calls.joins_reader i ≡ true)
    → ((id : ℕ) → 0 < id → id ≤ num_readers → s.reader_at id ≡ reader_finished)
    → s.writer_at ≡ writer_finished
    → join_threads calls s ≡ some (report [])
join_threads_all calls s jw jr readers w =
    rw
      (
        join_readers_all calls.joins_reader (λ i. has_ended (s.reader_at (i + 1))) 0 num_readers jr
            (λ j le lt. rw (readers (j + 1) (omega arith) (omega arith)) refl),
        join_threads,
      )
      (rw jw (rw w refl))

-- With every call working, `main` returns 0 under each schedule that lets all threads end, and has
-- destroyed the lock.
main-ended :
    (calls : Calls) (tid : ℕ → ℕ) (ts : List Thread)
    → calls.creates_writer ≡ true
    → ((i : ℕ) → calls.creates_reader i ≡ true)
    → calls.joins_writer ≡ true
    → ((i : ℕ) → calls.joins_reader i ≡ true)
    → ((id : ℕ) → 0 < id → id ≤ num_readers → (state_after tid ts).reader_at id ≡ reader_finished)
    → (state_after tid ts).writer_at ≡ writer_finished
    → main true calls tid ts ≡ some (report [])
unfolding main
main-ended calls tid ts cw cr jw jr readers w = rw cw (
    rw (create_readers_all calls.creates_reader 0 num_readers cr)
      (join_threads_all calls (state_after tid ts) jw jr readers w))
