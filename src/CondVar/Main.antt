-- ===== src/CondVar/Main.antt =====
-- `main` of lab11_condvar/condvar.c: the threads are created, joined, and the array is printed.
use secured_operation_system.Base.{
  ℕ, ◌+◌, ◌<◌, ◌≤◌, ◌≡◌, refl, Bool, true, false, if◌then◌else◌, Option, none, some, List, [], ◌∷◌,
  ◌++◌, map, Bytes, bytes, arith,
}
use secured_operation_system.Threads.Letters.{array_size, num_readers, final_text}
use secured_operation_system.Threads.Launch.{
  Calls, create_readers, join_readers, create_readers_all, join_readers_all,
}
use secured_operation_system.CondVar.System.{
  State, ReaderAt, reader_finished, WriterAt, writer_finished, Event, run, initial,
}
use secured_operation_system.CondVar.Schedules.{reached, reached-finished}

pub data Message : Type 0 where
  creating : Message
  error_creating_writer : Message
  error_creating_reader : ℕ → Message
  waiting_for_threads : Message
  error_joining_reader : ℕ → Message
  error_joining_writer : Message
  final_array : Bytes → Message
  finished : Message

-- What `main` prints, and returns.
pub record Outcome : Type 0 where
  pub messages : List Message
  pub status : ℕ

abbrev pub has_ended : ReaderAt → Bool
has_ended reader_finished = true
has_ended _ = false

abbrev pub writer_has_ended : WriterAt → Bool
writer_has_ended writer_finished = true
writer_has_ended _ = false

-- The last lines, behind the joins whose messages are `errors`.
abbrev pub report : List Message → State → Outcome
report errors s = record {
  messages =
      creating ∷ waiting_for_threads ∷ errors
      ++ final_array (final_text s.shared_array 0 array_size) ∷ finished ∷ [];
  status = 0;
}

-- The joins, when the threads have come to the state `s`: the readers first, and then the writer.
-- The reader at an index has the index and one as its number.
abbrev pub join_threads : Calls → State → Option Outcome
join_threads calls s =
    elim (join_readers calls.joins_reader (λ i. has_ended (s.reader_at (i + 1))) 0 num_readers) [
      | none ↦ none
      | some failed ↦
          let errors = map error_joining_reader failed in
          if calls.joins_writer
          then if writer_has_ended s.writer_at then some (report errors s) else none
          else some (report (errors ++ error_joining_writer ∷ []) s)
    ]

-- `main` under a schedule of the threads; none if a join still waits when the schedule is over.
unfoldable pub main : Calls → List Event → Option Outcome
main calls es =
    if calls.creates_writer
    then elim (create_readers calls.creates_reader 0 num_readers) [
      | some i ↦ some (record { messages = creating ∷ error_creating_reader i ∷ []; status = 1 })
      | none ↦ join_threads calls (run es initial)
    ]
    else some (record { messages = creating ∷ error_creating_writer ∷ []; status = 1 })

join_threads_all :
    (calls : Calls) (s : State)
    → calls.joins_writer ≡ true
    → ((i : ℕ) → calls.joins_reader i ≡ true)
    → ((id : ℕ) → 0 < id → id ≤ num_readers → s.reader_at id ≡ reader_finished)
    → s.writer_at ≡ writer_finished
    → join_threads calls s ≡ some (report [] s)
join_threads_all calls s jw jr readers w =
    rw
      (
        join_readers_all calls.joins_reader (λ i. has_ended (s.reader_at (i + 1))) 0 num_readers jr
            (λ j le lt. rw (readers (j + 1) (omega arith) (omega arith)) refl),
        join_threads,
      )
      (rw jw (rw w refl))

-- With every thread created and joined, `main` returns 0 under each schedule that lets all threads
-- end, and prints all ten letters.
pub main-letters :
    (calls : Calls) (es : List Event)
    → calls.creates_writer ≡ true
    → ((i : ℕ) → calls.creates_reader i ≡ true)
    → calls.joins_writer ≡ true
    → ((i : ℕ) → calls.joins_reader i ≡ true)
    → ((id : ℕ) → 0 < id → id ≤ num_readers → (reached es).reader_at id ≡ reader_finished)
    → (reached es).writer_at ≡ writer_finished
    → main calls es
      ≡ some (record {
        messages =
            creating
            ∷ waiting_for_threads
            ∷ final_array (bytes "A B C D E F G H I J")
            ∷ finished
            ∷ [];
        status = 0;
      })
unfolding main
main-letters calls es cw cr jw jr readers w =
    let (_, text) = reached-finished es 1 (readers 1 (omega arith) (omega arith)) in
    rw cw (
      rw (create_readers_all calls.creates_reader 0 num_readers cr)
        (rw (join_threads_all calls (reached es) jw jr readers w) (rw text refl)))
