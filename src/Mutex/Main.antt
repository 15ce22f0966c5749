-- ===== src/Mutex/Main.antt =====
-- `main` of lab8_mtx/main.c: the mutex is made, the threads are created and joined, and the buffer
-- is printed.
use secured_operation_system.Base.{
  ℕ, zero, suc, ◌+◌, ◌<◌, ◌≤◌, ◌≡◌, refl, ap, ap₂, ◌∙◌, Bool, true, false, if◌then◌else◌, Option,
  none, some, List, [], ◌∷◌, ◌++◌, map, arith,
}
use secured_operation_system.Threads.Owner.{Thread, writer, reader}
use secured_operation_system.Threads.Launch.{
  Calls, create_readers, join_readers, create_readers_all, join_readers_all, create_readers_refused,
}
use secured_operation_system.Mutex.System.{
  State, ReaderAt, reader_finished, WriterAt, writer_finished, first, run, initial,
}
use secured_operation_system.Mutex.Schedules.{after, after-finished}

-- READER_THREADS of thread_ops.h
abbrev pub reader_threads : ℕ
reader_threads = 10

pub data Message : Type 0 where
  mutex_failed : Message
  failed_writer : Message
  failed_reader : ℕ → Message
  error_joining_reader : ℕ → Message
  error_joining_writer : Message
  total_written : ℕ → Message
  buffer_is : List ℕ → Message
  completed : Message

-- What `main` prints behind its first three lines, and returns, the threads that it cancels, and
-- whether `cleanup_sync_resources` was called.
pub record Outcome : Type 0 where
  pub messages : List Message
  pub cancelled : List Thread
  pub cleaned_up : Bool
  pub status : ℕ

abbrev pub has_ended : ReaderAt → Bool
has_ended reader_finished = true
has_ended _ = false

abbrev pub writer_has_ended : WriterAt → Bool
writer_has_ended writer_finished = true
writer_has_ended _ = false

-- `pthread_cancel(readers[j])` from an index on; the reader there has the number `j + 1`.
abbrev cancel_readers : ℕ → ℕ → List Thread
cancel_readers j zero = []
cancel_readers j (suc left) = reader (j + 1) ∷ cancel_readers (j + 1) left

-- The last listing.
abbrev pub report : List Message → State → Outcome
report errors s = record {
  messages =
      errors
      ++ total_written s.write_position
        ∷ buffer_is (first s.shared_data s.write_position)
        ∷ completed
        ∷ [];
  cancelled = [];
  cleaned_up = true;
  status = 0;
}

-- The joins, when the threads have come to the state `s`; none if one still waits.
abbrev pub join_threads : Calls → State → Option Outcome
join_threads calls s =
    elim (join_readers calls.joins_reader (λ i. has_ended (s.reader_at (i + 1))) 0 reader_threads) [
      | none ↦ none
      | some failed ↦
          let errors = map (λ i. error_joining_reader (i + 1)) failed in
          if calls.joins_writer
          then if writer_has_ended s.writer_at then some (report errors s) else none
          else some (report (errors ++ error_joining_writer ∷ []) s)
    ]

-- `main`, where `initializes` says whether `pthread_mutex_init` works, under a schedule of the
-- threads.
unfoldable pub main : Bool → Calls → List Thread → Option Outcome
main initializes calls ts =
    if initializes
    then if calls.creates_writer
      then elim (create_readers calls.creates_reader 0 reader_threads) [
        | some i ↦ some (record {
          messages = failed_reader (i + 1) ∷ [];
          cancelled = writer ∷ cancel_readers 0 i;
          cleaned_up = true;
          status = 1;
        })
        | none ↦ join_threads calls (run ts initial)
      ]
      else some
          (record { messages = failed_writer ∷ []; cancelled = []; cleaned_up = true; status = 1 })
    else some
        (record { messages = mutex_failed ∷ []; cancelled = []; cleaned_up = false; status = 1 })

join_threads_all :
    (calls : Calls) (s : State)
    → calls.joins_writer ≡ true
    → ((i : ℕ) → calls.joins_reader i ≡ true)
    → ((id : ℕ) → 0 < id → id ≤ reader_threads → s.reader_at id ≡ reader_finished)
    → s.writer_at ≡ writer_finished
    → join_threads calls s ≡ some (report [] s)
join_threads_all calls s jw jr readers w =
    rw
      (
        join_readers_all calls.joins_reader (λ i. has_ended (s.reader_at (i + 1))) 0 reader_threads
            jr (λ j le lt. rw (readers (j + 1) (omega arith) (omega arith)) refl),
        join_threads,
      )
      (rw jw (rw w refl))

-- With every call working, `main` returns 0 under each schedule that lets all threads end, and its
-- last listing shows the ten elements 1, 2, 3 and so on to 10.
pub main-listing :
    (calls : Calls) (ts : List Thread)
    → calls.creates_writer ≡ true
    → ((i : ℕ) → calls.creates_reader i ≡ true)
    → calls.joins_writer ≡ true
    → ((i : ℕ) → calls.joins_reader i ≡ true)
    → ((id : ℕ) → 0 < id → id ≤ reader_threads → (after ts).reader_at id ≡ reader_finished)
    → (after ts).writer_at ≡ writer_finished
    → main true calls ts
      ≡ some (record {
        messages =
            total_written 10
            ∷ buffer_is (1 ∷ 2 ∷ 3 ∷ 4 ∷ 5 ∷ 6 ∷ 7 ∷ 8 ∷ 9 ∷ 10 ∷ [])
            ∷ completed
            ∷ [];
        cancelled = [];
        cleaned_up = true;
        status = 0;
      })
unfolding main
main-listing calls ts cw cr jw jr readers w =
    let (ten, elements) = after-finished ts 1 (readers 1 (omega arith) (omega arith)) in
    rw cw (
      rw (create_readers_all calls.creates_reader 0 reader_threads cr)
        (rw (join_threads_all calls (after ts) jw jr readers w) (rw elements (rw ten refl))))

-- The readers 1 to `k`.
abbrev readers_to : ℕ → List Thread
readers_to zero = []
readers_to (suc k) = readers_to k ++ reader (suc k) ∷ []

cancel_readers-snoc :
    (j k : ℕ) → cancel_readers j (suc k) ≡ cancel_readers j k ++ reader (j + suc k) ∷ []
cancel_readers-snoc j zero = refl
cancel_readers-snoc j (suc k) =
    let e : j + 1 + suc k ≡ j + suc (suc k) = omega arith in
    ap (λ (ts : List Thread). reader (j + 1) ∷ ts)
      (cancel_readers-snoc (j + 1) k
        ∙ ap (λ (id : ℕ). cancel_readers (j + 1) k ++ reader id ∷ []) e)

cancel_readers-readers_to : (k : ℕ) → cancel_readers 0 k ≡ readers_to k
cancel_readers-readers_to zero = refl
cancel_readers-readers_to (suc k) =
    cancel_readers-snoc 0 k
    ∙ ap₂ (λ (ts : List Thread) (id : ℕ). ts ++ reader id ∷ []) (cancel_readers-readers_to k)
        (omega arith)

-- Where the reader at index `k` is the first that cannot be created, `main` cancels the writer and
-- the readers 1 to `k`, which are the threads that it has created, and returns 1 under every
-- schedule.
main-cancelled :
    (calls : Calls) (ts : List Thread) (k : ℕ)
    → calls.creates_writer ≡ true
    → ((i : ℕ) → i < k → calls.creates_reader i ≡ true)
    → calls.creates_reader k ≡ false
    → k < reader_threads
    → main true calls ts
      ≡ some (record {
        messages = failed_reader (k + 1) ∷ [];
        cancelled = writer ∷ readers_to k;
        cleaned_up = true;
        status = 1;
      })
unfolding main
main-cancelled calls ts k cw cr no_more lt = rw cw (
    rw
      (create_readers_refused calls.creates_reader 0 reader_threads k (λ j _ b. cr j b) no_more
        (omega arith) (omega arith))
      (rw (cancel_readers-readers_to k) refl))
