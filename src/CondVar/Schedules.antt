-- ===== src/CondVar/Schedules.antt =====
-- What the threads of lab11_condvar/condvar.c guarantee under every schedule.
use secured_operation_system.Base.{
  ℕ, suc, ◌-◌, ◌≤◌, ◌≡◌, refl, ◌∙◌, true, false, Option, none, some, List, [], ◌∷◌, arith, bytes,
  if_cases,
}
use mathlib.Core.Path.{subst}
use secured_operation_system.Threads.Letters.{
  array_size, final_text, final_text-array_text, array_text-row,
}
use secured_operation_system.CondVar.System.{
  writer_finished, reader_finished, Line, writer_start, wrote, writer_end, reader_start, array_is,
  reader_end, State, initial, Event, writer_runs, reader_runs, wakes, has_reader, step, run,
}
use secured_operation_system.CondVar.Invariant.{
  is_sleeping, Rising, ReaderKnows, WriterKnows, Fresh, IsValid, initial-IsValid, OnSome,
}
use secured_operation_system.CondVar.Writer.{writer_step-IsValid}
use secured_operation_system.CondVar.Reader.{reader_step-IsValid, wakes-IsValid}

step-IsValid : (e : Event) (s : State) → IsValid s → OnSome IsValid (step e s)
unfolding step
step-IsValid (writer_runs chosen) s v = writer_step-IsValid chosen s s.writer_at refl v
step-IsValid (reader_runs id) s v =
    if_cases (OnSome IsValid) (has_reader id)
      (λ _. reader_step-IsValid s id (s.reader_at id) refl v) (λ _. tt)
step-IsValid (wakes id) s v = wakes-IsValid s id v

run-IsValid : (es : List Event) (s : State) → IsValid s → IsValid (run es s)
unfolding run
run-IsValid [] s v = v
run-IsValid (e ∷ es) s v =
    by_step (step e s) (step-IsValid e s v) (run-IsValid es s v) (λ s' h. run-IsValid es s' h)
  where
    by_step :
        (o : Option State)
        → OnSome IsValid o
        → IsValid (run es s)
        → ((s' : State) → IsValid s' → IsValid (run es s'))
        → IsValid (elim o [ none ↦ run es s | some s' ↦ run es s' ])
    by_step none h stay go = stay
    by_step (some s') h stay go = go s' h

-- The state after a schedule.
abbrev pub reached : List Event → State
reached es = run es initial

-- Under every schedule, also where wake-ups are lost or come for no reason, the mutex has the owner
-- that stands behind it, the counter stays in the array, the elements before it are the letters
-- from A on, `all_written` is set only when all ten are there, and `data_available` is set only
-- when letters are there that no line shows or all are written.
pub reached-IsValid : (es : List Event) → IsValid (reached es)
reached-IsValid es = run-IsValid es initial initial-IsValid

-- How many lines show the array.
abbrev pub shows : List Line → ℕ
shows [] = 0
shows (array_is id text ∷ lines) = suc (shows lines)
shows (writer_start ∷ lines) = shows lines
shows (wrote c i ∷ lines) = shows lines
shows (writer_end ∷ lines) = shows lines
shows (reader_start id ∷ lines) = shows lines
shows (reader_end id ∷ lines) = shows lines

Rising-shows : (n : ℕ) (lines : List Line) → Rising n lines → shows lines ≤ n
Rising-shows n [] r = omega arith
Rising-shows n (array_is id text ∷ lines) (k, pos, le, e, r) =
    omega (arith, Rising-shows (k - 1) lines r)
Rising-shows n (writer_start ∷ lines) r = Rising-shows n lines r
Rising-shows n (wrote c i ∷ lines) r = Rising-shows n lines r
Rising-shows n (writer_end ∷ lines) r = Rising-shows n lines r
Rising-shows n (reader_start id ∷ lines) r = Rising-shows n lines r
Rising-shows n (reader_end id ∷ lines) r = Rising-shows n lines r

-- Under every schedule each line that shows the array shows it as it was, with some number of
-- letters and underscores for the rest, and each shows more letters than all lines before it: no
-- state is shown twice, so the readers together print at most as many such lines as letters are
-- written, and at most ten.
pub reached-Rising :
    (es : List Event)
    → Rising (reached es).write_counter (reached es).printed
      × (shows (reached es).printed ≤ (reached es).write_counter)
      × (shows (reached es).printed ≤ array_size)
reached-Rising es =
    let v = reached-IsValid es in
    let le = Rising-shows (reached es).write_counter (reached es).printed v.rising in
    (v.rising, le, omega (arith, le, v.bound))

-- Under every schedule, once the writer has ended no reader sleeps at the condition variable: the
-- broadcast reaches all, and none falls asleep after it.
pub reached-awake :
    (es : List Event) (id : ℕ)
    → (reached es).writer_at ≡ writer_finished
    → is_sleeping ((reached es).reader_at id) ≡ false
reached-awake es id e =
    let (_, awake) =
      subst
        (λ p.
          WriterKnows p (reached es).write_counter (reached es).shared_array
            (reached es).all_written (reached es).reader_at)
        e (reached-IsValid es).writer_knows in
    awake id

-- Under every schedule, when a reader has ended the array holds all ten letters, and the loop at the
-- end of `main` prints them.
pub reached-finished :
    (es : List Event) (id : ℕ)
    → (reached es).reader_at id ≡ reader_finished
    → ((reached es).write_counter ≡ array_size)
      × (final_text (reached es).shared_array 0 array_size ≡ bytes "A B C D E F G H I J")
reached-finished es id e =
    let v = reached-IsValid es in
    let written : (reached es).all_written ≡ true =
      subst
        (λ p.
          ReaderKnows p (reached es).data_available (reached es).all_written
            (Fresh (reached es).write_counter (reached es).printed))
        e (v.reader_knows id) in
    let ten = v.full written in
    (
      ten,
      final_text-array_text (reached es).shared_array 0 array_size refl
          ∙ array_text-row (reached es).shared_array array_size
              (λ i lt. v.filled i (omega (arith, ten))),
    )
