-- ===== src/CondVar/Absent.antt =====
-- Only the readers that `main` of lab11_condvar/condvar.c creates ever run.
use secured_operation_system.Base.{
  ℕ, ◌≡◌, ap, true, false, not, ◌&&◌, Option, none, some, List, [], ◌∷◌, ltb, ◌==◌, arith,
  Bool-cases, ==_eq, inl, inr, if_cases,
}
use secured_operation_system.Threads.Owner.{Thread, writer, reader}
use secured_operation_system.Threads.Letters.{array_size}
use secured_operation_system.CondVar.System.{
  WriterAt, starting, testing, locking, storing, publishing, signaling, unlocking, last_locking,
  flagging, broadcasting, last_unlocking, ending, writer_finished, ReaderAt, reader_starting,
  reader_locking, waiting, sleeping, relocking, checking, leaving, reader_ending, printing,
  releasing, reader_finished, State, lock, woken, move, writer_step, reader_step, Event,
  writer_runs, reader_runs, wakes, has_reader, step, run,
}

abbrev OnSome : (State → Type 0) → Option State → Type 0
OnSome P none = Unit
OnSome P (some s) = P s

-- A reader that is not created stays before its first line.
abbrev pub Absent : State → Type 0
Absent s = (id : ℕ) → has_reader id ≡ false → s.reader_at id ≡ reader_starting

lock-Absent : (s next : State) (t : Thread) → Absent next → OnSome Absent (lock s t next)
lock-Absent s next t a = by_lock s.mutex
  where
    by_lock :
        (l : Option Thread)
        → OnSome Absent (elim l [ none ↦ some (record next { mutex = some t }) | some _ ↦ none ])
    by_lock none = a
    by_lock (some _) = tt

-- A wake-up, for one reader.
move-woken-Absent : (s : State) (id : ℕ) → Absent s → Absent (move s id (woken (s.reader_at id)))
move-woken-Absent s id a j h = elim (Bool-cases (j == id)) [
  | inl q ↦ rw q (rw (← ==_eq j id q) (ap woken (a j h)))
  | inr q ↦ rw q (a j h)
]

writer_step-Absent :
    (chosen : ℕ) (s : State) (place : WriterAt)
    → Absent s
    → OnSome Absent (writer_step chosen place s)
unfolding writer_step
writer_step-Absent chosen s starting a = a
writer_step-Absent chosen s testing a =
    if_cases Absent (ltb s.write_counter array_size) (λ _. a) (λ _. a)
writer_step-Absent chosen s locking a = lock-Absent s (record s { writer_at = storing }) writer a
writer_step-Absent chosen s storing a = a
writer_step-Absent chosen s publishing a = a
writer_step-Absent chosen s signaling a = move-woken-Absent s chosen a
writer_step-Absent chosen s unlocking a = a
writer_step-Absent chosen s last_locking a =
    lock-Absent s (record s { writer_at = flagging }) writer a
writer_step-Absent chosen s flagging a = a
writer_step-Absent chosen s broadcasting a = λ id h. ap woken (a id h)
writer_step-Absent chosen s last_unlocking a = a
writer_step-Absent chosen s ending a = a
writer_step-Absent chosen s writer_finished a = tt

module _ (s : State) (id : ℕ) (there : has_reader id ≡ true) (a : Absent s) where
  move-Absent : (place : ReaderAt) → Absent (move s id place)
  move-Absent place j h = elim (Bool-cases (j == id)) [
    | inl q ↦ absurd (ground (arith, there, h, ==_eq j id q))
    | inr q ↦ rw q (a j h)
  ]

  reader_step-Absent : (place : ReaderAt) → OnSome Absent (reader_step id place s)
  unfolding reader_step
  reader_step-Absent reader_starting = move-Absent reader_locking
  reader_step-Absent reader_locking =
      lock-Absent s (move s id waiting) (reader id) (move-Absent waiting)
  reader_step-Absent waiting =
      if_cases Absent (not s.data_available && not s.all_written) (λ _. move-Absent sleeping)
        (λ _. move-Absent checking)
  reader_step-Absent sleeping = tt
  reader_step-Absent relocking = lock-Absent s (move s id waiting) (reader id) (move-Absent waiting)
  reader_step-Absent checking =
      if_cases Absent (s.all_written && s.write_counter == array_size) (λ _. move-Absent leaving)
        (λ _. move-Absent printing)
  reader_step-Absent leaving = move-Absent reader_ending
  reader_step-Absent reader_ending = move-Absent reader_finished
  reader_step-Absent printing = move-Absent releasing
  reader_step-Absent releasing = move-Absent reader_locking
  reader_step-Absent reader_finished = tt

step-Absent : (e : Event) (s : State) → Absent s → OnSome Absent (step e s)
unfolding step
step-Absent (writer_runs chosen) s a = writer_step-Absent chosen s s.writer_at a
step-Absent (reader_runs id) s a =
    if_cases (OnSome Absent) (has_reader id)
      (λ there. reader_step-Absent s id there a (s.reader_at id)) (λ _. tt)
step-Absent (wakes id) s a = move-woken-Absent s id a

pub run-Absent : (es : List Event) (s : State) → Absent s → Absent (run es s)
unfolding run
run-Absent [] s a = a
run-Absent (e ∷ es) s a =
    by_step (step e s) (step-Absent e s a) (run-Absent es s a) (λ s' h. run-Absent es s' h)
  where
    by_step :
        (o : Option State)
        → OnSome Absent o
        → Absent (run es s)
        → ((s' : State) → Absent s' → Absent (run es s'))
        → Absent (elim o [ none ↦ run es s | some s' ↦ run es s' ])
    by_step none h stay go = stay
    by_step (some s') h stay go = go s' h
