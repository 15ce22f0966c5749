-- ===== src/CondVar/Progress.antt =====
-- The threads of lab11_condvar/condvar.c never wait for each other for good.
use secured_operation_system.Base.{
  ℕ, ◌≡◌, ◌≢◌, ◌⊎◌, inl, inr, refl, true, false, Option, none, some, List, arith, ap, Bool-cases,
}
use secured_operation_system.Threads.Owner.{Thread, writer, reader}
use secured_operation_system.CondVar.System.{
  WriterAt, starting, testing, locking, storing, publishing, signaling, unlocking, last_locking,
  flagging, broadcasting, last_unlocking, ending, writer_finished, ReaderAt, reader_starting,
  reader_locking, waiting, sleeping, relocking, checking, leaving, reader_ending, printing,
  releasing, reader_finished, State, initial, has_reader, lock, move, writer_step, reader_step,
  Event, writer_runs, reader_runs, step,
}
use secured_operation_system.CondVar.Invariant.{writer_inside, reader_inside, is_sleeping}
use secured_operation_system.CondVar.Schedules.{reached, reached-IsValid, reached-awake}
use secured_operation_system.CondVar.Absent.{run-Absent}

-- The scheduler runs a thread.
abbrev pub runs : Thread → Event
runs writer = writer_runs 0
runs (reader id) = reader_runs id

-- A thread can take a step of its own, without a wake-up.
abbrev pub CanStep : Thread → State → Type 0
CanStep t s = (s' : State) × (step (runs t) s ≡ some s')

writer_inside-CanStep :
    (s : State) (place : WriterAt)
    → writer_inside place ≡ true
    → (s' : State) × (writer_step 0 place s ≡ some s')
unfolding writer_step
writer_inside-CanStep s storing h = (_, refl)
writer_inside-CanStep s publishing h = (_, refl)
writer_inside-CanStep s signaling h = (_, refl)
writer_inside-CanStep s unlocking h = (_, refl)
writer_inside-CanStep s flagging h = (_, refl)
writer_inside-CanStep s broadcasting h = (_, refl)
writer_inside-CanStep s last_unlocking h = (_, refl)
writer_inside-CanStep s starting h = (_, refl)
writer_inside-CanStep s testing h = (_, refl)
writer_inside-CanStep s ending h = (_, refl)
writer_inside-CanStep s locking h = absurd (ground arith)
writer_inside-CanStep s last_locking h = absurd (ground arith)
writer_inside-CanStep s writer_finished h = absurd (ground arith)

reader_inside-CanStep :
    (s : State) (id : ℕ) (place : ReaderAt)
    → reader_inside place ≡ true
    → (s' : State) × (reader_step id place s ≡ some s')
unfolding reader_step
reader_inside-CanStep s id waiting h = (_, refl)
reader_inside-CanStep s id checking h = (_, refl)
reader_inside-CanStep s id leaving h = (_, refl)
reader_inside-CanStep s id printing h = (_, refl)
reader_inside-CanStep s id releasing h = (_, refl)
reader_inside-CanStep s id reader_starting h = (_, refl)
reader_inside-CanStep s id reader_ending h = (_, refl)
reader_inside-CanStep s id reader_locking h = absurd (ground arith)
reader_inside-CanStep s id sleeping h = absurd (ground arith)
reader_inside-CanStep s id relocking h = absurd (ground arith)
reader_inside-CanStep s id reader_finished h = absurd (ground arith)

-- With a free mutex the writer can go on to its end, and a reader unless it sleeps.
free_writer-CanStep :
    (s : State) (place : WriterAt)
    → s.mutex ≡ none
    → (place ≡ writer_finished) ⊎ ((s' : State) × (writer_step 0 place s ≡ some s'))
unfolding writer_step
free_writer-CanStep s locking free =
    inr (record s { writer_at = storing; mutex = some writer }, rw (free, lock) refl)
free_writer-CanStep s last_locking free =
    inr (record s { writer_at = flagging; mutex = some writer }, rw (free, lock) refl)
free_writer-CanStep s writer_finished free = inl refl
free_writer-CanStep s starting free = inr (_, refl)
free_writer-CanStep s testing free = inr (_, refl)
free_writer-CanStep s storing free = inr (_, refl)
free_writer-CanStep s publishing free = inr (_, refl)
free_writer-CanStep s signaling free = inr (_, refl)
free_writer-CanStep s unlocking free = inr (_, refl)
free_writer-CanStep s flagging free = inr (_, refl)
free_writer-CanStep s broadcasting free = inr (_, refl)
free_writer-CanStep s last_unlocking free = inr (_, refl)
free_writer-CanStep s ending free = inr (_, refl)

free_reader-CanStep :
    (s : State) (id : ℕ) (place : ReaderAt)
    → s.mutex ≡ none
    → place ≢ reader_finished
    → is_sleeping place ≡ false
    → (s' : State) × (reader_step id place s ≡ some s')
unfolding reader_step
free_reader-CanStep s id reader_locking free h up =
    (record (move s id waiting) { mutex = some (reader id) }, rw (free, lock) refl)
free_reader-CanStep s id relocking free h up =
    (record (move s id waiting) { mutex = some (reader id) }, rw (free, lock) refl)
free_reader-CanStep s id reader_finished free h up = absurd (h refl)
free_reader-CanStep s id sleeping free h up = absurd (ground arith)
free_reader-CanStep s id reader_starting free h up = (_, refl)
free_reader-CanStep s id waiting free h up = (_, refl)
free_reader-CanStep s id checking free h up = (_, refl)
free_reader-CanStep s id leaving free h up = (_, refl)
free_reader-CanStep s id reader_ending free h up = (_, refl)
free_reader-CanStep s id printing free h up = (_, refl)
free_reader-CanStep s id releasing free h up = (_, refl)

-- A reader that owns the mutex is one that was created.
owner-has_reader :
    (es : List Event) (j : ℕ) → (reached es).mutex ≡ some (reader j) → has_reader j ≡ true
owner-has_reader es j e = elim (Bool-cases (has_reader j)) [
  | inl there ↦ there
  | inr away ↦
      let inside : reader_inside ((reached es).reader_at j) ≡ true =
        (reached-IsValid es).owned.owner_reader j e in
      let starts : (reached es).reader_at j ≡ reader_starting =
        run-Absent es initial (λ _ _. refl) j away in
      absurd (ground (arith, inside, ap reader_inside starts))
]

reader-CanStep :
    (es : List Event) (id : ℕ)
    → has_reader id ≡ true
    → (s' : State) × (reader_step id ((reached es).reader_at id) (reached es) ≡ some s')
    → CanStep (reader id) (reached es)
unfolding step
reader-CanStep es id there (s', e) = (s', rw there e)

-- Under every schedule of the writer and the readers 1 to 10, as long as one of these readers has
-- not ended, one of these threads can take a step of its own: no wake-up is waited for that nobody
-- would give, even if all signals were lost.
pub reached-CanStep :
    (es : List Event) (id : ℕ)
    → has_reader id ≡ true
    → (reached es).reader_at id ≢ reader_finished
    → (t : Thread) × CanStep t (reached es)
unfolding step
reached-CanStep es id there h = by_owner (reached es).mutex refl
  where
    by_owner : (l : Option Thread) → (reached es).mutex ≡ l → (t : Thread) × CanStep t (reached es)
    by_owner none e = elim (free_writer-CanStep (reached es) (reached es).writer_at e) [
      | inl ended ↦ (
        reader id,
        reader-CanStep es id there (
            free_reader-CanStep (reached es) id ((reached es).reader_at id) e h
              (reached-awake es id ended)),
      )
      | inr go ↦ (writer, go)
    ]
    by_owner (some writer) e = (
      writer,
      writer_inside-CanStep (reached es) (reached es).writer_at
          ((reached-IsValid es).owned.owner_writer e),
    )
    by_owner (some (reader j)) e = (
      reader j,
      reader-CanStep es j (owner-has_reader es j e) (
          reader_inside-CanStep (reached es) j ((reached es).reader_at j)
            ((reached-IsValid es).owned.owner_reader j e)),
    )
