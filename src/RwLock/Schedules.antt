-- ===== src/RwLock/Schedules.antt =====
-- What the threads of lab10_rwlock/rwlock.c guarantee under every schedule.
use secured_operation_system.Base.{
  ℕ, ◌<◌, ◌≤◌, ◌≡◌, ◌≢◌, ◌⊎◌, refl, sym, ap, ◌∙◌, Bool, true, false, Option, none, some, List, [],
  ◌∷◌, arith, Bool-cases, inl, inr, bytes,
}
use mathlib.Core.Path.{subst}
use secured_operation_system.Threads.Owner.{Thread, writer, reader}
use secured_operation_system.Threads.Letters.{array_size, row, array_text, array_text-row}
use secured_operation_system.RwLock.Format.{buffer_size}
use secured_operation_system.RwLock.System.{
  WriterAt, testing, locking, deciding, storing, advancing, telling, unlocking, last_locking,
  flagging, last_unlocking, writer_finished, ReaderAt, reader_locking, reader_testing, breaking,
  heading, at_cell, at_space, closing, showing, reader_unlocking, reader_finished, overrun, State,
  initial, rdlock, move, writer_step, reader_step, step, run,
}
use secured_operation_system.RwLock.Invariant.{
  writer_inside, reader_inside, is_overrun, ReaderKnows, writes, Ordered, IsValid, initial-IsValid,
  OnSome,
}
use secured_operation_system.RwLock.Writer.{writer_step-IsValid}
use secured_operation_system.RwLock.Reader.{reader_step-IsValid}

-- How far a reader has written into its buffer.
abbrev pub written : ReaderAt → ℕ
written (at_cell i b) = b.pos
written (at_space i b) = b.pos
written (closing b) = b.pos
written (showing b) = b.pos
written _ = 0

-- A thread can take a step.
abbrev pub CanStep : (ℕ → ℕ) → Thread → State → Type 0
CanStep tid t s = (s' : State) × (step tid t s ≡ some s')

writer_inside-CanStep :
    (s : State) (place : WriterAt)
    → writer_inside place ≡ true
    → (s' : State) × (writer_step place s ≡ some s')
unfolding writer_step
writer_inside-CanStep s deciding h = (_, refl)
writer_inside-CanStep s storing h = (_, refl)
writer_inside-CanStep s advancing h = (_, refl)
writer_inside-CanStep s telling h = (_, refl)
writer_inside-CanStep s unlocking h = (_, refl)
writer_inside-CanStep s flagging h = (_, refl)
writer_inside-CanStep s last_unlocking h = (_, refl)
writer_inside-CanStep s testing h = (_, refl)
writer_inside-CanStep s locking h = absurd (ground arith)
writer_inside-CanStep s last_locking h = absurd (ground arith)
writer_inside-CanStep s writer_finished h = absurd (ground arith)

module _ (tid : ℕ → ℕ) where
  free-CanStep :
      (s : State) (id : ℕ) (place : ReaderAt)
      → s.rwlock.write_held ≡ false
      → place ≢ reader_finished
      → is_overrun place ≡ false
      → (s' : State) × (reader_step tid id place s ≡ some s')
  unfolding reader_step
  free-CanStep s id reader_locking free h ok = (
    record (move s id reader_testing) {
      rwlock = record { write_held = false; read_held = id ∷ s.rwlock.read_held };
    },
    rw (free, rdlock) refl,
  )
  free-CanStep s id reader_testing free h ok = (_, refl)
  free-CanStep s id breaking free h ok = (_, refl)
  free-CanStep s id heading free h ok = (_, refl)
  free-CanStep s id (at_cell i b) free h ok = (_, refl)
  free-CanStep s id (at_space i b) free h ok = (_, refl)
  free-CanStep s id (closing b) free h ok = (_, refl)
  free-CanStep s id (showing b) free h ok = (_, refl)
  free-CanStep s id reader_unlocking free h ok = (_, refl)
  free-CanStep s id reader_finished free h ok = absurd (h refl)
  free-CanStep s id overrun free h ok = absurd (ground arith)

  in_bounds :
      (id : ℕ) (place : ReaderAt) (n : ℕ) (read : Bool)
      → ReaderKnows tid id place n read
      → (is_overrun place ≡ false) × (written place < buffer_size)
  in_bounds id reader_locking n r k = (refl, omega arith)
  in_bounds id reader_testing n r k = (refl, omega arith)
  in_bounds id breaking n r k = (refl, omega arith)
  in_bounds id heading n r k = (refl, omega arith)
  in_bounds id (at_cell i b) n r (_, (_, e, lt)) = (refl, omega (arith, e))
  in_bounds id (at_space i b) n r (_, (_, e, lt)) = (refl, omega (arith, e))
  in_bounds id (closing b) n r (_, e, lt) = (refl, omega (arith, e))
  in_bounds id (showing b) n r (_, lt) = (refl, lt)
  in_bounds id reader_unlocking n r k = (refl, omega arith)
  in_bounds id reader_finished n r k = (refl, omega arith)
  in_bounds id overrun n r k = absurd k

  step-IsValid : (t : Thread) (s : State) → IsValid tid s → OnSome tid (step tid t s)
  unfolding step
  step-IsValid writer s v = writer_step-IsValid tid s s.writer_at refl v
  step-IsValid (reader id) s v = reader_step-IsValid tid s id (s.reader_at id) refl v

  run-IsValid : (ts : List Thread) (s : State) → IsValid tid s → IsValid tid (run tid ts s)
  unfolding run
  run-IsValid [] s v = v
  run-IsValid (t ∷ ts) s v =
      by_step (step tid t s) (step-IsValid t s v) (run-IsValid ts s v) (λ s' h. run-IsValid ts s' h)
    where
      by_step :
          (o : Option State)
          → OnSome tid o
          → IsValid tid (run tid ts s)
          → ((s' : State) → IsValid tid s' → IsValid tid (run tid ts s'))
          → IsValid tid (elim o [ none ↦ run tid ts s | some s' ↦ run tid ts s' ])
      by_step none h stay go = stay
      by_step (some s') h stay go = go s' h

  -- The state after a schedule of the threads.
  abbrev pub state_after : List Thread → State
  state_after ts = run tid ts initial

  state_after-IsValid : (ts : List Thread) → IsValid tid (state_after ts)
  state_after-IsValid ts = run-IsValid ts initial (initial-IsValid tid)

  -- Under every schedule, each line that shows the array is whole and true, with exactly the letters
  -- that the writer's lines before it tell of and underscores for the rest, although it was put
  -- together cell by cell while other threads ran; the writer's lines tell of the letters in turn,
  -- from A on, and of no more than are counted.
  pub state_after-Ordered :
      (ts : List Thread)
      → Ordered tid (state_after ts).printed
        × (writes (state_after ts).printed ≤ (state_after ts).write_counter)
  state_after-Ordered ts = let v = state_after-IsValid ts in (v.lines, omega (arith, v.counts))

  -- Under every schedule no reader writes behind its buffer of 256 bytes, and the position in it
  -- stays below 256, so that the size that `snprintf` is given never turns negative.
  pub state_after-in_bounds :
      (ts : List Thread) (id : ℕ)
      → (is_overrun ((state_after ts).reader_at id) ≡ false)
        × (written ((state_after ts).reader_at id) < buffer_size)
  state_after-in_bounds ts id =
      let s = state_after ts in
      in_bounds id (s.reader_at id) s.write_counter s.read_finished
        ((state_after-IsValid ts).reader_knows id)

  -- Under every schedule no reader stands between its lock and its unlock while the writer does.
  pub state_after-exclusive :
      (ts : List Thread) (id : ℕ)
      → writer_inside (state_after ts).writer_at ≡ true
      → reader_inside ((state_after ts).reader_at id) ≡ false
  state_after-exclusive ts id h =
      let v = state_after-IsValid ts in
      let none_held = v.excludes (sym v.writer_in ∙ h) in rw (v.readers_in id) (rw none_held refl)

  -- Under every schedule a reader that has not ended can take a step of its own, whatever the other
  -- readers do, unless the writer stands between its lock and its unlock, and then the writer can.
  state_after-CanStep :
      (ts : List Thread) (id : ℕ)
      → (state_after ts).reader_at id ≢ reader_finished
      → CanStep tid (reader id) (state_after ts)
        ⊎ ((writer_inside (state_after ts).writer_at ≡ true) × CanStep tid writer (state_after ts))
  unfolding step
  state_after-CanStep ts id h =
      let s = state_after ts in
      elim (Bool-cases (writer_inside s.writer_at)) [
        | inl inside ↦ inr (inside, writer_inside-CanStep s s.writer_at inside)
        | inr out ↦ inl (
            free-CanStep s id (s.reader_at id) (sym (state_after-IsValid ts).writer_in ∙ out) h
              (state_after-in_bounds ts id).0)
      ]

  -- Under every schedule, when a reader has ended all ten letters are in the array.
  state_after-finished :
      (ts : List Thread) (id : ℕ)
      → (state_after ts).reader_at id ≡ reader_finished
      → ((state_after ts).write_counter ≡ array_size)
        × (array_text (state_after ts).shared_array (state_after ts).write_counter 0 array_size
            ≡ bytes "A B C D E F G H I J")
  state_after-finished ts id e =
      let s = state_after ts in
      let v = state_after-IsValid ts in
      let read : s.read_finished ≡ true =
        subst (λ p. ReaderKnows tid id p s.write_counter s.read_finished) e (v.reader_knows id) in
      let ten = v.full read in
      (ten, array_text-row s.shared_array s.write_counter v.filled ∙ ap row ten)
