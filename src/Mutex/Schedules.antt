-- ===== src/Mutex/Schedules.antt =====
-- What the threads of lab8_mtx/main.c guarantee under every schedule.
use secured_operation_system.Base.{
  ℕ, ◌+◌, ◌≤◌, ◌≡◌, refl, ap, ◌∙◌, true, false, Option, none, some, List, [], ◌∷◌, arith,
}
use mathlib.Core.Path.{subst}
use secured_operation_system.Mutex.System.{
  buffer_size, reader_finished, State, first, initial, step, run,
}
use secured_operation_system.Threads.Owner.{Thread, writer, reader}
use secured_operation_system.Threads.Owner.{reader_alone, reader_excludes}
use secured_operation_system.Mutex.Invariant.{
  writer_inside, reader_inside, ReaderKnows, listed, IsValid, initial-IsValid, OnSome,
}
use secured_operation_system.Mutex.Writer.{writer_step-IsValid}
use secured_operation_system.Mutex.Reader.{reader_step-IsValid, first_filled}

step-IsValid : (t : Thread) (s : State) → IsValid s → OnSome IsValid (step t s)
unfolding step
step-IsValid writer s v = writer_step-IsValid s s.writer_at refl v
step-IsValid (reader id) s v = reader_step-IsValid s id (s.reader_at id) refl v

run-IsValid : (ts : List Thread) (s : State) → IsValid s → IsValid (run ts s)
unfolding run
run-IsValid [] s v = v
run-IsValid (t ∷ ts) s v =
    by_step (step t s) (step-IsValid t s v) (run-IsValid ts s v) (λ s' h. run-IsValid ts s' h)
  where
    by_step :
        (o : Option State)
        → OnSome IsValid o
        → IsValid (run ts s)
        → ((s' : State) → IsValid s' → IsValid (run ts s'))
        → IsValid (elim o [ none ↦ run ts s | some s' ↦ run ts s' ])
    by_step none h stay go = stay
    by_step (some s') h stay go = go s' h

-- The state after a schedule of the threads.
abbrev pub after : List Thread → State
after ts = run ts initial

-- Under every schedule the lock has the owner that stands behind it, the position stays in the
-- buffer, the elements before it are 1, 2, 3 and so on, and what was printed is true of what was
-- printed before: the writer adds 1, 2, 3 and so on in turn; a listing, which a reader prints
-- element by element while other threads may print too, has at its end shown exactly the elements
-- that were added before, each once and in order; and the last line of a thread stands behind all
-- ten.
pub after-IsValid : (ts : List Thread) → IsValid (after ts)
after-IsValid ts = run-IsValid ts initial initial-IsValid

-- Under every schedule no two readers stand between their lock and their unlock, and no reader does
-- while the writer does.
after-alone :
    (ts : List Thread) (id : ℕ)
    → reader_inside ((after ts).reader_at id) ≡ true
    → (writer_inside (after ts).writer_at ≡ false)
      × ((j : ℕ) → reader_inside ((after ts).reader_at j) ≡ true → id ≡ j)
after-alone ts id h =
    let o = (after-IsValid ts).owned in (reader_excludes id o h, λ j q. reader_alone id j o h q)

-- Under every schedule, a reader that has ended has left a full buffer behind: all ten elements are
-- written, and each is its index and one.
pub after-finished :
    (ts : List Thread) (id : ℕ)
    → (after ts).reader_at id ≡ reader_finished
    → ((after ts).write_position ≡ buffer_size)
      × (first (after ts).shared_data (after ts).write_position ≡ first (λ i. i + 1) buffer_size)
after-finished ts id e =
    let v = after-IsValid ts in
    let full : buffer_size ≤ (after ts).write_position =
      subst (λ p. ReaderKnows p (after ts).write_position (listed id (after ts).printed)) e
        (v.reader_knows id) in
    let ten : (after ts).write_position ≡ buffer_size = omega (arith, full, v.bound) in
    (
      ten,
      first_filled (after ts).shared_data (after ts).write_position v.filled
          ∙ ap (first (λ i. i + 1)) ten,
    )
