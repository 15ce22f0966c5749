-- ===== src/CondVar/Writer.antt =====
-- `writer_thread` of lab11_condvar/condvar.c keeps the invariant.
use secured_operation_system.Base.{
  ℕ, ◌+◌, ◌-◌, ◌≤◌, ◌<◌, ◌≡◌, inl, inr, refl, true, false, Option, none, some, ltb, ◌==◌, arith,
  Bool-cases, ==_eq, if_cases, fun_ext,
}
use mathlib.Core.Path.{subst}
use secured_operation_system.Threads.Family.{set_all, at_each-set_same}
use secured_operation_system.Threads.Owner.{Thread, writer, Owned, writer_locks, writer_unlocks}
use secured_operation_system.Threads.Letters.{array_size}
use secured_operation_system.CondVar.System.{
  WriterAt, starting, testing, locking, storing, publishing, signaling, unlocking, last_locking,
  flagging, broadcasting, last_unlocking, ending, writer_finished, State, lock, woken, writer_step,
}
use secured_operation_system.CondVar.Knows.{
  woken-inside, woken-not_sleeping, woken-ReaderKnows, ReaderKnows-rise,
}
use secured_operation_system.CondVar.Invariant.{
  writer_inside, reader_inside, Rising-le, Fresh, WriterKnows, ReaderKnows, IsValid, OnSome,
}

module _ (s : State) (v : IsValid s) where
  Owned-at :
      (place : WriterAt)
      → s.writer_at ≡ place
      → Owned s.mutex (writer_inside place) (λ id. reader_inside (s.reader_at id))
  Owned-at place e =
      subst (λ p. Owned s.mutex (writer_inside p) (λ id. reader_inside (s.reader_at id))) e v.owned

  WriterKnows-at :
      (place : WriterAt)
      → s.writer_at ≡ place
      → WriterKnows place s.write_counter s.shared_array s.all_written s.reader_at
  WriterKnows-at place e =
      subst (λ p. WriterKnows p s.write_counter s.shared_array s.all_written s.reader_at) e
        v.writer_knows

  -- Only the place of the writer changes.
  writer_moves :
      (place next : WriterAt)
      → s.writer_at ≡ place
      → writer_inside next ≡ writer_inside place
      → WriterKnows next s.write_counter s.shared_array s.all_written s.reader_at
      → IsValid (record s { writer_at = next })
  writer_moves place next e same k = record {
    bound = v.bound;
    filled = v.filled;
    full = v.full;
    owned = rw same (Owned-at place e);
    writer_knows = k;
    reader_knows = v.reader_knows;
    fresh = v.fresh;
    rising = v.rising;
    lines = v.lines;
  }

  -- The two locks.
  writer_enters :
      (place next : WriterAt)
      → s.writer_at ≡ place
      → writer_inside place ≡ false
      → writer_inside next ≡ true
      → WriterKnows next s.write_counter s.shared_array s.all_written s.reader_at
      → OnSome IsValid (lock s writer (record s { writer_at = next }))
  writer_enters place next e out inside k = by_lock s.mutex (rw out at (Owned-at place e))
    where
      by_lock :
          (l : Option Thread)
          → Owned l false (λ id. reader_inside (s.reader_at id))
          → OnSome IsValid (elim l [
            | none ↦ some (record s { writer_at = next; mutex = some writer })
            | some _ ↦ none
          ])
      by_lock none o = record {
        bound = v.bound;
        filled = v.filled;
        full = v.full;
        owned = rw inside (writer_locks o);
        writer_knows = k;
        reader_knows = v.reader_knows;
        fresh = v.fresh;
        rising = v.rising;
        lines = v.lines;
      }
      by_lock (some t) o = tt

  -- The two unlocks.
  writer_leaves :
      (place next : WriterAt)
      → s.writer_at ≡ place
      → writer_inside place ≡ true
      → writer_inside next ≡ false
      → WriterKnows next s.write_counter s.shared_array s.all_written s.reader_at
      → IsValid (record s { mutex = none; writer_at = next })
  writer_leaves place next e inside out k = record {
    bound = v.bound;
    filled = v.filled;
    full = v.full;
    owned = rw out (writer_unlocks (rw inside at (Owned-at place e)));
    writer_knows = k;
    reader_knows = v.reader_knows;
    fresh = v.fresh;
    rising = v.rising;
    lines = v.lines;
  }

  writer_stores : s.writer_at ≡ storing → OnSome IsValid (writer_step 0 storing s)
  unfolding writer_step
  writer_stores e =
      let lt : s.write_counter < array_size = WriterKnows-at storing e in
      record {
        bound = v.bound;
        filled = λ i h. ground (arith, v.filled i h);
        full = v.full;
        owned = Owned-at storing e;
        writer_knows = (lt, ground arith);
        reader_knows = v.reader_knows;
        fresh = v.fresh;
        rising = v.rising;
        lines = ((refl, lt), v.lines);
      }

  Fresh-more : Fresh (s.write_counter + 1) s.printed
  Fresh-more = (
    omega arith,
    Rising-le s.write_counter (s.write_counter + 1 - 1) s.printed (omega arith) v.rising,
  )

  writer_publishes : s.writer_at ≡ publishing → OnSome IsValid (writer_step 0 publishing s)
  unfolding writer_step
  writer_publishes e =
      let (lt, here) = WriterKnows-at publishing e in
      record {
        bound = omega arith;
        filled = λ i h. elim (Bool-cases (i == s.write_counter)) [
          | inl q ↦ rw (==_eq i s.write_counter q) here
          | inr q ↦ v.filled i (ground arith)
        ];
        full = λ q. absurd (omega (arith, v.full q));
        owned = Owned-at publishing e;
        writer_knows = tt;
        reader_knows = λ id.
            ReaderKnows-rise s.data_available s.all_written (Fresh s.write_counter s.printed) true
              s.all_written (Fresh (s.write_counter + 1) s.printed) (λ q. q) refl (λ _. Fresh-more)
              (s.reader_at id) (v.reader_knows id);
        fresh = λ _. inr Fresh-more;
        rising = Rising-le s.write_counter (s.write_counter + 1) s.printed (omega arith) v.rising;
        lines = v.lines;
      }

  writer_flags : s.writer_at ≡ flagging → OnSome IsValid (writer_step 0 flagging s)
  unfolding writer_step
  writer_flags e =
      let ge : array_size ≤ s.write_counter = WriterKnows-at flagging e in
      record {
        bound = v.bound;
        filled = v.filled;
        full = λ _. omega (arith, v.bound);
        owned = Owned-at flagging e;
        writer_knows = refl;
        reader_knows = λ id.
            ReaderKnows-rise s.data_available s.all_written (Fresh s.write_counter s.printed) true
              true (Fresh s.write_counter s.printed) (λ _. refl) refl (λ q. q) (s.reader_at id)
              (v.reader_knows id);
        fresh = λ _. inl refl;
        rising = v.rising;
        lines = v.lines;
      }

  writer_signals :
      (chosen : ℕ) → s.writer_at ≡ signaling → OnSome IsValid (writer_step chosen signaling s)
  unfolding writer_step
  writer_signals chosen e = record {
    bound = v.bound;
    filled = v.filled;
    full = v.full;
    owned =
        rw
          (at_each-set_same reader_inside s.reader_at chosen (woken (s.reader_at chosen))
            (woken-inside (s.reader_at chosen)))
          (Owned-at signaling e);
    writer_knows = tt;
    reader_knows =
        set_all
          (λ p. ReaderKnows p s.data_available s.all_written (Fresh s.write_counter s.printed))
          s.reader_at chosen (woken (s.reader_at chosen))
          (woken-ReaderKnows s.data_available s.all_written (Fresh s.write_counter s.printed)
            (s.reader_at chosen) (v.reader_knows chosen))
          v.reader_knows;
    fresh = v.fresh;
    rising = v.rising;
    lines = v.lines;
  }

  writer_broadcasts : s.writer_at ≡ broadcasting → OnSome IsValid (writer_step 0 broadcasting s)
  unfolding writer_step
  writer_broadcasts e = record {
    bound = v.bound;
    filled = v.filled;
    full = v.full;
    owned = rw (fun_ext λ id. woken-inside (s.reader_at id)) (Owned-at broadcasting e);
    writer_knows = (WriterKnows-at broadcasting e, λ id. woken-not_sleeping (s.reader_at id));
    reader_knows = λ id.
        woken-ReaderKnows s.data_available s.all_written (Fresh s.write_counter s.printed)
          (s.reader_at id) (v.reader_knows id);
    fresh = v.fresh;
    rising = v.rising;
    lines = v.lines;
  }

  writer_starts : s.writer_at ≡ starting → OnSome IsValid (writer_step 0 starting s)
  unfolding writer_step
  writer_starts e = record {
    bound = v.bound;
    filled = v.filled;
    full = v.full;
    owned = Owned-at starting e;
    writer_knows = tt;
    reader_knows = v.reader_knows;
    fresh = v.fresh;
    rising = v.rising;
    lines = (tt, v.lines);
  }

  writer_ends : s.writer_at ≡ ending → OnSome IsValid (writer_step 0 ending s)
  unfolding writer_step
  writer_ends e = record {
    bound = v.bound;
    filled = v.filled;
    full = v.full;
    owned = Owned-at ending e;
    writer_knows = WriterKnows-at ending e;
    reader_knows = v.reader_knows;
    fresh = v.fresh;
    rising = v.rising;
    lines = (tt, v.lines);
  }

pub writer_step-IsValid :
    (chosen : ℕ) (s : State) (place : WriterAt)
    → s.writer_at ≡ place
    → IsValid s
    → OnSome IsValid (writer_step chosen place s)
unfolding writer_step
writer_step-IsValid c s starting e v = writer_starts s v e
writer_step-IsValid c s testing e v =
    if_cases IsValid (ltb s.write_counter array_size)
      (λ h. writer_moves s v testing locking e refl (ground arith))
      (λ h. writer_moves s v testing last_locking e refl (ground arith))
writer_step-IsValid c s locking e v =
    writer_enters s v locking storing e refl refl (WriterKnows-at s v locking e)
writer_step-IsValid c s storing e v = writer_stores s v e
writer_step-IsValid c s publishing e v = writer_publishes s v e
writer_step-IsValid c s signaling e v = writer_signals s v c e
writer_step-IsValid c s unlocking e v = writer_leaves s v unlocking testing e refl refl tt
writer_step-IsValid c s last_locking e v =
    writer_enters s v last_locking flagging e refl refl (WriterKnows-at s v last_locking e)
writer_step-IsValid c s flagging e v = writer_flags s v e
writer_step-IsValid c s broadcasting e v = writer_broadcasts s v e
writer_step-IsValid c s last_unlocking e v =
    writer_leaves s v last_unlocking ending e refl refl (WriterKnows-at s v last_unlocking e)
writer_step-IsValid c s ending e v = writer_ends s v e
writer_step-IsValid c s writer_finished e v = tt
