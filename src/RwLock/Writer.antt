-- ===== src/RwLock/Writer.antt =====
-- `writer_thread` of lab10_rwlock/rwlock.c keeps the invariant.
use secured_operation_system.Base.{
  ℕ, ◌+◌, ◌-◌, ◌≤◌, ◌<◌, ◌≡◌, refl, ap, ◌∙◌, true, false, not, ◌||◌, ltb, ◌==◌, arith, Bool-cases,
  ==_eq, inl, inr, if_cases,
}
use mathlib.Core.Path.{subst}
use secured_operation_system.Threads.Letters.{array_size}
use secured_operation_system.RwLock.System.{
  WriterAt, testing, locking, deciding, storing, advancing, telling, unlocking, last_locking,
  flagging, last_unlocking, writer_finished, State, is_empty, wrlock, write_unlock, writer_step,
}
use secured_operation_system.RwLock.Invariant.{
  writer_inside, WriterKnows, writes, pending, IsValid, OnSome, all_outside, eq_of_is_empty,
}

module _ (tid : ℕ → ℕ) (s : State) (v : IsValid tid s) where
  inside-at : (place : WriterAt) → s.writer_at ≡ place → writer_inside place ≡ s.rwlock.write_held
  inside-at place e = subst (λ p. writer_inside p ≡ s.rwlock.write_held) e v.writer_in

  WriterKnows-at :
      (place : WriterAt) → s.writer_at ≡ place → WriterKnows place s.write_counter s.shared_array
  WriterKnows-at place e =
      subst (λ p. WriterKnows p s.write_counter s.shared_array) e v.writer_knows

  counts-at :
      (place : WriterAt) → s.writer_at ≡ place → s.write_counter ≡ writes s.printed + pending place
  counts-at place e = subst (λ p. s.write_counter ≡ writes s.printed + pending p) e v.counts

  -- Only the place of the writer changes.
  writer_moves :
      (place next : WriterAt)
      → s.writer_at ≡ place
      → writer_inside next ≡ writer_inside place
      → WriterKnows next s.write_counter s.shared_array
      → s.write_counter ≡ writes s.printed + pending next
      → IsValid tid (record s { writer_at = next })
  writer_moves place next e same k counted = record {
    bound = v.bound;
    filled = v.filled;
    full = v.full;
    writer_in = same ∙ inside-at place e;
    readers_in = v.readers_in;
    excludes = v.excludes;
    writer_knows = k;
    reader_knows = v.reader_knows;
    counts = counted;
    lines = v.lines;
  }

  -- The two locks.
  writer_enters :
      (next : WriterAt)
      → writer_inside next ≡ true
      → WriterKnows next s.write_counter s.shared_array
      → s.write_counter ≡ writes s.printed + pending next
      → OnSome tid (wrlock s (record s { writer_at = next }))
  writer_enters next inside k counted =
      if_cases (OnSome tid) (s.rwlock.write_held || not (is_empty s.rwlock.read_held)) (λ _. tt)
        (λ free. record {
          bound = v.bound;
          filled = v.filled;
          full = v.full;
          writer_in = inside;
          readers_in = v.readers_in;
          excludes = λ _. eq_of_is_empty s.rwlock.read_held (ground arith);
          writer_knows = k;
          reader_knows = v.reader_knows;
          counts = counted;
          lines = v.lines;
        })

  -- The two unlocks.
  writer_leaves :
      (next : WriterAt)
      → writer_inside next ≡ false
      → WriterKnows next s.write_counter s.shared_array
      → s.write_counter ≡ writes s.printed + pending next
      → IsValid tid (write_unlock (record s { writer_at = next }))
  writer_leaves next out k counted = record {
    bound = v.bound;
    filled = v.filled;
    full = v.full;
    writer_in = out;
    readers_in = v.readers_in;
    excludes = λ e. absurd (ground arith);
    writer_knows = k;
    reader_knows = v.reader_knows;
    counts = counted;
    lines = v.lines;
  }

  writer_stores : s.writer_at ≡ storing → OnSome tid (writer_step storing s)
  unfolding writer_step
  writer_stores e =
      let lt : s.write_counter < array_size = WriterKnows-at storing e in
      record {
        bound = v.bound;
        filled = λ i h. ground (arith, v.filled i h);
        full = v.full;
        writer_in = inside-at storing e;
        readers_in = v.readers_in;
        excludes = v.excludes;
        writer_knows = (lt, ground arith);
        reader_knows = v.reader_knows;
        counts = counts-at storing e;
        lines = v.lines;
      }

  writer_advances : s.writer_at ≡ advancing → OnSome tid (writer_step advancing s)
  unfolding writer_step
  writer_advances e =
      let (lt, here) = WriterKnows-at advancing e in
      record {
        bound = omega arith;
        filled = λ i h. elim (Bool-cases (i == s.write_counter)) [
          | inl q ↦ rw (==_eq i s.write_counter q) here
          | inr q ↦ v.filled i (ground arith)
        ];
        full = λ q. absurd (omega (arith, v.full q));
        writer_in = inside-at advancing e;
        readers_in = v.readers_in;
        excludes = v.excludes;
        writer_knows = omega arith;
        reader_knows =
            all_outside tid s v (ap writer_inside e) (s.write_counter + 1) s.read_finished (λ q. q);
        counts = omega (arith, counts-at advancing e);
        lines = v.lines;
      }

  writer_tells : s.writer_at ≡ telling → OnSome tid (writer_step telling s)
  unfolding writer_step
  writer_tells e =
      let pos : 0 < s.write_counter = WriterKnows-at telling e in
      record {
        bound = v.bound;
        filled = v.filled;
        full = v.full;
        writer_in = inside-at telling e;
        readers_in = v.readers_in;
        excludes = v.excludes;
        writer_knows = tt;
        reader_knows = v.reader_knows;
        counts = omega (arith, counts-at telling e);
        lines = (
          v.filled (s.write_counter - 1) (omega arith),
          omega (arith, counts-at telling e),
          omega (arith, v.bound),
          v.lines,
        );
      }

  writer_flags : s.writer_at ≡ flagging → OnSome tid (writer_step flagging s)
  unfolding writer_step
  writer_flags e =
      let ge : array_size ≤ s.write_counter = WriterKnows-at flagging e in
      record {
        bound = v.bound;
        filled = v.filled;
        full = λ _. omega (arith, v.bound);
        writer_in = inside-at flagging e;
        readers_in = v.readers_in;
        excludes = v.excludes;
        writer_knows = tt;
        reader_knows = all_outside tid s v (ap writer_inside e) s.write_counter true (λ _. refl);
        counts = counts-at flagging e;
        lines = v.lines;
      }

pub writer_step-IsValid :
    (tid : ℕ → ℕ) (s : State) (place : WriterAt)
    → s.writer_at ≡ place
    → IsValid tid s
    → OnSome tid (writer_step place s)
unfolding writer_step
writer_step-IsValid tid s testing e v =
    if_cases (IsValid tid) (ltb s.write_counter array_size)
      (λ h.
        writer_moves tid s v testing locking e refl (ground arith) (counts-at tid s v testing e))
      (λ h.
        writer_moves tid s v testing last_locking e refl (ground arith)
          (counts-at tid s v testing e))
writer_step-IsValid tid s locking e v =
    writer_enters tid s v deciding refl tt (counts-at tid s v locking e)
writer_step-IsValid tid s deciding e v =
    if_cases (IsValid tid) (ltb s.write_counter array_size)
      (λ h.
        writer_moves tid s v deciding storing e refl (ground arith) (counts-at tid s v deciding e))
      (λ h. writer_moves tid s v deciding unlocking e refl tt (counts-at tid s v deciding e))
writer_step-IsValid tid s storing e v = writer_stores tid s v e
writer_step-IsValid tid s advancing e v = writer_advances tid s v e
writer_step-IsValid tid s telling e v = writer_tells tid s v e
writer_step-IsValid tid s unlocking e v =
    writer_leaves tid s v testing refl tt (counts-at tid s v unlocking e)
writer_step-IsValid tid s last_locking e v =
    writer_enters tid s v flagging refl (WriterKnows-at tid s v last_locking e)
      (counts-at tid s v last_locking e)
writer_step-IsValid tid s flagging e v = writer_flags tid s v e
writer_step-IsValid tid s last_unlocking e v =
    writer_leaves tid s v writer_finished refl tt (counts-at tid s v last_unlocking e)
writer_step-IsValid tid s writer_finished e v = tt
