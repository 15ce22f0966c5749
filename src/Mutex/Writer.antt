-- ===== src/Mutex/Writer.antt =====
-- `writer_routine` of lab8_mtx/main.c keeps the invariant.
use secured_operation_system.Base.{
  ℕ, ◌+◌, ◌<◌, ◌≡◌, ◌∙◌, refl, false, Option, none, some, List, ltb, ◌==◌, arith, Bool-cases, ==_eq,
  inl, inr, if_cases,
}
use mathlib.Core.Path.{subst}
use secured_operation_system.Threads.Owner.{Owned, writer_locks, writer_unlocks}
use secured_operation_system.Mutex.System.{
  buffer_size, WriterAt, testing, locking, deciding, storing, advancing, unlocking, writer_finished,
  ReaderAt, waiting, printing, listing, separating, checking, leaving, ending, releasing,
  reader_finished, Line, State, lock, writer_step,
}
use secured_operation_system.Threads.Owner.{Thread, writer}
use secured_operation_system.Mutex.Invariant.{
  writer_inside, reader_inside, WriterKnows, ReaderKnows, adds, listed, AllTrue, pending, IsValid,
  OnSome,
}

module _ (s : State) (v : IsValid s) where
  Owned-at :
      (place : WriterAt)
      → s.writer_at ≡ place
      → Owned s.buffer_lock (writer_inside place) (λ id. reader_inside (s.reader_at id))
  Owned-at place e =
      subst (λ p. Owned s.buffer_lock (writer_inside p) (λ id. reader_inside (s.reader_at id))) e
        v.owned

  WriterKnows-at :
      (place : WriterAt) → s.writer_at ≡ place → WriterKnows place s.write_position s.shared_data
  WriterKnows-at place e =
      subst (λ p. WriterKnows p s.write_position s.shared_data) e v.writer_knows

  counts-at :
      (place : WriterAt) → s.writer_at ≡ place → adds s.printed ≡ s.write_position + pending place
  counts-at place e = subst (λ p. adds s.printed ≡ s.write_position + pending p) e v.counts

  -- Only the place of the writer and the output change.
  writer_moves :
      (place next : WriterAt) (more : List Line)
      → s.writer_at ≡ place
      → writer_inside next ≡ writer_inside place
      → WriterKnows next s.write_position s.shared_data
      → pending next ≡ pending place
      → adds more ≡ adds s.printed
      → ((j : ℕ) → listed j more ≡ listed j s.printed)
      → AllTrue more
      → IsValid (record s { writer_at = next; printed = more })
  writer_moves place next more e same k still lines_kept same_lists l = record {
    bound = v.bound;
    filled = v.filled;
    owned = rw same (Owned-at place e);
    writer_knows = k;
    reader_knows = λ j. rw (same_lists j) (v.reader_knows j);
    counts = rw still (lines_kept ∙ counts-at place e);
    lines = l;
  }

  writer_enters :
      s.writer_at ≡ locking → OnSome IsValid (lock s writer (record s { writer_at = deciding }))
  writer_enters e = by_lock s.buffer_lock (Owned-at locking e)
    where
      by_lock :
          (l : Option Thread)
          → Owned l false (λ id. reader_inside (s.reader_at id))
          → OnSome IsValid (elim l [
            | none ↦ some (record s { writer_at = deciding; buffer_lock = some writer })
            | some _ ↦ none
          ])
      by_lock none o = record {
        bound = v.bound;
        filled = v.filled;
        owned = writer_locks o;
        writer_knows = tt;
        reader_knows = v.reader_knows;
        counts = counts-at locking e;
        lines = v.lines;
      }
      by_lock (some t) o = tt

  writer_stores : s.writer_at ≡ storing → OnSome IsValid (writer_step storing s)
  unfolding writer_step
  writer_stores e =
      let lt : s.write_position < buffer_size = WriterKnows-at storing e in
      record {
        bound = v.bound;
        filled = λ i h. ground (arith, v.filled i h);
        owned = Owned-at storing e;
        writer_knows = (lt, ground arith);
        reader_knows = v.reader_knows;
        counts = omega (arith, counts-at storing e);
        lines = ((refl, omega (arith, counts-at storing e), lt), v.lines);
      }

  ReaderKnows-more :
      (place : ReaderAt) (n : ℕ) (shown : List ℕ)
      → ReaderKnows place n shown
      → ReaderKnows place (n + 1) shown
  ReaderKnows-more (listing i) n shown (h, e) = (omega arith, e)
  ReaderKnows-more (separating i) n shown (h, e) = (omega arith, e)
  ReaderKnows-more leaving n shown h = omega arith
  ReaderKnows-more ending n shown h = omega arith
  ReaderKnows-more reader_finished n shown h = omega arith
  ReaderKnows-more waiting n shown h = tt
  ReaderKnows-more printing n shown h = tt
  ReaderKnows-more checking n shown h = tt
  ReaderKnows-more releasing n shown h = tt

  writer_advances : s.writer_at ≡ advancing → OnSome IsValid (writer_step advancing s)
  unfolding writer_step
  writer_advances e =
      let (lt, here) = WriterKnows-at advancing e in
      record {
        bound = omega arith;
        filled = λ i h. elim (Bool-cases (i == s.write_position)) [
          | inl q ↦ rw (==_eq i s.write_position q) here
          | inr q ↦ v.filled i (ground arith)
        ];
        owned = Owned-at advancing e;
        writer_knows = tt;
        reader_knows = λ id.
            ReaderKnows-more (s.reader_at id) s.write_position (listed id s.printed)
              (v.reader_knows id);
        counts = omega (arith, counts-at advancing e);
        lines = v.lines;
      }

  writer_leaves : s.writer_at ≡ unlocking → OnSome IsValid (writer_step unlocking s)
  unfolding writer_step
  writer_leaves e = record {
    bound = v.bound;
    filled = v.filled;
    owned = writer_unlocks (Owned-at unlocking e);
    writer_knows = tt;
    reader_knows = v.reader_knows;
    counts = counts-at unlocking e;
    lines = v.lines;
  }

pub writer_step-IsValid :
    (s : State) (place : WriterAt)
    → s.writer_at ≡ place
    → IsValid s
    → OnSome IsValid (writer_step place s)
unfolding writer_step
writer_step-IsValid s testing e v =
    if_cases IsValid (ltb s.write_position buffer_size)
      (λ _. writer_moves s v testing locking s.printed e refl tt refl refl (λ j. refl) v.lines)
      (λ h.
        writer_moves s v testing writer_finished _ e refl (ground arith) refl refl (λ j. refl)
          ((ground (arith, v.bound), ground (arith, v.bound, counts-at s v testing e)), v.lines))
writer_step-IsValid s locking e v = writer_enters s v e
writer_step-IsValid s deciding e v =
    if_cases IsValid (ltb s.write_position buffer_size)
      (λ h.
        writer_moves s v deciding storing s.printed e refl (ground arith) refl refl (λ j. refl)
          v.lines)
      (λ _. writer_moves s v deciding unlocking s.printed e refl tt refl refl (λ j. refl) v.lines)
writer_step-IsValid s storing e v = writer_stores s v e
writer_step-IsValid s advancing e v = writer_advances s v e
writer_step-IsValid s unlocking e v = writer_leaves s v e
writer_step-IsValid s writer_finished e v = tt
