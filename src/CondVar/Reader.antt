-- ===== src/CondVar/Reader.antt =====
-- `reader_thread` of lab11_condvar/condvar.c keeps the invariant, and so does a wake-up.
use secured_operation_system.Base.{
  ℕ, ◌≡◌, ◌⊎◌, ap, ◌∙◌, sym, inl, inr, refl, true, false, not, ◌&&◌, ◌||◌, Option, none, some, ◌==◌,
  arith, Bool-cases, if_cases,
}
use mathlib.Core.Path.{subst}
use secured_operation_system.Threads.Family.{set, set_all, at_each-set, at_each-set_same}
use secured_operation_system.Threads.Owner.{
  Thread, reader, Owned, reader_locks, reader_unlocks, reader_alone,
}
use secured_operation_system.Threads.Letters.{array_size, array_text-row}
use secured_operation_system.CondVar.System.{
  ReaderAt, reader_starting, reader_locking, waiting, sleeping, relocking, checking, leaving,
  reader_ending, printing, releasing, reader_finished, State, lock, woken, move, reader_step,
}
use secured_operation_system.CondVar.Invariant.{
  writer_inside, reader_inside, is_sleeping, Fresh, WriterKnows, ReaderKnows, IsValid, OnSome,
}
use secured_operation_system.CondVar.Knows.{
  WriterKnows-set, ReaderKnows-outside, woken-inside, woken-not_sleeping, woken-ReaderKnows,
}

module _ (s : State) (v : IsValid s) (id : ℕ) where
  -- What the places say of the state as it is.
  abbrev Knows : ReaderAt → Type 0
  Knows place = ReaderKnows place s.data_available s.all_written (Fresh s.write_counter s.printed)

  Knows-at : (place : ReaderAt) → s.reader_at id ≡ place → Knows place
  Knows-at place e = subst (λ p. Knows p) e (v.reader_knows id)

  all_know : (next : ReaderAt) → Knows next → (j : ℕ) → Knows (set s.reader_at id next j)
  all_know next k = set_all (λ p. Knows p) s.reader_at id next k v.reader_knows

  writer_still :
      (next : ReaderAt)
      → (s.all_written ≡ true → is_sleeping next ≡ false)
      → WriterKnows s.writer_at s.write_counter s.shared_array s.all_written
          (set s.reader_at id next)
  writer_still next h =
      WriterKnows-set s.writer_at s.write_counter s.shared_array s.all_written s.reader_at id next h
        v.writer_knows

  inside_same :
      (next : ReaderAt)
      → reader_inside next ≡ reader_inside (s.reader_at id)
      → Owned s.mutex (writer_inside s.writer_at) (λ j. reader_inside (set s.reader_at id next j))
  inside_same next same = rw (at_each-set_same reader_inside s.reader_at id next same) v.owned

  -- Only the place of the reader changes.
  pub reader_moves :
      (next : ReaderAt)
      → reader_inside next ≡ reader_inside (s.reader_at id)
      → is_sleeping next ≡ false
      → Knows next
      → IsValid (move s id next)
  reader_moves next same up k = record {
    bound = v.bound;
    filled = v.filled;
    full = v.full;
    owned = inside_same next same;
    writer_knows = writer_still next (λ _. up);
    reader_knows = all_know next k;
    fresh = v.fresh;
    rising = v.rising;
    lines = v.lines;
  }

  reader_enters : OnSome IsValid (lock s (reader id) (move s id waiting))
  reader_enters = by_lock s.mutex v.owned
    where
      by_lock :
          (l : Option Thread)
          → Owned l (writer_inside s.writer_at) (λ j. reader_inside (s.reader_at j))
          → OnSome IsValid (elim l [
            | none ↦ some (record (move s id waiting) { mutex = some (reader id) })
            | some _ ↦ none
          ])
      by_lock none o = record {
        bound = v.bound;
        filled = v.filled;
        full = v.full;
        owned = rw (at_each-set reader_inside s.reader_at id waiting) (reader_locks id o);
        writer_knows = writer_still waiting (λ _. refl);
        reader_knows = all_know waiting tt;
        fresh = v.fresh;
        rising = v.rising;
        lines = v.lines;
      }
      by_lock (some t) o = tt

  -- The unlocks, that of `pthread_cond_wait` too.
  reader_leaves :
      (place next : ReaderAt)
      → s.reader_at id ≡ place
      → reader_inside place ≡ true
      → reader_inside next ≡ false
      → (s.all_written ≡ true → is_sleeping next ≡ false)
      → Knows next
      → IsValid (record (move s id next) { mutex = none })
  reader_leaves place next e inside out up k = record {
    bound = v.bound;
    filled = v.filled;
    full = v.full;
    owned =
        rw (at_each-set reader_inside s.reader_at id next)
          (rw out (reader_unlocks id (ap reader_inside e ∙ inside) v.owned));
    writer_knows = writer_still next up;
    reader_knows = all_know next k;
    fresh = v.fresh;
    rising = v.rising;
    lines = v.lines;
  }

  reader_starts :
      s.reader_at id ≡ reader_starting → OnSome IsValid (reader_step id reader_starting s)
  unfolding reader_step
  reader_starts e = record {
    bound = v.bound;
    filled = v.filled;
    full = v.full;
    owned = inside_same reader_locking (sym (ap reader_inside e));
    writer_knows = writer_still reader_locking (λ _. refl);
    reader_knows = all_know reader_locking tt;
    fresh = v.fresh;
    rising = v.rising;
    lines = (tt, v.lines);
  }

  reader_ends : s.reader_at id ≡ reader_ending → OnSome IsValid (reader_step id reader_ending s)
  unfolding reader_step
  reader_ends e = record {
    bound = v.bound;
    filled = v.filled;
    full = v.full;
    owned = inside_same reader_finished (sym (ap reader_inside e));
    writer_knows = writer_still reader_finished (λ _. refl);
    reader_knows = all_know reader_finished (Knows-at reader_ending e);
    fresh = v.fresh;
    rising = v.rising;
    lines = (tt, v.lines);
  }

  -- The reader that prints is alone, so no other one counts on what it takes.
  reader_prints : s.reader_at id ≡ printing → OnSome IsValid (reader_step id printing s)
  unfolding reader_step
  reader_prints e =
      let (pos, below) = Knows-at printing e in
      let inside : reader_inside (s.reader_at id) ≡ true = ap reader_inside e in
      record {
        bound = v.bound;
        filled = v.filled;
        full = v.full;
        owned = inside_same releasing (sym inside);
        writer_knows = writer_still releasing (λ _. refl);
        reader_knows = λ j. elim (Bool-cases (j == id)) [
          | inl q ↦ rw q tt
          | inr q ↦ rw q (
              ReaderKnows-outside (s.reader_at j) s.data_available false s.all_written _ _
                (outside j q inside) (v.reader_knows j))
        ];
        fresh = λ q. absurd (ground arith);
        rising = (
          s.write_counter,
          pos,
          omega arith,
          array_text-row s.shared_array s.write_counter v.filled,
          below,
        );
        lines = (tt, v.lines);
      }
    where
      outside :
          (j : ℕ)
          → (j == id) ≡ false
          → reader_inside (s.reader_at id) ≡ true
          → reader_inside (s.reader_at j) ≡ false
      outside j q inside = elim (Bool-cases (reader_inside (s.reader_at j))) [
        | inl in_too ↦
            absurd (
              let same : id ≡ j = reader_alone id j v.owned inside in_too in
              ground (arith, same, q))
        | inr out ↦ out
      ]

  reader_checks : s.reader_at id ≡ checking → OnSome IsValid (reader_step id checking s)
  unfolding reader_step
  reader_checks e =
      if_cases IsValid (s.all_written && s.write_counter == array_size)
        (λ h. reader_moves leaving (sym (ap reader_inside e)) refl (ground arith))
        (λ h.
          reader_moves printing (sym (ap reader_inside e)) refl
            (new h (Knows-at checking e) v.full v.fresh))
    where
      new :
          (s.all_written && s.write_counter == array_size) ≡ false
          → (s.data_available || s.all_written) ≡ true
          → (s.all_written ≡ true → s.write_counter ≡ array_size)
          → (s.data_available ≡ true → (s.all_written ≡ true) ⊎ Fresh s.write_counter s.printed)
          → Fresh s.write_counter s.printed
      new h k full fresh = elim (Bool-cases s.all_written) [
        | inl w ↦ absurd (ground (arith, full w))
        | inr w ↦ elim (fresh (ground arith)) [ inl w' ↦ absurd (ground arith) | inr f ↦ f ]
      ]

pub reader_step-IsValid :
    (s : State) (id : ℕ) (place : ReaderAt)
    → s.reader_at id ≡ place
    → IsValid s
    → OnSome IsValid (reader_step id place s)
unfolding reader_step
reader_step-IsValid s id reader_starting e v = reader_starts s v id e
reader_step-IsValid s id reader_locking e v = reader_enters s v id
reader_step-IsValid s id waiting e v =
    if_cases IsValid (not s.data_available && not s.all_written)
      (λ h. reader_leaves s v id waiting sleeping e refl refl (λ w. absurd (ground arith)) tt)
      (λ h. reader_moves s v id checking (sym (ap reader_inside e)) refl (ground arith))
reader_step-IsValid s id sleeping e v = tt
reader_step-IsValid s id relocking e v = reader_enters s v id
reader_step-IsValid s id checking e v = reader_checks s v id e
reader_step-IsValid s id leaving e v =
    reader_leaves s v id leaving reader_ending e refl refl (λ _. refl) (Knows-at s v id leaving e)
reader_step-IsValid s id reader_ending e v = reader_ends s v id e
reader_step-IsValid s id printing e v = reader_prints s v id e
reader_step-IsValid s id releasing e v =
    reader_leaves s v id releasing reader_locking e refl refl (λ _. refl) tt
reader_step-IsValid s id reader_finished e v = tt

-- A reader that is woken, for a reason or for none.
pub wakes-IsValid : (s : State) (id : ℕ) → IsValid s → IsValid (move s id (woken (s.reader_at id)))
wakes-IsValid s id v =
    reader_moves s v id (woken (s.reader_at id)) (woken-inside (s.reader_at id))
      (woken-not_sleeping (s.reader_at id))
      (woken-ReaderKnows s.data_available s.all_written (Fresh s.write_counter s.printed)
        (s.reader_at id) (v.reader_knows id))
