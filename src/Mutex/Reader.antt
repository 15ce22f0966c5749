-- ===== src/Mutex/Reader.antt =====
-- `reader_routine` of lab8_mtx/main.c keeps the invariant.
use secured_operation_system.Base.{
  ℕ, zero, suc, ◌+◌, ◌≤◌, ◌<◌, ◌≡◌, refl, sym, ap, ap₂, ◌∙◌, true, false, Option, none, some, List,
  [], ◌∷◌, ◌++◌, leb, ltb, ◌-◌, ◌==◌, ==_eq, ==_refl, length, arith, if_cases, Bool-cases, inl, inr,
}
use mathlib.Core.Path.{subst}
use secured_operation_system.Threads.Owner.{Owned, reader_excludes, reader_locks, reader_unlocks}
use secured_operation_system.Mutex.System.{
  element, comma, listing_end, buffer_size, ReaderAt, waiting, printing, listing, separating,
  checking, leaving, ending, releasing, reader_finished, Line, State, first, lock, move,
  reader_step,
}
use secured_operation_system.Threads.Owner.{Thread, reader}
use secured_operation_system.Threads.Family.{set, at_each-set, at_each-set_same}
use secured_operation_system.Mutex.Invariant.{
  writer_inside, reader_inside, ReaderKnows, adds, listed, numbers_from, AllTrue, pending-outside,
  pending-full, IsValid, OnSome,
}

-- The elements that were written, in the state itself and as they are printed.
pub first_filled :
    (f : ℕ → ℕ) (n : ℕ) → ((i : ℕ) → i < n → f i ≡ i + 1) → first f n ≡ first (λ i. i + 1) n
first_filled f zero h = refl
first_filled f (suc n) h =
    ap₂ (λ xs x. xs ++ x ∷ []) (first_filled f n (λ i lt. h i (omega arith))) (h n (omega arith))

numbers_from-snoc : (k n : ℕ) → numbers_from k (suc n) ≡ numbers_from k n ++ (k + n) ∷ []
numbers_from-snoc k zero = ap (λ (m : ℕ). m ∷ []) (omega arith)
numbers_from-snoc k (suc n) =
    ap (λ (ms : List ℕ). k ∷ ms)
      (numbers_from-snoc (k + 1) n ∙ ap (λ (m : ℕ). numbers_from (k + 1) n ++ m ∷ []) (omega arith))

length-numbers_from : (k n : ℕ) → length (numbers_from k n) ≡ n
length-numbers_from k zero = refl
length-numbers_from k (suc n) = ap suc (length-numbers_from (k + 1) n)

module _ (s : State) (v : IsValid s) (id : ℕ) where
  ReaderKnows-at :
      (place : ReaderAt)
      → s.reader_at id ≡ place
      → ReaderKnows place s.write_position (listed id s.printed)
  ReaderKnows-at place e =
      subst (λ p. ReaderKnows p s.write_position (listed id s.printed)) e (v.reader_knows id)

  -- What holds of the place of each reader still does when this one has moved and printed.
  all_know :
      (next : ReaderAt) (more : List Line)
      → ReaderKnows next s.write_position (listed id more)
      → ((j : ℕ) → (j == id) ≡ false → listed j more ≡ listed j s.printed)
      → (j : ℕ) → ReaderKnows (set s.reader_at id next j) s.write_position (listed j more)
  all_know next more k others j = elim (Bool-cases (j == id)) [
    | inl q ↦ rw q (rw (==_eq j id q) k)
    | inr q ↦ rw q (rw (others j q) (v.reader_knows j))
  ]

  -- Only the place of the reader and the output change.
  reader_moves :
      (place next : ReaderAt) (more : List Line)
      → s.reader_at id ≡ place
      → reader_inside next ≡ reader_inside place
      → ReaderKnows next s.write_position (listed id more)
      → adds more ≡ adds s.printed
      → ((j : ℕ) → (j == id) ≡ false → listed j more ≡ listed j s.printed)
      → AllTrue more
      → IsValid (record (move s id next) { printed = more })
  reader_moves place next more e same k kept others l = record {
    bound = v.bound;
    filled = v.filled;
    owned =
        rw (at_each-set_same reader_inside s.reader_at id next (same ∙ ap reader_inside (sym e)))
          v.owned;
    writer_knows = v.writer_knows;
    reader_knows = all_know next more k others;
    counts = kept ∙ v.counts;
    lines = l;
  }

  reader_enters :
      s.reader_at id ≡ waiting → OnSome IsValid (lock s (reader id) (move s id printing))
  reader_enters e = by_lock s.buffer_lock v.owned
    where
      by_lock :
          (l : Option Thread)
          → Owned l (writer_inside s.writer_at) (λ j. reader_inside (s.reader_at j))
          → OnSome IsValid (elim l [
            | none ↦ some (record (move s id printing) { buffer_lock = some (reader id) })
            | some _ ↦ none
          ])
      by_lock none o = record {
        bound = v.bound;
        filled = v.filled;
        owned = rw (at_each-set reader_inside s.reader_at id printing) (reader_locks id o);
        writer_knows = v.writer_knows;
        reader_knows = all_know printing s.printed tt (λ j q. refl);
        counts = v.counts;
        lines = v.lines;
      }
      by_lock (some t) o = tt

  -- The unlock, at either end of the loop.
  reader_leaves :
      (place next : ReaderAt)
      → s.reader_at id ≡ place
      → reader_inside place ≡ true
      → reader_inside next ≡ false
      → ReaderKnows next s.write_position (listed id s.printed)
      → IsValid (record (move s id next) { buffer_lock = none })
  reader_leaves place next e inside out k = record {
    bound = v.bound;
    filled = v.filled;
    owned =
        rw (at_each-set reader_inside s.reader_at id next)
          (rw out (reader_unlocks id (ap reader_inside e ∙ inside) v.owned));
    writer_knows = v.writer_knows;
    reader_knows = all_know next s.printed k (λ j q. refl);
    counts = v.counts;
    lines = v.lines;
  }

  -- Behind the lock, as many elements are counted as the writer has said to have added.
  adds-inside : reader_inside (s.reader_at id) ≡ true → adds s.printed ≡ s.write_position
  adds-inside inside =
      let out : writer_inside s.writer_at ≡ false = reader_excludes id v.owned inside in
      omega (arith, v.counts, pending-outside s.writer_at out)

  reader_prints : s.reader_at id ≡ printing → OnSome IsValid (reader_step id printing s)
  unfolding reader_step
  reader_prints e =
      reader_moves printing (listing 0) _ e refl (omega arith, rw (==_refl id) refl) refl
        (λ j q. rw q refl) (tt, v.lines)

  -- A round of the loop shows the next number.
  reader_lists :
      (i : ℕ) → s.reader_at id ≡ listing i → OnSome IsValid (reader_step id (listing i) s)
  unfolding reader_step
  reader_lists i e =
      let (le, shown) = ReaderKnows-at (listing i) e in
      if_cases IsValid (ltb i s.write_position)
        (λ h.
          let lt : i < s.write_position = ground arith in
          let value : s.shared_data i ≡ i + 1 = v.filled i lt in
          let next : i + 1 ≡ suc i = omega arith in
          let more : listed id s.printed ++ s.shared_data i ∷ [] ≡ numbers_from 1 (i + 1) =
            ap₂ (λ (ms : List ℕ) (m : ℕ). ms ++ m ∷ []) shown (omega (arith, value))
            ∙ sym (numbers_from-snoc 1 i)
            ∙ ap (numbers_from 1) (sym next) in
          reader_moves (listing i) (separating i) (element id (s.shared_data i) ∷ s.printed) e refl
            (lt, rw (==_refl id) more) refl (λ j q. rw q refl)
            ((omega (arith, value), omega (arith, value, v.counts)), v.lines))
        (λ h.
          let all : i ≡ adds s.printed = ground (arith, adds-inside (ap reader_inside e)) in
          reader_moves (listing i) checking (listing_end id ∷ s.printed) e refl tt refl
            (λ j q. refl) (shown ∙ ap (numbers_from 1) all, v.lines))

  reader_separates :
      (i : ℕ) → s.reader_at id ≡ separating i → OnSome IsValid (reader_step id (separating i) s)
  unfolding reader_step
  reader_separates i e =
      let (lt, shown) = ReaderKnows-at (separating i) e in
      if_cases IsValid (ltb i (s.write_position - 1))
        (λ h.
          let inner : i < s.write_position - 1 = ground arith in
          let size : length (listed id s.printed) ≡ i + 1 =
            ap length shown ∙ length-numbers_from 1 (i + 1) in
          reader_moves (separating i) (listing (i + 1)) (comma id ∷ s.printed) e refl
            (omega arith, shown) refl (λ j q. refl) (omega (arith, size, v.counts), v.lines))
        (λ h.
          reader_moves (separating i) (listing (i + 1)) s.printed e refl (omega arith, shown) refl
            (λ j q. refl) v.lines)

pub reader_step-IsValid :
    (s : State) (id : ℕ) (place : ReaderAt)
    → s.reader_at id ≡ place
    → IsValid s
    → OnSome IsValid (reader_step id place s)
unfolding reader_step
reader_step-IsValid s id waiting e v = reader_enters s v id e
reader_step-IsValid s id printing e v = reader_prints s v id e
reader_step-IsValid s id (listing i) e v = reader_lists s v id i e
reader_step-IsValid s id (separating i) e v = reader_separates s v id i e
reader_step-IsValid s id checking e v =
    if_cases IsValid (leb buffer_size s.write_position)
      (λ h.
        reader_moves s v id checking leaving s.printed e refl (ground arith) refl (λ j q. refl)
          v.lines)
      (λ _. reader_moves s v id checking releasing s.printed e refl tt refl (λ j q. refl) v.lines)
reader_step-IsValid s id leaving e v =
    reader_leaves s v id leaving ending e refl refl (ReaderKnows-at s v id leaving e)
reader_step-IsValid s id ending e v =
    let full : buffer_size ≤ s.write_position = ReaderKnows-at s v id ending e in
    let counted = pending-full s.writer_at s.write_position s.shared_data v.writer_knows full in
    reader_moves s v id ending reader_finished _ e refl full refl (λ j q. refl)
      (omega (arith, v.counts, v.bound, counted), v.lines)
reader_step-IsValid s id releasing e v = reader_leaves s v id releasing waiting e refl refl tt
reader_step-IsValid s id reader_finished e v = tt
