-- ===== src/RwLock/Reader.antt =====
-- `reader_thread` of lab10_rwlock/rwlock.c keeps the invariant.
use secured_operation_system.Base.{
  ℕ, ◌+◌, ◌-◌, ◌≡◌, refl, sym, ap, ◌∙◌, true, false, some, List, [], ◌∷◌, bytes, ltb, ◌==◌, arith,
  Bytes, Bool-cases, ==_eq, inl, inr, if_cases, append-nil,
}
use mathlib.Core.Path.{subst}
use secured_operation_system.Threads.Family.{set}
use secured_operation_system.Threads.Letters.{array_size, letter}
use secured_operation_system.RwLock.Format.{
  Buffer, empty, append, Holds, header, length-header, cell, append-Holds, append-cell,
  append-space, no_space, append-close, line,
}
use secured_operation_system.RwLock.System.{
  ReaderAt, reader_locking, reader_testing, breaking, heading, at_cell, at_space, closing, showing,
  reader_unlocking, reader_finished, overrun, Line, State, member, move, appended, rdlock,
  read_unlock, reader_step,
}
use secured_operation_system.RwLock.Invariant.{
  reader_inside, ReaderKnows, writes, pending-outside, Ordered, IsValid, OnSome, member-remove,
}

module _ (tid : ℕ → ℕ) (s : State) (v : IsValid tid s) (id : ℕ) where
  Knows-at :
      (place : ReaderAt)
      → s.reader_at id ≡ place
      → ReaderKnows tid id place s.write_counter s.read_finished
  Knows-at place e =
      subst (λ p. ReaderKnows tid id p s.write_counter s.read_finished) e (v.reader_knows id)

  -- What holds of the place of each reader still does when this one has moved.
  all_know :
      (next : ReaderAt)
      → ReaderKnows tid id next s.write_counter s.read_finished
      → (j : ℕ) → ReaderKnows tid j (set s.reader_at id next j) s.write_counter s.read_finished
  all_know next k j = elim (Bool-cases (j == id)) [
    | inl q ↦ rw q (rw (==_eq j id q) k)
    | inr q ↦ rw q (v.reader_knows j)
  ]

  -- Only the place of the reader and the output change.
  reader_moves :
      (next : ReaderAt) (more : List Line)
      → reader_inside (s.reader_at id) ≡ true
      → reader_inside next ≡ true
      → ReaderKnows tid id next s.write_counter s.read_finished
      → writes more ≡ writes s.printed
      → Ordered tid more
      → IsValid tid (record (move s id next) { printed = more })
  reader_moves next more was inside k kept l = record {
    bound = v.bound;
    filled = v.filled;
    full = v.full;
    writer_in = v.writer_in;
    readers_in = λ j. elim (Bool-cases (j == id)) [
      | inl q ↦ rw q (
          inside
          ∙ sym was
          ∙ v.readers_in id
          ∙ ap (λ k. member k s.rwlock.read_held) (sym (==_eq j id q)))
      | inr q ↦ rw q (v.readers_in j)
    ];
    excludes = v.excludes;
    writer_knows = v.writer_knows;
    reader_knows = all_know next k;
    counts = rw kept v.counts;
    lines = l;
  }

  reader_enters : OnSome tid (rdlock s id (move s id reader_testing))
  reader_enters =
      if_cases (OnSome tid) s.rwlock.write_held (λ _. tt)
        (λ free. record {
          bound = v.bound;
          filled = v.filled;
          full = v.full;
          writer_in = v.writer_in ∙ free;
          readers_in = λ j. elim (Bool-cases (j == id)) [
            | inl q ↦ rw q refl
            | inr q ↦ rw q (v.readers_in j)
          ];
          excludes = λ e. absurd (ground arith);
          writer_knows = v.writer_knows;
          reader_knows = all_know reader_testing tt;
          counts = v.counts;
          lines = v.lines;
        })

  -- The two unlocks.
  reader_leaves :
      (next : ReaderAt)
      → reader_inside next ≡ false
      → ReaderKnows tid id next s.write_counter s.read_finished
      → IsValid tid (read_unlock id (move s id next))
  reader_leaves next out k = record {
    bound = v.bound;
    filled = v.filled;
    full = v.full;
    writer_in = v.writer_in;
    readers_in = λ j.
        rw (member-remove j id s.rwlock.read_held)
          (elim (Bool-cases (j == id)) [ inl q ↦ rw q out | inr q ↦ rw q (v.readers_in j) ]);
    excludes = λ e. rw (v.excludes e) refl;
    writer_knows = v.writer_knows;
    reader_knows = all_know next k;
    counts = v.counts;
    lines = v.lines;
  }

  -- A call of `snprintf` that succeeds.
  reader_appends :
      (new : Bytes) (b : Buffer) (next : Buffer → ReaderAt) (P : Buffer → Type 0)
      → reader_inside (s.reader_at id) ≡ true
      → ((b' : Buffer) → reader_inside (next b') ≡ true)
      → ((b' : Buffer) → P b' → ReaderKnows tid id (next b') s.write_counter s.read_finished)
      → (b' : Buffer) × (append new b ≡ some b') × P b'
      → IsValid tid (move s id (appended (append new b) next))
  reader_appends new b next P was inside know (b', e, p) =
      rw e (reader_moves (next b') s.printed was (inside b') (know b' p) refl v.lines)

  -- The cell that is printed is a letter where one is written, and an underscore elsewhere.
  cell-letter : (i : ℕ) → cell s.shared_array s.write_counter i ≡ cell letter s.write_counter i
  cell-letter i = ground (arith, v.filled i)

  reader_at_cell :
      (i : ℕ) (b : Buffer)
      → s.reader_at id ≡ at_cell i b
      → OnSome tid (reader_step tid id (at_cell i b) s)
  unfolding reader_step
  reader_at_cell i b e =
      let (le, held) = Knows-at (at_cell i b) e in
      let was : reader_inside (s.reader_at id) ≡ true = ap reader_inside e in
      let short = length-header id (tid id) in
      if_cases (IsValid tid) (ltb i array_size)
        (λ lt. rw (cell-letter i) (
          reader_appends (cell letter s.write_counter i) b (at_space i) _ was (λ b'. refl)
            (λ b' k. (ground arith, k))
            (append-cell (header id (tid id)) short s.write_counter i b (ground arith) held)))
        (λ ge.
          let ten : i ≡ array_size = ground arith in
          reader_moves (closing b) s.printed was refl (rw ten at held) refl v.lines)

  reader_at_space :
      (i : ℕ) (b : Buffer)
      → s.reader_at id ≡ at_space i b
      → OnSome tid (reader_step tid id (at_space i b) s)
  unfolding reader_step
  reader_at_space i b e =
      let (lt, held) = Knows-at (at_space i b) e in
      let was : reader_inside (s.reader_at id) ≡ true = ap reader_inside e in
      let short = length-header id (tid id) in
      if_cases (IsValid tid) (ltb i (array_size - 1))
        (λ h.
          reader_appends (b' ' ∷ []) b (at_cell (i + 1)) _ was (λ b'. refl)
            (λ b' k. (omega arith, k))
            (append-space (header id (tid id)) short s.write_counter i b lt (ground arith) held))
        (λ last.
          reader_moves (at_cell (i + 1) b) s.printed was refl
            (omega arith, no_space (header id (tid id)) short s.write_counter i b lt last held) refl
            v.lines)

  reader_heads : s.reader_at id ≡ heading → OnSome tid (reader_step tid id heading s)
  unfolding reader_step
  reader_heads e =
      let none_yet : Holds [] empty = (refl, refl, omega arith) in
      let h = header id (tid id) in
      reader_appends h empty (at_cell 0) (Holds h) (ap reader_inside e) (λ b'. refl)
        (λ b' k. (omega arith, rw (append-nil h) k))
        (append-Holds [] h empty none_yet (omega (arith, length-header id (tid id))))

  -- While a reader holds the lock, all letters that are counted have been told of.
  counted_lem : reader_inside (s.reader_at id) ≡ true → s.write_counter ≡ writes s.printed
  counted_lem inside = elim (Bool-cases s.rwlock.write_held) [
    | inl held ↦
        let out : reader_inside (s.reader_at id) ≡ false =
          v.readers_in id ∙ ap (member id) (v.excludes held) in
        absurd (ground (arith, inside, out))
    | inr free ↦ omega (arith, v.counts, pending-outside s.writer_at (v.writer_in ∙ free))
  ]

  showing-line :
      (b : Buffer) → s.reader_at id ≡ showing b → b.text ≡ line id (tid id) (writes s.printed)
  showing-line b e =
      (Knows-at (showing b) e).0 ∙ ap (line id (tid id)) (counted_lem (ap reader_inside e))

pub reader_step-IsValid :
    (tid : ℕ → ℕ) (s : State) (id : ℕ) (place : ReaderAt)
    → s.reader_at id ≡ place
    → IsValid tid s
    → OnSome tid (reader_step tid id place s)
unfolding reader_step
reader_step-IsValid tid s id reader_locking e v = reader_enters tid s v id
reader_step-IsValid tid s id reader_testing e v =
    let was : reader_inside (s.reader_at id) ≡ true = ap reader_inside e in
    if_cases (IsValid tid) s.read_finished
      (λ h. reader_moves tid s v id breaking s.printed was refl h refl v.lines)
      (λ h. reader_moves tid s v id heading s.printed was refl tt refl v.lines)
reader_step-IsValid tid s id breaking e v =
    reader_leaves tid s v id reader_finished refl (Knows-at tid s v id breaking e)
reader_step-IsValid tid s id heading e v = reader_heads tid s v id e
reader_step-IsValid tid s id (at_cell i b) e v = reader_at_cell tid s v id i b e
reader_step-IsValid tid s id (at_space i b) e v = reader_at_space tid s v id i b e
reader_step-IsValid tid s id (closing b) e v =
    reader_appends tid s v id (bytes "]\n") b showing _ (ap reader_inside e) (λ b'. refl)
      (λ b' k. k) (append-close id (tid id) s.write_counter b (Knows-at tid s v id (closing b) e))
reader_step-IsValid tid s id (showing b) e v =
    reader_moves tid s v id reader_unlocking _ (ap reader_inside e) refl tt refl
      (showing-line tid s v id b e, v.lines)
reader_step-IsValid tid s id reader_unlocking e v = reader_leaves tid s v id reader_locking refl tt
reader_step-IsValid tid s id reader_finished e v = tt
reader_step-IsValid tid s id overrun e v = tt
