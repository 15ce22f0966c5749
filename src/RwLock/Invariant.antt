-- ===== src/RwLock/Invariant.antt =====
-- What holds in every state that the threads of lab10_rwlock/rwlock.c can come to.
use secured_operation_system.Base.{
  ℕ, suc, ◌+◌, ◌≤◌, ◌<◌, ◌≡◌, refl, Bool, true, false, Option, none, some, List, [], ◌∷◌, ◌++◌,
  ◌==◌, if◌then◌else◌, arith,
}
use secured_operation_system.Threads.Letters.{array_size, letter}
use secured_operation_system.RwLock.Format.{Holds, header, cells, cell, line, IsLine}
use secured_operation_system.RwLock.System.{
  WriterAt, testing, locking, deciding, storing, advancing, telling, unlocking, last_locking,
  flagging, last_unlocking, writer_finished, ReaderAt, reader_locking, reader_testing, breaking,
  heading, at_cell, at_space, closing, showing, reader_unlocking, reader_finished, overrun, Line,
  wrote, array_is, State, initial, is_empty, member, remove,
}

-- Does a thread stand between a lock and its unlock?
abbrev pub writer_inside : WriterAt → Bool
writer_inside deciding = true
writer_inside storing = true
writer_inside advancing = true
writer_inside telling = true
writer_inside unlocking = true
writer_inside flagging = true
writer_inside last_unlocking = true
writer_inside _ = false

abbrev pub reader_inside : ReaderAt → Bool
reader_inside reader_locking = false
reader_inside reader_finished = false
reader_inside _ = true

abbrev pub is_overrun : ReaderAt → Bool
is_overrun overrun = true
is_overrun _ = false

abbrev pub WriterKnows : WriterAt → ℕ → (ℕ → ℕ) → Type 0
WriterKnows locking n f = n < array_size
WriterKnows storing n f = n < array_size
WriterKnows advancing n f = (n < array_size) × (f n ≡ letter n)
WriterKnows telling n f = 0 < n
WriterKnows last_locking n f = array_size ≤ n
WriterKnows flagging n f = array_size ≤ n
WriterKnows _ n f = Unit

-- How many letters the writer has said to have written.
abbrev pub writes : List Line → ℕ
writes [] = 0
writes (wrote c i ∷ lines) = suc (writes lines)
writes (array_is id text ∷ lines) = writes lines

-- The letter that was counted, but not told of yet.
abbrev pub pending : WriterAt → ℕ
pending telling = 1
pending _ = 0

pub pending-outside : (place : WriterAt) → writer_inside place ≡ false → pending place ≡ 0
pending-outside testing h = refl
pending-outside locking h = refl
pending-outside deciding h = refl
pending-outside storing h = refl
pending-outside advancing h = refl
pending-outside telling h = absurd (ground arith)
pending-outside unlocking h = refl
pending-outside last_locking h = refl
pending-outside flagging h = refl
pending-outside last_unlocking h = refl
pending-outside writer_finished h = refl

module _ (tid : ℕ → ℕ) where
  -- What a reader's buffer holds, by its place: the part of the line for `n` letters up to there.
  abbrev pub ReaderKnows : ℕ → ReaderAt → ℕ → Bool → Type 0
  ReaderKnows id reader_locking n read = Unit
  ReaderKnows id reader_testing n read = Unit
  ReaderKnows id breaking n read = read ≡ true
  ReaderKnows id heading n read = Unit
  ReaderKnows id (at_cell i b) n read = (i ≤ array_size) × Holds (header id (tid id) ++ cells n i) b
  ReaderKnows id (at_space i b) n read =
      (i < array_size) × Holds (header id (tid id) ++ (cells n i ++ cell letter n i)) b
  ReaderKnows id (closing b) n read = Holds (header id (tid id) ++ cells n array_size) b
  ReaderKnows id (showing b) n read = IsLine id (tid id) n b
  ReaderKnows id reader_unlocking n read = Unit
  ReaderKnows id reader_finished n read = read ≡ true
  ReaderKnows id overrun n read = ⊥

  -- From the last line back: a letter is written behind those that were before, and a line shows
  -- the array whole, with a letter for each that was written before and underscores for the rest.
  abbrev pub Ordered : List Line → Type 0
  Ordered [] = Unit
  Ordered (wrote c i ∷ before) =
      (c ≡ letter i) × (i ≡ writes before) × (i < array_size) × Ordered before
  Ordered (array_is id text ∷ before) = (text ≡ line id (tid id) (writes before)) × Ordered before

  pub record IsValid (s : State) : Type 0 where
    pub bound : s.write_counter ≤ array_size
    pub filled : (i : ℕ) → i < s.write_counter → s.shared_array i ≡ letter i
    pub full : s.read_finished ≡ true → s.write_counter ≡ array_size
    pub writer_in : writer_inside s.writer_at ≡ s.rwlock.write_held
    pub readers_in : (id : ℕ) → reader_inside (s.reader_at id) ≡ member id s.rwlock.read_held
    pub excludes : s.rwlock.write_held ≡ true → s.rwlock.read_held ≡ []
    pub writer_knows : WriterKnows s.writer_at s.write_counter s.shared_array
    pub reader_knows : (id : ℕ) → ReaderKnows id (s.reader_at id) s.write_counter s.read_finished
    pub counts : s.write_counter ≡ writes s.printed + pending s.writer_at
    pub lines : Ordered s.printed

  pub initial-IsValid : IsValid initial
  initial-IsValid = record {
    bound = omega arith;
    filled = λ i h. absurd (omega arith);
    full = λ e. absurd (ground arith);
    writer_in = refl;
    readers_in = λ id. refl;
    excludes = λ e. absurd (ground arith);
    writer_knows = tt;
    reader_knows = λ id. tt;
    counts = refl;
    lines = tt;
  }

  abbrev pub OnSome : Option State → Type 0
  OnSome none = Unit
  OnSome (some s) = IsValid s

  -- What a reader outside of the lock knows does not depend on the counter.
  pub ReaderKnows-outside :
      (id : ℕ) (place : ReaderAt) (n n' : ℕ) (read read' : Bool)
      → reader_inside place ≡ false
      → (read ≡ true → read' ≡ true)
      → ReaderKnows id place n read
      → ReaderKnows id place n' read'
  ReaderKnows-outside id reader_locking n n' r r' out up k = tt
  ReaderKnows-outside id reader_finished n n' r r' out up k = up k
  ReaderKnows-outside id reader_testing n n' r r' out up k = absurd (ground arith)
  ReaderKnows-outside id breaking n n' r r' out up k = absurd (ground arith)
  ReaderKnows-outside id heading n n' r r' out up k = absurd (ground arith)
  ReaderKnows-outside id (at_cell i b) n n' r r' out up k = absurd (ground arith)
  ReaderKnows-outside id (at_space i b) n n' r r' out up k = absurd (ground arith)
  ReaderKnows-outside id (closing b) n n' r r' out up k = absurd (ground arith)
  ReaderKnows-outside id (showing b) n n' r r' out up k = absurd (ground arith)
  ReaderKnows-outside id reader_unlocking n n' r r' out up k = absurd (ground arith)
  ReaderKnows-outside id overrun n n' r r' out up k = absurd (ground arith)

  -- While the writer holds the lock, what it changes is nothing that a reader knows.
  pub all_outside :
      (s : State)
      → IsValid s
      → writer_inside s.writer_at ≡ true
      → (n : ℕ) (read : Bool) → (s.read_finished ≡ true → read ≡ true)
      → (id : ℕ) → ReaderKnows id (s.reader_at id) n read
  all_outside s v inside n read up id =
      let empty : s.rwlock.read_held ≡ [] = v.excludes (ground (arith, v.writer_in)) in
      let out : reader_inside (s.reader_at id) ≡ false = rw (v.readers_in id) (rw empty refl) in
      ReaderKnows-outside id (s.reader_at id) s.write_counter n s.read_finished read out up
        (v.reader_knows id)

-- The readers that hold the lock, when one takes it and when one gives it back.
pub member-remove :
    (j id : ℕ) (ids : List ℕ) → member j (remove id ids) ≡ (if j == id then false else member j ids)
member-remove j id [] = ground arith
member-remove j id (k ∷ ids) = ground (arith, member-remove j id ids)

pub eq_of_is_empty : (ids : List ℕ) → is_empty ids ≡ true → ids ≡ []
eq_of_is_empty [] h = refl
eq_of_is_empty (j ∷ ids) h = absurd (ground arith)
