-- ===== src/CondVar/Invariant.antt =====
-- What holds in every state that the threads of lab11_condvar/condvar.c can come to.
use secured_operation_system.Base.{
  ℕ, ◌-◌, ◌≤◌, ◌<◌, ◌≡◌, ◌⊎◌, Bool, true, false, ◌||◌, Option, none, some, List, [], ◌∷◌, All,
  arith,
}
use secured_operation_system.Threads.Owner.{Owned}
use secured_operation_system.Threads.Letters.{array_size, letter, row}
use secured_operation_system.CondVar.System.{
  WriterAt, locking, storing, publishing, signaling, unlocking, last_locking, flagging,
  broadcasting, last_unlocking, ending, writer_finished, ReaderAt, waiting, sleeping, checking,
  leaving, reader_ending, printing, releasing, reader_finished, Line, writer_start, wrote,
  writer_end, reader_start, array_is, reader_end, State, initial,
}

-- Does the writer stand between a lock and its unlock?
abbrev pub writer_inside : WriterAt → Bool
writer_inside storing = true
writer_inside publishing = true
writer_inside signaling = true
writer_inside unlocking = true
writer_inside flagging = true
writer_inside broadcasting = true
writer_inside last_unlocking = true
writer_inside _ = false

abbrev pub reader_inside : ReaderAt → Bool
reader_inside waiting = true
reader_inside checking = true
reader_inside leaving = true
reader_inside printing = true
reader_inside releasing = true
reader_inside _ = false

abbrev pub is_sleeping : ReaderAt → Bool
is_sleeping sleeping = true
is_sleeping _ = false

-- From the last line back, each line that shows the array shows it true to its number of letters,
-- at most `bound` of them and at least one, and fewer than the line after it.
abbrev pub Rising : ℕ → List Line → Type 0
Rising bound [] = Unit
Rising bound (array_is id text ∷ lines) =
    (n : ℕ) × (0 < n) × (n ≤ bound) × (text ≡ row n) × Rising (n - 1) lines
Rising bound (writer_start ∷ lines) = Rising bound lines
Rising bound (wrote c i ∷ lines) = Rising bound lines
Rising bound (writer_end ∷ lines) = Rising bound lines
Rising bound (reader_start id ∷ lines) = Rising bound lines
Rising bound (reader_end id ∷ lines) = Rising bound lines

-- There are letters that no line shows yet.
abbrev pub Fresh : ℕ → List Line → Type 0
Fresh counter lines = (0 < counter) × Rising (counter - 1) lines

-- What the place of the writer says of the counter, the array, `all_written` and the readers.
abbrev pub WriterKnows : WriterAt → ℕ → (ℕ → ℕ) → Bool → (ℕ → ReaderAt) → Type 0
WriterKnows locking n f written readers = n < array_size
WriterKnows storing n f written readers = n < array_size
WriterKnows publishing n f written readers = (n < array_size) × (f n ≡ letter n)
WriterKnows last_locking n f written readers = array_size ≤ n
WriterKnows flagging n f written readers = array_size ≤ n
WriterKnows broadcasting n f written readers = written ≡ true
WriterKnows last_unlocking n f written readers =
    (written ≡ true) × ((id : ℕ) → is_sleeping (readers id) ≡ false)
WriterKnows ending n f written readers =
    (written ≡ true) × ((id : ℕ) → is_sleeping (readers id) ≡ false)
WriterKnows writer_finished n f written readers =
    (written ≡ true) × ((id : ℕ) → is_sleeping (readers id) ≡ false)
WriterKnows _ n f written readers = Unit

-- What the place of a reader says of the two flags, and whether some letters are fresh.
abbrev pub ReaderKnows : ReaderAt → Bool → Bool → Type 0 → Type 0
ReaderKnows checking available written IsFresh = (available || written) ≡ true
ReaderKnows printing available written IsFresh = IsFresh
ReaderKnows leaving available written IsFresh = written ≡ true
ReaderKnows reader_ending available written IsFresh = written ≡ true
ReaderKnows reader_finished available written IsFresh = written ≡ true
ReaderKnows _ available written IsFresh = Unit

-- A line of the writer tells the letter and the index that it wrote.
abbrev pub IsTrue : Line → Type 0
IsTrue (wrote c i) = (c ≡ letter i) × (i < array_size)
IsTrue _ = Unit

pub record IsValid (s : State) : Type 0 where
  pub bound : s.write_counter ≤ array_size
  pub filled : (i : ℕ) → i < s.write_counter → s.shared_array i ≡ letter i
  pub full : s.all_written ≡ true → s.write_counter ≡ array_size
  pub owned : Owned s.mutex (writer_inside s.writer_at) (λ id. reader_inside (s.reader_at id))
  pub writer_knows :
      WriterKnows s.writer_at s.write_counter s.shared_array s.all_written s.reader_at
  pub reader_knows :
      (id : ℕ)
      → ReaderKnows
          (s.reader_at id)
          s.data_available
          s.all_written
          (Fresh s.write_counter s.printed)
  pub fresh : s.data_available ≡ true → (s.all_written ≡ true) ⊎ Fresh s.write_counter s.printed
  pub rising : Rising s.write_counter s.printed
  pub lines : All IsTrue s.printed

pub initial-IsValid : IsValid initial
initial-IsValid = record {
  bound = omega arith;
  filled = λ i h. absurd (omega arith);
  full = λ e. absurd (ground arith);
  owned = record {
    writer_owns = λ e. absurd (ground arith);
    reader_owns = λ id e. absurd (ground arith);
    owner_writer = λ e. absurd (ground arith);
    owner_reader = λ id e. absurd (ground arith);
  };
  writer_knows = tt;
  reader_knows = λ id. tt;
  fresh = λ e. absurd (ground arith);
  rising = tt;
  lines = tt;
}

abbrev pub OnSome : (State → Type 0) → Option State → Type 0
OnSome P none = Unit
OnSome P (some s) = P s

pub Rising-le : (m n : ℕ) (lines : List Line) → m ≤ n → Rising m lines → Rising n lines
Rising-le m n [] le r = tt
Rising-le m n (array_is id text ∷ lines) le (k, pos, h, e, r) = (k, pos, omega arith, e, r)
Rising-le m n (writer_start ∷ lines) le r = Rising-le m n lines le r
Rising-le m n (wrote c i ∷ lines) le r = Rising-le m n lines le r
Rising-le m n (writer_end ∷ lines) le r = Rising-le m n lines le r
Rising-le m n (reader_start id ∷ lines) le r = Rising-le m n lines le r
Rising-le m n (reader_end id ∷ lines) le r = Rising-le m n lines le r
