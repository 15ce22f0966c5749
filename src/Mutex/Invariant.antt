-- ===== src/Mutex/Invariant.antt =====
-- What holds in every state that the threads of lab8_mtx/main.c can come to.
use secured_operation_system.Base.{
  length, ◌++◌, ◌==◌, if◌then◌else◌, ℕ, ◌+◌, ◌≤◌, ◌<◌, ◌≡◌, Bool, true, false, Option, none, some,
  List, [], ◌∷◌, zero, suc, refl, arith,
}
use secured_operation_system.Threads.Owner.{Owned}
use secured_operation_system.Mutex.System.{
  buffer_size, WriterAt, testing, locking, deciding, storing, advancing, unlocking, writer_finished,
  ReaderAt, printing, listing, separating, checking, leaving, ending, releasing, reader_finished,
  Line, added, listing_start, element, comma, listing_end, writer_end, reader_end, State, initial,
}

-- Does the writer stand between its lock and its unlock?
abbrev pub writer_inside : WriterAt → Bool
writer_inside deciding = true
writer_inside storing = true
writer_inside advancing = true
writer_inside unlocking = true
writer_inside _ = false

abbrev pub reader_inside : ReaderAt → Bool
reader_inside printing = true
reader_inside (listing i) = true
reader_inside (separating i) = true
reader_inside checking = true
reader_inside leaving = true
reader_inside releasing = true
reader_inside _ = false

-- What the place of a thread says of the position, and of the element there.
abbrev pub WriterKnows : WriterAt → ℕ → (ℕ → ℕ) → Type 0
WriterKnows storing n f = n < buffer_size
WriterKnows advancing n f = (n < buffer_size) × (f n ≡ n + 1)
WriterKnows writer_finished n f = buffer_size ≤ n
WriterKnows _ n f = Unit

-- The numbers from `k` on, `n` of them.
abbrev pub numbers_from : ℕ → ℕ → List ℕ
numbers_from k zero = []
numbers_from k (suc n) = k ∷ numbers_from (k + 1) n

-- `shown` is what the reader has shown since it began its listing.
abbrev pub ReaderKnows : ReaderAt → ℕ → List ℕ → Type 0
ReaderKnows (listing i) n shown = (i ≤ n) × (shown ≡ numbers_from 1 i)
ReaderKnows (separating i) n shown = (i < n) × (shown ≡ numbers_from 1 (i + 1))
ReaderKnows leaving n shown = buffer_size ≤ n
ReaderKnows ending n shown = buffer_size ≤ n
ReaderKnows reader_finished n shown = buffer_size ≤ n
ReaderKnows _ n shown = Unit

-- How many elements the writer has said to have added.
abbrev pub adds : List Line → ℕ
adds [] = 0
adds (added value position ∷ lines) = suc (adds lines)
adds (listing_start id ∷ lines) = adds lines
adds (element id value ∷ lines) = adds lines
adds (comma id ∷ lines) = adds lines
adds (listing_end id ∷ lines) = adds lines
adds (writer_end n ∷ lines) = adds lines
adds (reader_end id ∷ lines) = adds lines

-- What a reader has shown since it began its last listing, whatever others have printed meanwhile.
abbrev pub listed : ℕ → List Line → List ℕ
listed id [] = []
listed id (added value position ∷ lines) = listed id lines
listed id (listing_start j ∷ lines) = if id == j then [] else listed id lines
listed id (element j value ∷ lines) =
    let rest = listed id lines in if id == j then rest ++ value ∷ [] else rest
listed id (comma j ∷ lines) = listed id lines
listed id (listing_end j ∷ lines) = listed id lines
listed id (writer_end n ∷ lines) = listed id lines
listed id (reader_end j ∷ lines) = listed id lines

-- What is printed is true of what was printed before: an element is added behind those that were,
-- with its index and one as its value; an element that is shown has been added, and a comma stands
-- only before another one; at its end a listing has shown 1, 2, 3 and so on, one number for each
-- element that was added; and a thread ends when ten were.
abbrev pub IsTrue : List Line → Line → Type 0
IsTrue before (added value position) =
    (value ≡ position + 1) × (position ≡ adds before) × (position < 10)
IsTrue before (listing_start id) = Unit
IsTrue before (element id value) = (0 < value) × (value ≤ adds before)
IsTrue before (comma id) = length (listed id before) < adds before
IsTrue before (listing_end id) = listed id before ≡ numbers_from 1 (adds before)
IsTrue before (writer_end n) = (n ≡ 10) × (adds before ≡ 10)
IsTrue before (reader_end id) = adds before ≡ 10

-- From the last one back.
abbrev pub AllTrue : List Line → Type 0
AllTrue [] = Unit
AllTrue (line ∷ before) = IsTrue before line × AllTrue before

-- The element that was printed, but not counted yet.
abbrev pub pending : WriterAt → ℕ
pending advancing = 1
pending _ = 0

pub pending-outside : (place : WriterAt) → writer_inside place ≡ false → pending place ≡ 0
pending-outside deciding h = refl
pending-outside storing h = refl
pending-outside advancing h = absurd (ground arith)
pending-outside unlocking h = refl
pending-outside testing h = refl
pending-outside locking h = refl
pending-outside writer_finished h = refl

pub pending-full :
    (place : WriterAt) (n : ℕ) (f : ℕ → ℕ)
    → WriterKnows place n f
    → buffer_size ≤ n
    → pending place ≡ 0
pending-full deciding n f k h = refl
pending-full storing n f k h = refl
pending-full advancing n f (lt, _) h = absurd (omega arith)
pending-full unlocking n f k h = refl
pending-full testing n f k h = refl
pending-full locking n f k h = refl
pending-full writer_finished n f k h = refl

pub record IsValid (s : State) : Type 0 where
  pub bound : s.write_position ≤ buffer_size
  pub filled : (i : ℕ) → i < s.write_position → s.shared_data i ≡ i + 1
  pub owned : Owned s.buffer_lock (writer_inside s.writer_at) (λ id. reader_inside (s.reader_at id))
  pub writer_knows : WriterKnows s.writer_at s.write_position s.shared_data
  pub reader_knows : (id : ℕ) → ReaderKnows (s.reader_at id) s.write_position (listed id s.printed)
  pub counts : adds s.printed ≡ s.write_position + pending s.writer_at
  pub lines : AllTrue s.printed

pub initial-IsValid : IsValid initial
initial-IsValid = record {
  bound = omega arith;
  filled = λ i h. absurd (omega arith);
  owned = record {
    writer_owns = λ e. absurd (ground arith);
    reader_owns = λ id e. absurd (ground arith);
    owner_writer = λ e. absurd (ground arith);
    owner_reader = λ id e. absurd (ground arith);
  };
  writer_knows = tt;
  reader_knows = λ id. tt;
  counts = refl;
  lines = tt;
}

abbrev pub OnSome : (State → Type 0) → Option State → Type 0
OnSome P none = Unit
OnSome P (some s) = P s
