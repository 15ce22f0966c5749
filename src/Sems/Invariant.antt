-- ===== src/Sems/Invariant.antt =====
-- What holds in every state that the sender and the receivers of lab9_sems can come to.
use secured_operation_system.Base.{
  ℕ, zero, suc, ◌≤◌, ◌<◌, ◌≡◌, refl, ap, Bool, true, false, Option, none, some, List, [], ◌∷◌, ◌++◌,
  Bytes, length, take, arith,
}
use secured_operation_system.Base.Numerals.{IsText}
use secured_operation_system.Threads.Owner.{Thread, Owned}
use secured_operation_system.Sems.Exchange.{
  SenderAt, waiting, formatting, writing, telling, posting, ReceiverAt, receiver_waiting, copying,
  showing, receiver_posting, Line, sent, received, Messages, State, byte_at, initial,
}

-- Does a side stand between its wait and its post?
abbrev pub sender_inside : SenderAt → Bool
sender_inside waiting = false
sender_inside _ = true

abbrev pub receiver_inside : ReceiverAt → Bool
receiver_inside receiver_waiting = false
receiver_inside _ = true

-- What is left of the semaphore.
abbrev pub units : Option Thread → ℕ
units none = 1
units (some t) = 0

-- The buffer holds a C string, whatever follows.
abbrev pub Holds : (ℕ → ℕ) → Bytes → Type 0
Holds buffer t = (i : ℕ) → i ≤ length t → buffer i ≡ byte_at t i

-- Messages are without NUL, are written with their NUL, and are read whole.
pub record Fits (m : Messages) : Type 0 where
  pub plain : (n : ℕ) → IsText (m.text n)
  pub spanned : (n : ℕ) → length (m.text n) < m.span n
  pub short : (n : ℕ) → length (m.text n) ≤ m.limit

module _ (text : ℕ → Bytes) where
  -- What the places say of the buffer and the counter.
  abbrev pub SenderKnows : SenderAt → ℕ → (ℕ → ℕ) → Type 0
  SenderKnows (writing i) n buffer = (j : ℕ) → j < i → buffer j ≡ byte_at (text n) j
  SenderKnows waiting n buffer = Holds buffer (text n)
  SenderKnows formatting n buffer = Holds buffer (text n)
  SenderKnows telling n buffer = Holds buffer (text n)
  SenderKnows posting n buffer = Holds buffer (text n)

  abbrev pub ReceiverKnows : ReceiverAt → ℕ → Type 0
  ReceiverKnows (copying i got) n = (i ≤ length (text n)) × (got ≡ take i (text n))
  ReceiverKnows (showing got) n = got ≡ text n
  ReceiverKnows receiver_waiting n = Unit
  ReceiverKnows receiver_posting n = Unit

  -- From the last line back: what is received is a message that was sent, or the first content of
  -- the buffer, whole, and none older than what a line before shows.
  abbrev pub Ordered : ℕ → List Line → Type 0
  Ordered bound [] = Unit
  Ordered bound (sent n t ∷ lines) = (n ≤ bound) × (t ≡ text n) × Ordered n lines
  Ordered bound (received id t ∷ lines) = (n : ℕ) × (n ≤ bound) × (t ≡ text n) × Ordered n lines

  pub record IsValid (s : State) : Type 0 where
    pub owner : Option Thread
    pub owned : Owned owner (sender_inside s.sender_at) (λ id. receiver_inside (s.receiver_at id))
    pub value : s.semaphore ≡ units owner
    pub sender_knows : SenderKnows s.sender_at s.message_counter s.buffer
    pub receiver_knows : (id : ℕ) → ReceiverKnows (s.receiver_at id) s.message_counter
    pub lines : Ordered s.message_counter s.printed

  abbrev pub OnSome : Option State → Type 0
  OnSome none = Unit
  OnSome (some s) = IsValid s

  pub Ordered-le : (m n : ℕ) (lines : List Line) → m ≤ n → Ordered m lines → Ordered n lines
  Ordered-le m n [] le o = tt
  Ordered-le m n (sent k t ∷ lines) le (h, e, o) = (omega arith, e, o)
  Ordered-le m n (received id t ∷ lines) le (k, h, e, o) = (k, omega arith, e, o)

  pub ReceiverKnows-outside :
      (place : ReceiverAt) (m n : ℕ)
      → receiver_inside place ≡ false
      → ReceiverKnows place m
      → ReceiverKnows place n
  ReceiverKnows-outside receiver_waiting m n out k = tt
  ReceiverKnows-outside (copying i got) m n out k = absurd (ground arith)
  ReceiverKnows-outside (showing got) m n out k = absurd (ground arith)
  ReceiverKnows-outside receiver_posting m n out k = absurd (ground arith)

pub initial-IsValid : (m : Messages) → IsValid m.text (initial m)
initial-IsValid m = record {
  owner = none;
  owned = record {
    writer_owns = λ e. absurd (ground arith);
    reader_owns = λ id e. absurd (ground arith);
    owner_writer = λ e. absurd (ground arith);
    owner_reader = λ id e. absurd (ground arith);
  };
  value = refl;
  sender_knows = λ i le. refl;
  receiver_knows = λ id. tt;
  lines = tt;
}

-- The bytes of a C string, and its end.
pub byte_at-length : (t : Bytes) → byte_at t (length t) ≡ 0
byte_at-length [] = refl
byte_at-length (c ∷ cs) = byte_at-length cs

pub byte_at_pos : (t : Bytes) (i : ℕ) → IsText t → i < length t → 0 < byte_at t i
byte_at_pos [] i h lt = absurd (omega arith)
byte_at_pos (c ∷ cs) zero (p, h) lt = p
byte_at_pos (c ∷ cs) (suc i) (p, h) lt = byte_at_pos cs i h (omega arith)

pub take-byte_at :
    (t : Bytes) (i : ℕ) → i < length t → take i t ++ byte_at t i ∷ [] ≡ take (suc i) t
take-byte_at [] i lt = absurd (omega arith)
take-byte_at (c ∷ cs) zero lt = refl
take-byte_at (c ∷ cs) (suc i) lt = ap (λ (x : Bytes). c ∷ x) (take-byte_at cs i (omega arith))
