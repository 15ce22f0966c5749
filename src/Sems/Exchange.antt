-- ===== src/Sems/Exchange.antt =====
-- The loops that lab9_sems has twice: between the processes of send.c and receive.c, and between the
-- two threads of thread_example.c. One side puts message after message into the shared buffer, the
-- others read it, and each side holds the semaphore meanwhile. The buffer is written and read byte
-- by byte, so that another process may run between any two bytes.
use secured_operation_system.Base.{
  ℕ, zero, suc, ◌+◌, ◌-◌, Option, none, some, List, [], ◌∷◌, ◌++◌, Bytes, ltb, ◌==◌, if◌then◌else◌,
}
use secured_operation_system.Threads.Family.{set}
use secured_operation_system.Threads.Owner.{Thread, writer, reader}

-- Where the sender stands: at the wait for the semaphore, where the next message is made, at a byte
-- of the buffer, at its line, or where the semaphore is given back. The sleep is before the wait.
pub data SenderAt : Type 0 where
  waiting formatting : SenderAt
  writing : ℕ → SenderAt
  telling posting : SenderAt

-- Where a receiver stands: at the wait, at a byte of the buffer behind the bytes that it has read,
-- at its line, or where the semaphore is given back.
pub data ReceiverAt : Type 0 where
  receiver_waiting : ReceiverAt
  copying : ℕ → Bytes → ReceiverAt
  showing : Bytes → ReceiverAt
  receiver_posting : ReceiverAt

pub data Line : Type 0 where
  sent : ℕ → Bytes → Line
  received : ℕ → Bytes → Line

pub record State : Type 0 where
  pub buffer : ℕ → ℕ
  pub message_counter : ℕ
  pub semaphore : ℕ
  pub sender_at : SenderAt
  pub receiver_at : ℕ → ReceiverAt
  pub printed : List Line

-- The byte of a C string at an index, NUL behind the end.
abbrev pub byte_at : Bytes → ℕ → ℕ
byte_at [] i = 0
byte_at (c ∷ cs) zero = c
byte_at (c ∷ cs) (suc i) = byte_at cs i

-- The wait for a semaphore: it returns only if the value is not 0, and takes one.
abbrev pub take_one : State → State → Option State
take_one s next =
    if s.semaphore == 0 then none else some (record next { semaphore = s.semaphore - 1 })

abbrev give_one : State → State
give_one s = record s { semaphore = s.semaphore + 1 }

-- The two programs differ in the text of the messages, of which the one with the number 0 is in the
-- buffer at the start; in how many bytes of the buffer a message writes; and in how many bytes of it
-- a receiver reads at most.
pub record Messages : Type 0 where
  pub text : ℕ → Bytes
  pub span : ℕ → ℕ
  pub limit : ℕ

module _ (m : Messages) where
  -- The buffer as it is made, and a semaphore with the value 1.
  abbrev pub initial : State
  initial = record {
    buffer = byte_at (m.text 0);
    message_counter = 0;
    semaphore = 1;
    sender_at = waiting;
    receiver_at = λ _. receiver_waiting;
    printed = [];
  }

  unfoldable pub sender_step : SenderAt → State → Option State
  sender_step waiting s = take_one s (record s { sender_at = formatting })
  sender_step formatting s =
      some (record s { message_counter = s.message_counter + 1; sender_at = writing 0 })
  sender_step (writing i) s = some (
      if ltb i (m.span s.message_counter)
      then record s {
        buffer = set s.buffer i (byte_at (m.text s.message_counter) i);
        sender_at = writing (i + 1);
      }
      else record s { sender_at = telling })
  sender_step telling s = some (record s {
    printed = sent s.message_counter (m.text s.message_counter) ∷ s.printed;
    sender_at = posting;
  })
  sender_step posting s = some (give_one (record s { sender_at = waiting }))

  abbrev pub move : State → ℕ → ReceiverAt → State
  move s id place = record s { receiver_at = set s.receiver_at id place }

  unfoldable pub receiver_step : ℕ → ReceiverAt → State → Option State
  receiver_step id receiver_waiting s = take_one s (move s id (copying 0 []))
  receiver_step id (copying i got) s = some (
      if ltb i m.limit
      then if s.buffer i == 0
        then move s id (showing got)
        else move s id (copying (i + 1) (got ++ s.buffer i ∷ []))
      else move s id (showing got))
  receiver_step id (showing got) s =
      some (record (move s id receiver_posting) { printed = received id got ∷ s.printed })
  receiver_step id receiver_posting s = some (give_one (move s id receiver_waiting))

  unfoldable pub step : Thread → State → Option State
  unfolding sender_step receiver_step
  step writer s = sender_step s.sender_at s
  step (reader id) s = receiver_step id (s.receiver_at id) s

  -- The processes in the order that the scheduler gives; one that waits leaves the state.
  unfoldable pub run : List Thread → State → State
  unfolding step
  run [] s = s
  run (t ∷ ts) s = elim (step t s) [ none ↦ run ts s | some s' ↦ run ts s' ]
