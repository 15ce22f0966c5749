-- ===== src/Sems/Process.antt =====
-- The messages of lab9_sems/send.c and lab9_sems/receive.c.
use secured_operation_system.Base.{
  ℕ, zero, suc, ◌-◌, ◌≤◌, ◌≡◌, refl, List, [], ◌++◌, Bytes, bytes, length, length-append, take,
  length-take, take_all, arith, some,
}
use secured_operation_system.Base.Numerals.{
  take-IsText, numeral, length-numeral, numeral-IsText, two_digits, two_digits-IsText, IsText,
  append-IsText,
}
use secured_operation_system.Threads.Owner.{Thread}
use secured_operation_system.Sems.Exchange.{Messages, State, initial, step, run}
use secured_operation_system.Sems.Invariant.{Fits, Ordered}
use secured_operation_system.Sems.Schedules.{exchanged-IsValid, exchanged-steps}

-- The fields of `struct tm` that are printed.
pub record Clock : Type 0 where
  pub hour : ℕ
  pub minute : ℕ
  pub second : ℕ

-- "%02d:%02d:%02d"
unfoldable pub clock_text : Clock → Bytes
clock_text c =
    two_digits c.hour ++ (bytes ":" ++ (two_digits c.minute ++ (bytes ":" ++ two_digits c.second)))

length-clock_text : (c : Clock) → length (clock_text c) ≡ 8
unfolding clock_text two_digits
length-clock_text c = refl

pub clock_text-IsText : (c : Clock) → IsText (clock_text c)
unfolding clock_text
clock_text-IsText c = append-IsText (two_digits c.hour) _ (two_digits-IsText c.hour) (
    append-IsText (bytes ":") _ (omega arith, tt)
      (append-IsText (two_digits c.minute) _ (two_digits-IsText c.minute)
        (append-IsText (bytes ":") _ (omega arith, tt) (two_digits-IsText c.second))))

-- What is left of a text that `snprintf` writes into a buffer of so many bytes.
abbrev pub fit : ℕ → Bytes → Bytes
fit size t = take (size - 1) t

-- BUFFER_SIZE
abbrev pub buffer_size : ℕ
buffer_size = 1024

module _ (clock : ℕ → Clock) (pid : ℕ) where
  -- "[MESSAGE #%d] Time: %02d:%02d:%02d, PID: %d"
  unfoldable pub message_format : ℕ → Bytes
  message_format n =
      bytes "[MESSAGE #"
      ++ (numeral 10 10 n
          ++ (bytes "] Time: " ++ (clock_text (clock n) ++ (bytes ", PID: " ++ numeral 10 10 pid))))

  -- The segment is made of zeros; the messages count from 1.
  abbrev pub message : ℕ → Bytes
  message zero = []
  message (suc n) = fit 100 (message_format (suc n))

  -- `strncpy` fills the segment up to its last byte, which is set to NUL; the receiver copies 99
  -- bytes at most.
  abbrev pub messages : Messages
  messages = record { text = message; span = λ n. buffer_size; limit = 99 }

  message_format-IsText : (n : ℕ) → IsText (message_format n)
  unfolding message_format
  message_format-IsText n = append-IsText (bytes "[MESSAGE #") _ (omega arith) (
      append-IsText (numeral 10 10 n) _ (numeral-IsText 10 10 n) (
        append-IsText (bytes "] Time: ") _ (omega arith) (
          append-IsText (clock_text (clock n)) _ (clock_text-IsText (clock n))
            (append-IsText (bytes ", PID: ") _ (omega arith) (numeral-IsText 10 10 pid)))))

  length-message_format : (n : ℕ) → length (message_format n) ≤ 53
  unfolding message_format
  length-message_format n = omega (
    arith,
    length-append (numeral 10 10 n)
        (bytes "] Time: " ++ (clock_text (clock n) ++ (bytes ", PID: " ++ numeral 10 10 pid))),
    length-append (clock_text (clock n)) (bytes ", PID: " ++ numeral 10 10 pid),
    length-clock_text (clock n),
    length-numeral 10 10 n,
    length-numeral 10 10 pid,
  )

  length-message : (n : ℕ) → length (message n) ≤ 99
  length-message zero = omega arith
  length-message (suc n) = omega (arith, length-take 99 (message_format (suc n)))

  message-IsText : (n : ℕ) → IsText (message n)
  message-IsText zero = tt
  message-IsText (suc n) = take-IsText 99 (message_format (suc n)) (message_format-IsText (suc n))

  messages-Fits : Fits messages
  messages-Fits = record {
    plain = message-IsText;
    spanned = λ n. omega (arith, length-message n);
    short = length-message;
  }

  -- No message is cut off by the buffers that it passes: what is put into the shared memory is the
  -- text in full, at most 53 bytes.
  message-whole :
      (n : ℕ) → (message (suc n) ≡ message_format (suc n)) × (length (message (suc n)) ≤ 53)
  message-whole n =
      let le = length-message_format (suc n) in
      (
        take_all 99 (message_format (suc n)) (omega (arith, le)),
        omega (arith, le, length-take 99 (message_format (suc n))),
      )

  -- Under every schedule of one sender and any receivers, what a receiver shows is a whole message
  -- of the sender, or nothing before the first, though both sides go through the memory byte by byte;
  -- the messages that are shown come in the order in which they were sent; and the sender's lines
  -- show what it sent.
  pub exchanged-Ordered :
      (ts : List Thread)
      → Ordered message
          (run messages ts (initial messages)).message_counter
          (run messages ts (initial messages)).printed
  exchanged-Ordered ts = (exchanged-IsValid messages messages-Fits ts).lines

  -- Under every schedule the sender or one of the receivers can take a step.
  exchanged-moves :
      (ts : List Thread)
      → (t : Thread) × (s : State) × (step messages t (run messages ts (initial messages)) ≡ some s)
  exchanged-moves ts = exchanged-steps messages messages-Fits ts
