-- ===== src/Sems/ThreadPair.antt =====
-- The two threads of lab9_sems/thread_example.c.
use secured_operation_system.Base.{
  ℕ, zero, suc, ◌+◌, ◌≤◌, List, ◌++◌, Bytes, bytes, length, length-take, arith,
}
use secured_operation_system.Base.Numerals.{
  take-IsText, numeral, numeral-IsText, IsText, append-IsText,
}
use secured_operation_system.Threads.Owner.{Thread}
use secured_operation_system.Sems.Exchange.{Messages, initial, run}
use secured_operation_system.Sems.Invariant.{Fits, Ordered}
use secured_operation_system.Sems.Schedules.{exchanged-IsValid}
use secured_operation_system.Sems.Process.{Clock, clock_text, clock_text-IsText, fit}

-- BUFFER_SIZE
abbrev shared_buffer_size : ℕ
shared_buffer_size = 256

module _ (clock : ℕ → Clock) where
  -- "Message #%d at %02d:%02d:%02d"
  unfoldable pub thread_format : ℕ → Bytes
  thread_format n = bytes "Message #" ++ (numeral 10 10 n ++ (bytes " at " ++ clock_text (clock n)))

  abbrev pub thread_message : ℕ → Bytes
  thread_message zero = bytes "Initial empty buffer"
  thread_message (suc n) = fit shared_buffer_size (thread_format (suc n))

  -- `snprintf` writes the text and its NUL; `printf` reads to the NUL.
  abbrev pub thread_messages : Messages
  thread_messages = record {
    text = thread_message;
    span = λ n. length (thread_message n) + 1;
    limit = shared_buffer_size;
  }

  thread_format-IsText : (n : ℕ) → IsText (thread_format n)
  unfolding thread_format
  thread_format-IsText n = append-IsText (bytes "Message #") _ (omega arith) (
      append-IsText (numeral 10 10 n) _ (numeral-IsText 10 10 n)
        (append-IsText (bytes " at ") _ (omega arith) (clock_text-IsText (clock n))))

  thread_message-IsText : (n : ℕ) → IsText (thread_message n)
  thread_message-IsText zero = omega arith
  thread_message-IsText (suc n) =
      take-IsText 255 (thread_format (suc n)) (thread_format-IsText (suc n))

  length-thread_message : (n : ℕ) → length (thread_message n) ≤ shared_buffer_size
  length-thread_message zero = omega arith
  length-thread_message (suc n) = omega (arith, length-take 255 (thread_format (suc n)))

  thread_messages-Fits : Fits thread_messages
  thread_messages-Fits = record {
    plain = thread_message-IsText;
    spanned = λ n. omega arith;
    short = length-thread_message;
  }

  -- Under every schedule the reader shows the first content of the buffer or a whole message of the
  -- writer, never a part of one over a part of another, and the messages in their order.
  pub threads-Ordered :
      (ts : List Thread)
      → Ordered thread_message
          (run thread_messages ts (initial thread_messages)).message_counter
          (run thread_messages ts (initial thread_messages)).printed
  threads-Ordered ts = (exchanged-IsValid thread_messages thread_messages-Fits ts).lines
