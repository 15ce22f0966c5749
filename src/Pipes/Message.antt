-- ===== src/Pipes/Message.antt =====
-- The text that lab6_pipefifo/pipe.c and lab6_pipefifo/fifo.c send, and how it is received.
use secured_operation_system.Base.{
  ℕ, ◌+◌, ◌-◌, ◌≤◌, ◌<◌, ◌≡◌, ap, ◌∙◌, ◌++◌, Bytes, bytes, c_str, length, length-append, take,
  take_all, arith,
}
use secured_operation_system.Base.Numerals.{
  c_str-IsText, numeral, length-numeral, numeral-IsText, IsText, append-IsText,
}

-- BUFFER_SIZE
abbrev pub buffer_size : ℕ
buffer_size = 256

-- "Parent process time: %s\nParent PID: %d\n"
unfoldable pub parent_text : Bytes → ℕ → Bytes
parent_text time_str pid =
    bytes "Parent process time: "
    ++ (time_str ++ (bytes "\nParent PID: " ++ (numeral 10 10 pid ++ bytes "\n")))

-- What `snprintf` leaves in the buffer, up to its NUL.
abbrev pub sent_text : Bytes → ℕ → Bytes
sent_text time_str pid = take (buffer_size - 1) (parent_text time_str pid)

-- `read(…, BUFFER_SIZE - 1)` of what has been written, and the NUL that is set behind it.
abbrev pub received_text : Bytes → Bytes
received_text written = c_str (take (buffer_size - 1) written)

parent_text-IsText :
    (time_str : Bytes) (pid : ℕ) → IsText time_str → IsText (parent_text time_str pid)
unfolding parent_text
parent_text-IsText time_str pid h = append-IsText (bytes "Parent process time: ") _ (omega arith) (
    append-IsText time_str _ h (
      append-IsText (bytes "\nParent PID: ") _ (omega arith)
        (append-IsText (numeral 10 10 pid) _ (numeral-IsText 10 10 pid) (omega arith))))

length-parent_text :
    (time_str : Bytes) (pid : ℕ) → length (parent_text time_str pid) ≤ length time_str + 45
unfolding parent_text
length-parent_text time_str pid = omega (
  arith,
  length-append time_str (bytes "\nParent PID: " ++ (numeral 10 10 pid ++ bytes "\n")),
  length-append (numeral 10 10 pid) (bytes "\n"),
  length-numeral 10 10 pid,
)

pub parent_text_pos : (time_str : Bytes) (pid : ℕ) → 0 < length (sent_text time_str pid)
unfolding parent_text
parent_text_pos time_str pid = omega arith

-- The whole text goes through: a time of at most 63 bytes is what `time_str` holds.
pub received_text-sent_text :
    (time_str : Bytes) (pid : ℕ)
    → IsText time_str
    → length time_str ≤ 63
    → received_text (sent_text time_str pid) ≡ parent_text time_str pid
received_text-sent_text time_str pid h fits =
    let t = parent_text time_str pid in
    let short : length t ≤ 255 = omega (arith, length-parent_text time_str pid) in
    let whole : take 255 t ≡ t = take_all 255 t short in
    ap received_text whole ∙ ap c_str whole ∙ c_str-IsText t (parent_text-IsText time_str pid h)
