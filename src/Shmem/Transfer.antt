-- ===== src/Shmem/Transfer.antt =====
-- `write_string_in_shm` of lab7_shmem/send.c, the loop of lab7_shmem/receive.c, and
-- `shm_transfer_t` of lab7_shmem/header.h.
use secured_operation_system.Base.{
  ℕ, zero, suc, ◌+◌, ◌-◌, ◌≤◌, ◌<◌, ◌≡◌, refl, ap, ap₂, ◌∙◌, [], ◌∷◌, ◌++◌, Bytes, bytes, c_str,
  length, length-append, take, drop, take_all, replicate, append-nil, ltb, if◌then◌else◌, arith,
}
use secured_operation_system.Base.Numerals.{
  c_str-append, numeral, length-numeral, numeral-IsText, IsText, append-IsText,
}

-- BUFSIZE
abbrev pub bufsize : ℕ
bufsize = 256

-- shm_transfer_t; the string has `bufsize` bytes.
pub record ShmTransfer : Type 0 where
  pub current_time : ℕ
  pub process_id : ℕ
  pub data_string : Bytes

-- What the two programs print of the string.
pub data Line : Type 0 where
  data_written : Bytes → Line
  got_data : Bytes → Line
  no_data : Line

-- "Sender time: %s, Sender PID: %d", where `now` is what `strftime` makes of the time.
unfoldable pub sender_text : Bytes → ℕ → Bytes
sender_text now pid =
    bytes "Sender time: " ++ (now ++ (bytes ", Sender PID: " ++ numeral 10 10 pid))

-- The string that `snprintf` puts into `bufsize` bytes.
abbrev sender_string : Bytes → ℕ → Bytes
sender_string now pid = take (bufsize - 1) (sender_text now pid)

-- `transfer_data` in `write_string_in_shm`: behind the NUL its string is what was on the stack.
abbrev pub transfer_data : ℕ → Bytes → ℕ → Bytes → ShmTransfer
transfer_data time now pid stack = record {
  current_time = time;
  process_id = pid;
  data_string = sender_string now pid ++ 0 ∷ stack;
}

-- The string in the shared memory when `memcpy` has copied its first `k` bytes.
abbrev pub copied : ℕ → Bytes → Bytes → Bytes
copied k new old = take k new ++ drop k old

-- `memset(shmaddr, 0, …)`
abbrev pub cleared : Bytes
cleared = replicate bufsize 0

-- A round of the receiver on the string that it has copied.
pub receive : Bytes → Line
receive s = if ltb 0 (length (c_str s)) then got_data (c_str s) else no_data

receive-append : (t rest : Bytes) → IsText t → 0 < length t → receive (t ++ 0 ∷ rest) ≡ got_data t
unfolding receive
receive-append t rest h pos = rw (c_str-append t rest h) (ground arith)

sender_text-IsText : (now : Bytes) (pid : ℕ) → IsText now → IsText (sender_text now pid)
unfolding sender_text
sender_text-IsText now pid h = append-IsText (bytes "Sender time: ") _ (omega arith) (
    append-IsText now _ h
      (append-IsText (bytes ", Sender PID: ") _ (omega arith) (numeral-IsText 10 10 pid)))

length-sender_text :
    (now : Bytes) (pid : ℕ)
    → (27 ≤ length (sender_text now pid)) × (length (sender_text now pid) ≤ length now + 37)
unfolding sender_text
length-sender_text now pid = (
  omega (arith, length-append now (bytes ", Sender PID: " ++ numeral 10 10 pid)),
  omega (
    arith,
    length-append now (bytes ", Sender PID: " ++ numeral 10 10 pid),
    length-numeral 10 10 pid,
  ),
)

receive-cleared : receive cleared ≡ no_data
unfolding receive
receive-cleared = refl

drop_all : (n : ℕ) (xs : Bytes) → length xs ≤ n → drop n xs ≡ []
drop_all zero [] h = refl
drop_all zero (x ∷ xs) h = elim h [ ]
drop_all (suc n) [] h = refl
drop_all (suc n) (x ∷ xs) h = drop_all n xs (omega arith)

-- A receiver that copies the memory after the sender's `memcpy` is over prints the sender's line in
-- full: with a time of at most 79 bytes, which is what its buffer holds, nothing of it is cut off.
-- While the memory is as it was cleared at the start the receiver says that there is no data.
pub receive-transfer_data :
    (time : ℕ) (now : Bytes) (pid : ℕ) (stack old : Bytes)
    → IsText now
    → length now ≤ 79
    → length (transfer_data time now pid stack).data_string ≡ bufsize
    → length old ≡ bufsize
    → (receive (copied bufsize (transfer_data time now pid stack).data_string old)
        ≡ got_data (sender_text now pid))
      × (receive cleared ≡ no_data)
receive-transfer_data time now pid stack old h fits size size_old =
    let t = sender_string now pid in
    let whole : t ≡ sender_text now pid =
      take_all 255 (sender_text now pid) (omega (arith, (length-sender_text now pid).1)) in
    let new = (transfer_data time now pid stack).data_string in
    let over : copied bufsize new old ≡ new =
      ap₂ (λ (x : Bytes) (y : Bytes). x ++ y) (take_all bufsize new (omega (arith, size)))
        (drop_all bufsize old (omega (arith, size_old)))
      ∙ append-nil new in
    (
      ap receive over
          ∙ receive-append t stack (rw whole (sender_text-IsText now pid h))
              (rw whole (omega (arith, (length-sender_text now pid).0)))
          ∙ ap got_data whole,
      receive-cleared,
    )
