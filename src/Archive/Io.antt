-- ===== src/Archive/Io.antt =====
-- `complete_write`, `duplicate_content` and `skip_bytes` of lab5_archive/main.c, over system calls
-- that may fail and may transfer fewer bytes than they were asked for.
pub mod Write
pub mod Copy
pub mod Skip
use secured_operation_system.Base.{
  ℕ, zero, suc, ◌-◌, Bool, true, false, List, [], ◌∷◌, ◌++◌, Bytes, length, take, drop, min, leb,
  ◌==◌, if◌then◌else◌,
}

-- How the next call of `read` or `write` ends: -1, or a transfer of so many bytes at most. Once the
-- list of these is used up, every call transfers all that it can.
pub data Io : Type 0 where
  fail : Io
  amount : ℕ → Io

-- What a `write` of the whole buffer comes to: 0 or -1, the bytes that reached the file, and the
-- calls to come.
pub record Written : Type 0 where
  pub success : Bool
  pub written : Bytes
  pub later : List Io

-- `count` is the length of the buffer. A `write` that returns 0 is an error (EIO).
pub complete_write : List Io → Bytes → Written
complete_write io [] = record { success = true; written = []; later = io }
complete_write [] (b ∷ buf) = record { success = true; written = b ∷ buf; later = [] }
complete_write (fail ∷ io) (b ∷ buf) = record { success = false; written = []; later = io }
complete_write (amount zero ∷ io) (b ∷ buf) = record { success = false; written = []; later = io }
complete_write (amount (suc k) ∷ io) (b ∷ buf) =
    let more = complete_write io (drop k buf) in
    record {
      success = more.success;
      written = b ∷ (take k buf ++ more.written);
      later = more.later;
    }

-- `read(fd, buffer, count)` where `rest` is what stands behind the position.
pub data Read : Type 0 where
  read_error : List Io → Read
  got : Bytes → List Io → Read

unfoldable pub read_some : List Io → ℕ → Bytes → Read
read_some [] count rest = got (take count rest) []
read_some (fail ∷ io) count rest = read_error io
read_some (amount k ∷ io) count rest = got (take (min k count) rest) io

abbrev pub transfer_buffer_size : ℕ
transfer_buffer_size = 8192

pub data Status : Type 0 where
  done failed out_of_fuel : Status

-- The return value, the bytes that reached the destination, what is left to read of the source,
-- and the calls to come.
pub record Copied : Type 0 where
  pub status : Status
  pub copied : Bytes
  pub rest : Bytes
  pub later : List Io

abbrev pub copied_before : Bytes → Copied → Copied
copied_before w c = record c { copied = w ++ c.copied }

abbrev stopped : Status → Bytes → Bytes → List Io → Copied
stopped status w rest io = record { status = status; copied = w; rest = rest; later = io }

-- One round after `read`: the rest of the loop is `again`, for the bytes that are left.
abbrev write_chunk : Bytes → Bytes → Written → (List Io → Copied) → Copied
write_chunk chunk rest w again =
    if w.success
    then copied_before w.written (again w.later)
    else stopped failed w.written rest w.later

abbrev copy_chunk : Bytes → Read → (ℕ → Bytes → List Io → Copied) → Copied
copy_chunk rest (read_error io) again = stopped failed [] rest io
copy_chunk rest (got [] io) again = stopped failed [] rest io
copy_chunk rest (got (b ∷ chunk) io) again =
    write_chunk (b ∷ chunk) (drop (length (b ∷ chunk)) rest) (complete_write io (b ∷ chunk))
      (again (length (b ∷ chunk)) (drop (length (b ∷ chunk)) rest))

-- The loop; a round copies at least a byte, so `bytes_remaining` rounds are enough.
copy_loop : ℕ → List Io → Bytes → ℕ → Copied
copy_loop fuel io rest zero = stopped done [] rest io
copy_loop zero io rest (suc n) = stopped out_of_fuel [] rest io
copy_loop (suc fuel) io rest (suc n) =
    copy_chunk rest (read_some io (min transfer_buffer_size (suc n)) rest)
      (λ k rest' io'. copy_loop fuel io' rest' (suc n - k))

pub duplicate_content : List Io → Bytes → ℕ → Copied
unfolding copy_loop
duplicate_content io rest total_bytes = copy_loop total_bytes io rest total_bytes

abbrev skip_chunk : Bytes → Read → (ℕ → Bytes → List Io → Copied) → Copied
skip_chunk rest (read_error io) again = stopped failed [] rest io
skip_chunk rest (got [] io) again = stopped failed [] rest io
skip_chunk rest (got (b ∷ chunk) io) again =
    again (length (b ∷ chunk)) (drop (length (b ∷ chunk)) rest) io

skip_loop : ℕ → List Io → Bytes → ℕ → Copied
skip_loop fuel io rest zero = stopped done [] rest io
skip_loop zero io rest (suc n) = stopped out_of_fuel [] rest io
skip_loop (suc fuel) io rest (suc n) =
    skip_chunk rest (read_some io (min transfer_buffer_size (suc n)) rest)
      (λ k rest' io'. skip_loop fuel io' rest' (suc n - k))

-- `lseek` serves where the file can seek; otherwise the bytes are read and dropped.
pub skip_bytes : Bool → List Io → Bytes → ℕ → Copied
unfolding skip_loop
skip_bytes seekable io rest len =
    if seekable then stopped done [] (drop len rest) io else skip_loop len io rest len
