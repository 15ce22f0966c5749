-- ===== src/Chmod/Numeric.antt =====
-- `apply_numeric_mode` of lab4_chmod/mychmod.c, with the `strtol` of the C library at base 8.
pub mod Octal
use secured_operation_system.Base.{
  ℕ, ◌+◌, ◌*◌, ◌-◌, ◌^◌, Bool, true, false, ◌||◌, ◌&&◌, not, Option, none, some, List, [], ◌∷◌,
  Bytes, leb, ltb, ◌==◌, if◌then◌else◌, ℤ, pos, negsuc, is_negative, pos_part, min,
}
use secured_operation_system.Chmod.Os.{
  FileModes, Outcome, Message, invalid_numeric, system_error, exit_success, exit_failure,
}

-- `isspace` in the C locale.
is_space : ℕ → Bool
is_space c = c == b' ' || (leb 9 c && leb c 13)

abbrev pub is_octal : ℕ → Bool
is_octal c = leb b'0' c && leb c b'7'

-- The value read so far, whether a digit was read, and the rest of the string.
pub record Digits : Type 0 where
  pub value : ℕ
  pub some_digit : Bool
  pub rest : Bytes

pub octal_digits : Bytes → ℕ → Bool → Digits
octal_digits [] value seen = record { value = value; some_digit = seen; rest = [] }
octal_digits (c ∷ s) value seen =
    let more = octal_digits s (value * 8 + (c - b'0')) true in
    if is_octal c then more else record { value = value; some_digit = seen; rest = c ∷ s }

skip_space : Bytes → Bytes
skip_space [] = []
skip_space (c ∷ s) = let more = skip_space s in if is_space c then more else c ∷ s

-- `LONG_MAX` of a 64-bit `long`
abbrev pub long_max : ℕ
long_max = 2 ^ 63 - 1

-- The value that `strtol` returns for a magnitude behind a sign, out of range too.
signed_value : Bool → ℕ → ℤ
signed_value false m = pos (min m long_max)
signed_value true m = if m == 0 then pos 0 else negsuc (min (m - 1) long_max)

-- The value, and the string at `*end_ptr`. With no digit `*end_ptr` is the whole argument.
finish : Bytes → Bool → Digits → ℤ × Bytes
unfolding signed_value
finish input negative d =
    if d.some_digit then (signed_value negative d.value, d.rest) else (pos 0, input)

after_space : Bytes → Bytes → ℤ × Bytes
unfolding finish octal_digits
after_space input [] = (pos 0, input)
after_space input (c ∷ s) =
    if c == b'-'
    then finish input true (octal_digits s 0 false)
    else if c == b'+'
    then finish input false (octal_digits s 0 false)
    else finish input false (octal_digits (c ∷ s) 0 false)

-- `strtol(input, &end_ptr, 8)`
unfoldable pub strtol : Bytes → ℤ × Bytes
unfolding after_space skip_space is_space
strtol input = after_space input (skip_space input)

abbrev is_end : Bytes → Bool
is_end [] = true
is_end (_ ∷ _) = false

-- The guard of the function; `none` is the invalid mode.
unfoldable pub numeric_mode : Bytes → Option ℕ
numeric_mode input =
    let (value, rest) = strtol input in
    if not (is_end rest) || is_negative value || ltb 0o7777 (pos_part value)
    then none
    else some (pos_part value)

module _ (fs : FileModes) where
  -- The call of `chmod`, with its report; both ways of the program end in it.
  unfoldable pub change_mode : fs.State → Bytes → ℕ → Outcome fs.State
  change_mode s path mode = elim (fs.chmod s path mode) [
    | none ↦ record { status = exit_failure; errors = system_error path ∷ []; state = s }
    | some t ↦ record { status = exit_success; errors = []; state = t }
  ]

  unfoldable pub apply_numeric_mode : Bytes → Bytes → fs.State → Outcome fs.State
  apply_numeric_mode input path s = elim (numeric_mode input) [
    | none ↦ record { status = exit_failure; errors = invalid_numeric input ∷ []; state = s }
    | some mode ↦ change_mode s path mode
  ]
