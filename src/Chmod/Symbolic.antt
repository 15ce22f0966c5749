-- ===== src/Chmod/Symbolic.antt =====
-- `apply_symbolic_mode` of lab4_chmod/mychmod.c.
pub mod Categories
pub mod Modes
pub mod Laws
pub mod Twice
use secured_operation_system.Base.{
  ℕ, Bool, true, false, ◌||◌, Option, none, some, List, [], ◌∷◌, Bytes, bytes, contains, ◌==◌,
  if◌then◌else◌, bit_and, bit_or,
}
use secured_operation_system.Base.Bits.{bit_not}
use secured_operation_system.Chmod.Os.{
  FileModes, Outcome, invalid_operator, invalid_permission, system_error, exit_failure,
}
use secured_operation_system.Chmod.Numeric.{change_mode}

-- S_IRWXU, S_IRWXG, S_IRWXO
abbrev pub s_irwxu : ℕ
s_irwxu = 0o700

abbrev pub s_irwxg : ℕ
s_irwxg = 0o070

abbrev pub s_irwxo : ℕ
s_irwxo = 0o007

-- The `switch` of the first loop.
abbrev pub category_bits : ℕ → ℕ
category_bits c =
    if c == b'u'
    then 4
    else if c == b'g'
    then 2
    else if c == b'o'
    then 1
    else if c == b'a'
    then 7
    else 0

-- The loop over the letters of `ugoa`: the categories, and the string at `parse_pos`.
unfoldable pub parse_categories : Bytes → ℕ → ℕ × Bytes
parse_categories [] categories = (categories, [])
parse_categories (c ∷ s) categories =
    let more = parse_categories s (bit_or categories (category_bits c)) in
    if contains (bytes "ugoa") c then more else (categories, c ∷ s)

-- `S_IRUSR | S_IRGRP | S_IROTH`, and so on; `none` is the default case of the `switch`.
abbrev pub permission_bits : ℕ → Option ℕ
permission_bits c =
    if c == b'r'
    then some 0o444
    else if c == b'w'
    then some 0o222
    else if c == b'x'
    then some 0o111
    else none

pub data Permissions : Type 0 where
  flags : ℕ → Permissions
  unknown : ℕ → Permissions

abbrev add_flags : Option ℕ → ℕ → (ℕ → Permissions) → Permissions
add_flags none c next = unknown c
add_flags (some b) c next = next b

-- The loop over the letters of `rwx`.
unfoldable pub parse_permissions : Bytes → ℕ → Permissions
parse_permissions [] acc = flags acc
parse_permissions (c ∷ s) acc =
    add_flags (permission_bits c) c (λ b. parse_permissions s (bit_or acc b))

-- `if (categories & bit) word |= mask`
unfoldable pub add_if : ℕ → ℕ → ℕ → ℕ → ℕ
add_if categories bit word mask = if bit_and categories bit == 0 then word else bit_or word mask

pub category_mask : ℕ → ℕ
category_mask categories =
    add_if categories 1 (add_if categories 2 (add_if categories 4 0 s_irwxu) s_irwxg) s_irwxo

unfoldable pub effective_bits : ℕ → ℕ → ℕ
effective_bits categories permission_flags =
    add_if categories 1
      (add_if categories 2 (add_if categories 4 0 (bit_and permission_flags s_irwxu))
        (bit_and permission_flags s_irwxg))
      (bit_and permission_flags s_irwxo)

-- The last `switch`; `mode_t` has 32 bits.
unfoldable pub new_mode : ℕ → ℕ → ℕ → ℕ → ℕ
new_mode operation categories permission_flags mode =
    let effective = effective_bits categories permission_flags in
    if operation == b'+'
    then bit_or mode effective
    else if operation == b'-'
    then bit_and mode (bit_not 32 effective)
    else if operation == b'='
    then bit_or (bit_and mode (bit_not 32 (category_mask categories))) effective
    else mode

-- What the parse of the specification comes to, for the mode that `stat` gave.
pub data Change : Type 0 where
  change_to : ℕ → Change
  bad_operator : Change
  bad_permission : ℕ → Change

abbrev finish : ℕ → ℕ → ℕ → Permissions → Change
finish operation categories mode (unknown c) = bad_permission c
finish operation categories mode (flags f) = change_to (new_mode operation categories f mode)

after_categories : ℕ → ℕ → Bytes → Change
after_categories mode categories [] = bad_operator
after_categories mode categories (c ∷ s) =
    if c == b'+' || c == b'-' || c == b'='
    then finish c categories mode (parse_permissions s 0)
    else bad_operator

unfoldable pub symbolic_change : Bytes → ℕ → Change
unfolding after_categories
symbolic_change spec mode =
    let (categories, rest) = parse_categories spec 0 in
    after_categories mode (if categories == 0 then 7 else categories) rest

module _ (fs : FileModes) where
  perform : Bytes → Bytes → fs.State → Change → Outcome fs.State
  perform spec path s (change_to mode) = change_mode fs s path mode
  perform spec path s bad_operator = record {
    status = exit_failure;
    errors = invalid_operator spec ∷ [];
    state = s;
  }
  perform spec path s (bad_permission c) = record {
    status = exit_failure;
    errors = invalid_permission c spec ∷ [];
    state = s;
  }

  unfoldable pub apply_symbolic_mode : Bytes → Bytes → fs.State → Outcome fs.State
  unfolding perform
  apply_symbolic_mode spec path s = elim (fs.stat s path) [
    | none ↦ record { status = exit_failure; errors = system_error path ∷ []; state = s }
    | some mode ↦ perform spec path s (symbolic_change spec mode)
  ]
