-- ===== src/Ls/Entry.antt =====
-- What `display_entry` of lab2_ls/myls.c shows of a file.
use secured_operation_system.Base.{
  ℕ, zero, suc, ◌+◌, ◌*◌, ◌%◌, ◌^◌, ◌≤◌, ◌<◌, ◌≡◌, refl, Bool, false, not, List, [], ◌∷◌, Bytes,
  ◌==◌, if◌then◌else◌, arith, bit_and,
}
use secured_operation_system.Base.Bits.{bit_at, bit_at-le, bit_and-pow}

-- `st_mode & S_IFMT`
abbrev file_type : ℕ → ℕ
file_type mode = bit_and mode 0o170000

abbrev is_reg : ℕ → Bool
is_reg mode = file_type mode == 0o100000

abbrev is_dir : ℕ → Bool
is_dir mode = file_type mode == 0o040000

abbrev pub is_lnk : ℕ → Bool
is_lnk mode = file_type mode == 0o120000

abbrev pub type_sym : ℕ → ℕ
type_sym mode =
    if is_reg mode
    then b'-'
    else if is_dir mode
    then b'd'
    else if file_type mode == 0o020000
    then b'c'
    else if file_type mode == 0o060000
    then b'b'
    else if file_type mode == 0o010000
    then b'p'
    else if is_lnk mode
    then b'l'
    else if file_type mode == 0o140000
    then b's'
    else b'?'

abbrev perm_flags : List ℕ
perm_flags = 0o400 ∷ 0o200 ∷ 0o100 ∷ 0o040 ∷ 0o020 ∷ 0o010 ∷ 0o004 ∷ 0o002 ∷ 0o001 ∷ []

-- `perm_chars[i]` for an index below 3
abbrev perm_char : ℕ → ℕ
perm_char i = if i == 0 then b'r' else (if i == 1 then b'w' else b'x')

-- The loop over the nine permissions, from the index `i` on.
permission_chars : ℕ → ℕ → List ℕ → Bytes
permission_chars perms i [] = []
permission_chars perms i (flag ∷ flags) =
    (if bit_and perms flag == 0 then b'-' else perm_char (i % 3))
    ∷ permission_chars perms (i + 1) flags

pub permission_string : ℕ → Bytes
unfolding permission_chars
permission_string mode = permission_chars mode 0 perm_flags

-- The indices of color_codes.
pub data Color : Type 0 where
  normal folder exe link : Color

abbrev has_exec : ℕ → Bool
has_exec mode = not (bit_and mode 0o111 == 0)

-- The colour in the detailed view.
pub long_color : ℕ → Color
long_color mode =
    if is_reg mode
    then (if has_exec mode then exe else normal)
    else if is_dir mode
    then folder
    else if is_lnk mode
    then link
    else normal

-- The colour in the short view.
pub short_color : ℕ → Color
short_color mode =
    if is_dir mode
    then folder
    else if is_lnk mode
    then link
    else if has_exec mode
    then exe
    else normal

-- Is the permission of this character given?
abbrev shown_bit : ℕ → ℕ
shown_bit c = if c == b'-' then 0 else 1

-- The number that a permission string shows, read from the left.
shown_mode : ℕ → Bytes → ℕ
shown_mode acc [] = acc
shown_mode acc (c ∷ s) = shown_mode (2 * acc + shown_bit c) s

flag_bit : (b p m : ℕ) → b ≤ 1 → 0 < p → m ≡ b * p → (m == 0) ≡ (b == 0)
flag_bit zero p m h pos e = ground arith
flag_bit (suc zero) p m h pos e = ground arith
flag_bit (suc (suc b)) p m h pos e = absurd (omega arith)

char-bit :
    (mode k flag c : ℕ)
    → flag ≡ 2 ^ k
    → 0 < flag
    → (c == b'-') ≡ false
    → shown_bit (if bit_and mode flag == 0 then b'-' else c) ≡ bit_at mode k
char-bit mode k flag c e pos h =
    let masked : bit_and mode flag ≡ bit_at mode k * flag = rw e (bit_and-pow mode k) in
    ground (
      arith,
      flag_bit (bit_at mode k) flag (bit_and mode flag) (bit_at-le mode k) pos masked,
      bit_at-le mode k,
      h,
    )

-- The nine permission bits are read back from the nine characters.
shown_mode-permission_string : (mode : ℕ) → shown_mode 0 (permission_string mode) ≡ mode % 512
unfolding permission_string shown_mode
shown_mode-permission_string mode =
    rw
      (
        char-bit mode 8 0o400 b'r' refl (omega arith) refl,
        char-bit mode 7 0o200 b'w' refl (omega arith) refl,
        char-bit mode 6 0o100 b'x' refl (omega arith) refl,
        char-bit mode 5 0o040 b'r' refl (omega arith) refl,
        char-bit mode 4 0o020 b'w' refl (omega arith) refl,
        char-bit mode 3 0o010 b'x' refl (omega arith) refl,
        char-bit mode 2 0o004 b'r' refl (omega arith) refl,
        char-bit mode 1 0o002 b'w' refl (omega arith) refl,
        char-bit mode 0 0o001 b'x' refl (omega arith) refl,
      )
      (unfold bit_at in omega arith)
