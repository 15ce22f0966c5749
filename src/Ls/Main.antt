-- ===== src/Ls/Main.antt =====
-- `main` of lab2_ls/myls.c.
use secured_operation_system.Base.{ℕ, List, [], ◌∷◌, Bytes, bytes, ◌==◌, if◌then◌else◌, bit_or}
use secured_operation_system.Ls.Directory.{Fs, Result, flag_all, flag_long, process_directory}

-- What the loop over `getopt` comes to.
pub data Options : Type 0 where
  help : Options
  invalid : Options
  flags : ℕ → Options

parse_options : ℕ → List ℕ → Options
parse_options acc [] = flags acc
parse_options acc (c ∷ codes) =
    let long = parse_options (bit_or acc flag_long) codes in
    let all = parse_options (bit_or acc flag_all) codes in
    if c == b'h' then help else if c == b'l' then long else if c == b'a' then all else invalid

-- A run that shows nothing and frees no entry.
abbrev nothing_shown : ℕ → Result
nothing_shown status = record { rows = []; freed = []; status = status }

-- `getopt` is the C library's: the option codes in their order, and the operands.
unfoldable pub main : (List Bytes → List ℕ × List Bytes) → Fs → List Bytes → Result
unfolding parse_options
main getopt fs argv =
    let (codes, operands) = getopt argv in
    elim (parse_options 0 codes) [
      | help ↦ nothing_shown 0
      | invalid ↦ nothing_shown 1
      | flags f ↦ elim operands [
        | [] ↦ process_directory fs f (bytes ".")
        | target ∷ [] ↦ process_directory fs f target
        | target ∷ extra ∷ more ↦ nothing_shown 1
      ]
    ]
