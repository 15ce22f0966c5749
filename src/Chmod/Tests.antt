-- ===== src/Chmod/Tests.antt =====
-- The theorems on lab4_chmod/mychmod.c at a file system with one file, "f".
use secured_operation_system.Base.{
  ℕ, ◌/◌, ◌<◌, ◌^◌, ◌≡◌, refl, sym, ap, Bool, true, false, Option, none, some, bytes, contains,
  str_eq, if◌then◌else◌, arith, dec_lt,
}
use secured_operation_system.Base.Bits.{bit_at, bit_not}
use secured_operation_system.Chmod.Os.{FileModes, IsLawful}
use secured_operation_system.Chmod.Numeric.{numeric_mode, strtol, change_mode, apply_numeric_mode}
use secured_operation_system.Chmod.Numeric.Octal.{octal_value}
use secured_operation_system.Chmod.Symbolic.{
  symbolic_change, new_mode, apply_symbolic_mode, parse_categories, parse_permissions,
  effective_bits, add_if,
}
use secured_operation_system.Chmod.Symbolic.Categories.{letter_of}
use secured_operation_system.Chmod.Symbolic.Laws.{selects, wanted, Changed, symbolic_change-mode}
use secured_operation_system.Chmod.Main.{main, is_numeric}
use secured_operation_system.Chmod.Main.Laws.{
  command, HasBits, main-failure, main-octal_value, main-mode,
}

-- A mode of 32 bits.
abbrev Word : Type 0
Word = (mode : ℕ) × (mode < 2 ^ 32)

abbrev store : (mode : ℕ) → Dec (mode < 2 ^ 32) → Bool → Option Word
store mode (yes h) true = some (mode, h)
store mode (no _) true = none
store mode d false = none

abbrev one_file : FileModes
one_file = record {
  State = Word;
  stat = λ s path. if str_eq path (bytes "f") then some s.0 else none;
  chmod = λ s path mode. store mode (dec_lt mode (2 ^ 32)) (str_eq path (bytes "f"));
}

store-some :
    (mode : ℕ) (d : Dec (mode < 2 ^ 32)) (b : Bool) (t : Word)
    → store mode d b ≡ some t
    → (b ≡ true) × (t.0 ≡ mode)
store-some mode (yes h) true t e =
    (refl, sym (ap (λ (o : Option Word). elim o [ none ↦ 0 | some w ↦ w.0 ]) e))
store-some mode (no _) true t e = absurd (ground arith)
store-some mode (yes h) false t e = absurd (ground arith)
store-some mode (no _) false t e = absurd (ground arith)

one_file-IsLawful : IsLawful one_file
one_file-IsLawful = record {
  stat_width = λ s path e. ground (arith, s.1);
  stat-chmod = λ s t path mode e.
      let (here, same) = store-some mode (dec_lt mode (2 ^ 32)) (str_eq path (bytes "f")) t e in
      (mode, rw here (ap some same), λ i lt. refl);
}

abbrev mode_0644 : Word
mode_0644 = (0o644, omega arith)

main-failure_example :
    (main one_file (command (bytes "u*x") (bytes "f")) mode_0644).state ≡ mode_0644
unfolding main is_numeric apply_symbolic_mode symbolic_change parse_categories parse_permissions
main-failure_example =
    main-failure one_file (command (bytes "u*x") (bytes "f")) mode_0644 (λ e. omega (arith, e))

main-octal_value_example :
    HasBits one_file
      (main one_file (command (bytes "750") (bytes "f")) mode_0644).state
      (bytes "f")
      (bit_at (octal_value (bytes "750")))
unfolding octal_value main is_numeric apply_numeric_mode numeric_mode strtol change_mode dec_lt
main-octal_value_example =
    main-octal_value one_file one_file-IsLawful mode_0644 (bytes "750") (bytes "f") refl
      (omega arith) refl

main-mode_example :
    HasBits one_file
      (main one_file (command (bytes "go-r") (bytes "f")) mode_0644).state
      (bytes "f")
      (λ i.
        wanted b'-'
          (selects (bytes "go") (i / 3))
          (contains (bytes "r") (letter_of i))
          (bit_at 0o644 i))
unfolding main is_numeric apply_symbolic_mode symbolic_change parse_categories parse_permissions
    change_mode dec_lt new_mode bit_not effective_bits add_if
main-mode_example =
    main-mode one_file one_file-IsLawful mode_0644 (bytes "f") (bytes "go") (bytes "r") b'-' 0o644
      refl refl refl refl refl

symbolic_change-mode_example : Changed (bytes "u") b'=' (bytes "rx") 0o644
symbolic_change-mode_example =
    symbolic_change-mode (bytes "u") (bytes "rx") b'=' 0o644 refl refl refl
