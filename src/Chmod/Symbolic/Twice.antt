-- ===== src/Chmod/Symbolic/Twice.antt =====
-- A symbolic specification of lab4_chmod/mychmod.c that is applied twice.
use secured_operation_system.Base.{
  ℕ, ◌/◌, ◌<◌, ◌^◌, ◌≡◌, ap, [], ◌∷◌, Bytes, arith, Bool-cases, inl, inr, bit_and, ◌+◌, dec_lt,
}
use secured_operation_system.Base.Bits.{
  bit_at-le, bit_at-bit_or, bit_at-bit_and, bit_at_of_lt, eq_of_bits, lt_of_bits, bit_not,
}
use secured_operation_system.Chmod.Symbolic.{
  change_to, parse_categories, parse_permissions, symbolic_change, new_mode, Permissions,
  after_categories, finish, effective_bits, category_mask, flags, unknown,
}
use secured_operation_system.Chmod.Symbolic.Modes.{new_mode-bit, effective_bits-bit}
use secured_operation_system.Chmod.Symbolic.Laws.{is_operator, categories_of}

-- Bits above the mode stay clear.
new_mode-lt :
    (operation categories f mode : ℕ)
    → mode < 2 ^ 32
    → new_mode operation categories f mode < 2 ^ 32
unfolding new_mode
new_mode-lt operation categories f mode h = lt_of_bits 32 _ λ i le. ground (
  arith,
  bit_at_of_lt 32 mode i h le,
  effective_bits-bit categories f i,
  bit_at-bit_or mode (effective_bits categories f) i,
  bit_at-bit_and mode (bit_not 32 (effective_bits categories f)) i,
  bit_at-bit_or (bit_and mode (bit_not 32 (category_mask categories))) (effective_bits categories f)
      i,
  bit_at-bit_and mode (bit_not 32 (category_mask categories)) i,
)

-- The same change twice is the change once.
new_mode-new_mode :
    (operation categories f mode : ℕ)
    → mode < 2 ^ 32
    → new_mode operation categories f (new_mode operation categories f mode)
      ≡ new_mode operation categories f mode
new_mode-new_mode operation categories f mode h =
    let once : ℕ = new_mode operation categories f mode in
    let twice : ℕ = new_mode operation categories f once in
    eq_of_bits (once + twice) twice once (omega arith) (omega arith) λ i. elim (dec_lt i 32) [
      | yes lt ↦ ground (
        arith,
        new_mode-bit operation categories f mode i lt,
        new_mode-bit operation categories f once i lt,
        bit_at-le f i,
        bit_at-le mode i,
        bit_at-le categories (i / 3),
      )
      | no ge ↦
          let lt1 = new_mode-lt operation categories f mode h in
          let lt2 = new_mode-lt operation categories f once lt1 in
          omega (
            arith,
            bit_at_of_lt 32 once i lt1 (omega arith),
            bit_at_of_lt 32 twice i lt2 (omega arith),
          )
    ]

finish_idem :
    (operation categories mode after : ℕ) (parsed : Permissions)
    → mode < 2 ^ 32
    → finish operation categories mode parsed ≡ change_to after
    → finish operation categories after parsed ≡ change_to after
finish_idem operation categories mode after (unknown c) h e = e
finish_idem operation categories mode after (flags f) h e =
    let same : new_mode operation categories f mode ≡ after = cc in
    rw (← same) (ap change_to (new_mode-new_mode operation categories f mode h))

after_categories_idem :
    (mode after categories : ℕ) (rest : Bytes)
    → mode < 2 ^ 32
    → after_categories mode categories rest ≡ change_to after
    → after_categories after categories rest ≡ change_to after
unfolding symbolic_change
after_categories_idem mode after categories [] h e = cc
after_categories_idem mode after categories (c ∷ s) h e = elim (Bool-cases (is_operator c)) [
  | inl op ↦ rw op (finish_idem c categories mode after (parse_permissions s 0) h (rw op at e))
  | inr nop ↦ absurd (ground arith)
]

-- For a mode of 32 bits the whole symbolic change is idempotent: applied to its own result it
-- gives that result again.
symbolic_change_idem :
    (spec : Bytes) (mode after : ℕ)
    → mode < 2 ^ 32
    → symbolic_change spec mode ≡ change_to after
    → symbolic_change spec after ≡ change_to after
unfolding symbolic_change
symbolic_change_idem spec mode after h e =
    after_categories_idem mode after (categories_of spec) (parse_categories spec 0).1 h e
