-- ===== src/Chmod/Symbolic/Modes.antt =====
-- The masks and the new mode of `apply_symbolic_mode`, bit by bit.
use secured_operation_system.Base.{
  ℕ, zero, suc, ◌/◌, ◌-◌, ◌<◌, ◌^◌, max, min, ◌≡◌, refl, ◌==◌, ltb, to_int, if◌then◌else◌, bit_and,
  arith,
}
use secured_operation_system.Base.Bits.{
  bit_at, bit_at-le, bit_at-zero, bit_at-bit_or, bit_at-bit_and, bit_at-bit_not, bit_not,
  bit_and-one, bit_and-two, bit_and-four, lt_of_bits,
}
use secured_operation_system.Chmod.Symbolic.{
  s_irwxu, s_irwxg, s_irwxo, add_if, category_mask, effective_bits, new_mode,
}

-- Bit `i` of the mask of one class, at the index of a class.
mask-bit :
    (i : ℕ)
    → (bit_at s_irwxu i ≡ to_int (i / 3 == 2))
      × (bit_at s_irwxg i ≡ to_int (i / 3 == 1))
      × (bit_at s_irwxo i ≡ to_int (i / 3 == 0))
unfolding bit_at
mask-bit zero = (refl, refl, refl)
mask-bit (suc zero) = (refl, refl, refl)
mask-bit (suc (suc zero)) = (refl, refl, refl)
mask-bit (suc (suc (suc zero))) = (refl, refl, refl)
mask-bit (suc (suc (suc (suc zero)))) = (refl, refl, refl)
mask-bit (suc (suc (suc (suc (suc zero))))) = (refl, refl, refl)
mask-bit (suc (suc (suc (suc (suc (suc zero)))))) = (refl, refl, refl)
mask-bit (suc (suc (suc (suc (suc (suc (suc zero))))))) = (refl, refl, refl)
mask-bit (suc (suc (suc (suc (suc (suc (suc (suc zero)))))))) = (refl, refl, refl)
mask-bit (suc (suc (suc (suc (suc (suc (suc (suc (suc i))))))))) =
    (ground (arith, bit_at-zero i), ground (arith, bit_at-zero i), ground (arith, bit_at-zero i))

module _ (categories i : ℕ) where
  -- `if (categories & bit) word |= mask`, for the bit of class `k`.
  add_if-bit :
      (word mask : ℕ)
      → (bit_at (add_if categories 4 word mask) i
          ≡ max (bit_at word i) (min (bit_at categories 2) (bit_at mask i)))
        × (bit_at (add_if categories 2 word mask) i
            ≡ max (bit_at word i) (min (bit_at categories 1) (bit_at mask i)))
        × (bit_at (add_if categories 1 word mask) i
            ≡ max (bit_at word i) (min (bit_at categories 0) (bit_at mask i)))
  unfolding add_if
  add_if-bit word mask = (
    ground (
      arith,
      bit_and-four categories,
      bit_at-le categories 2,
      bit_at-le mask i,
      bit_at-bit_or word mask i,
    ),
    ground (
      arith,
      bit_and-two categories,
      bit_at-le categories 1,
      bit_at-le mask i,
      bit_at-bit_or word mask i,
    ),
    ground (
      arith,
      bit_and-one categories,
      bit_at-le categories 0,
      bit_at-le mask i,
      bit_at-bit_or word mask i,
    ),
  )

-- Is the class of bit `i` among the categories?
abbrev chosen : ℕ → ℕ → ℕ
chosen categories i = if ltb i 9 then bit_at categories (i / 3) else 0

category_mask-bit : (categories i : ℕ) → bit_at (category_mask categories) i ≡ chosen categories i
unfolding category_mask
category_mask-bit categories i =
    let w : ℕ = add_if categories 4 0 s_irwxu in
    let v : ℕ = add_if categories 2 w s_irwxg in
    ground (
      arith,
      (add_if-bit categories i v s_irwxo).2,
      (add_if-bit categories i w s_irwxg).1,
      (add_if-bit categories i 0 s_irwxu).0,
      bit_at-le categories (i / 3),
      bit_at-zero i,
      mask-bit i,
    )

pub effective_bits-bit :
    (categories f i : ℕ)
    → bit_at (effective_bits categories f) i ≡ min (chosen categories i) (bit_at f i)
unfolding effective_bits
effective_bits-bit categories f i =
    let w : ℕ = add_if categories 4 0 (bit_and f s_irwxu) in
    let v : ℕ = add_if categories 2 w (bit_and f s_irwxg) in
    ground (
      arith,
      (add_if-bit categories i v (bit_and f s_irwxo)).2,
      (add_if-bit categories i w (bit_and f s_irwxg)).1,
      (add_if-bit categories i 0 (bit_and f s_irwxu)).0,
      bit_at-bit_and f s_irwxo i,
      bit_at-bit_and f s_irwxg i,
      bit_at-bit_and f s_irwxu i,
      bit_at-le f i,
      bit_at-le categories (i / 3),
      bit_at-zero i,
      mask-bit i,
    )

category_mask-lt : (categories : ℕ) → category_mask categories < 2 ^ 32
category_mask-lt categories = lt_of_bits 32 _ λ i h. ground (arith, category_mask-bit categories i)

effective_bits-lt : (categories f : ℕ) → effective_bits categories f < 2 ^ 32
effective_bits-lt categories f =
    lt_of_bits 32 _ λ i h. ground (arith, effective_bits-bit categories f i)

-- What each operator does to a bit: `sel` tells whether its class is chosen, `flag` whether its
-- letter is given.
abbrev pub updated : ℕ → ℕ → ℕ → ℕ → ℕ
updated operation sel flag old =
    if operation == b'+'
    then max old (min sel flag)
    else if operation == b'-'
    then min old (1 - min sel flag)
    else if operation == b'='
    then (if sel == 0 then old else flag)
    else old

pub new_mode-bit :
    (operation categories f mode i : ℕ)
    → i < 32
    → bit_at (new_mode operation categories f mode) i
      ≡ updated operation (chosen categories i) (bit_at f i) (bit_at mode i)
unfolding new_mode
new_mode-bit operation categories f mode i h =
    let e : ℕ = effective_bits categories f in
    let m : ℕ = category_mask categories in
    ground (
      arith,
      effective_bits-bit categories f i,
      category_mask-bit categories i,
      bit_at-bit_or mode e i,
      bit_at-bit_and mode (bit_not 32 e) i,
      bit_at-bit_not 32 e i (effective_bits-lt categories f) h,
      bit_at-bit_or (bit_and mode (bit_not 32 m)) e i,
      bit_at-bit_and mode (bit_not 32 m) i,
      bit_at-bit_not 32 m i (category_mask-lt categories) h,
      bit_at-le categories (i / 3),
      bit_at-le f i,
      bit_at-le mode i,
    )
