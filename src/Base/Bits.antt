-- ===== src/Base/Bits.antt =====
-- The bits of a machine word, and what `|`, `&` and `~` do to each of them.
use Prim.Native.Nat.{
  ℕ, zero, suc, ◌+◌, ◌-◌, ◌*◌, ◌/◌, ◌%◌, ◌^◌, ◌≤◌, ◌<◌, min, max, bit_and, bit_or, digits, bitwise,
  bit_and-bitwise, bit_or-bitwise,
}
use mathlib.Core.Path.{◌≡◌, refl, sym, ◌∙◌}
use native.Mathlib.Nat.{pow-suc}
use native.Mathlib.Omega.{arith}
use mathlib.Core.Bool.{Bool, true, false, ◌||◌}
use secured_operation_system.Base.Tests.{to_int}

-- The recursion on digits gives the same result on any fuel that covers the first number.
module _ (rest : ℕ → ℕ) (op : ℕ → ℕ → ℕ) where
  digits_enough : (k l x y : ℕ) → x ≤ k → x ≤ l → digits rest op k x y ≡ digits rest op l x y
  digits_enough zero zero x y hk hl = refl
  digits_enough (suc k) zero zero y hk hl = refl
  digits_enough zero (suc l) zero y hk hl = refl
  digits_enough (suc k) (suc l) zero y hk hl = refl
  digits_enough (suc k) zero (suc x) y hk hl = absurd (omega arith)
  digits_enough zero (suc l) (suc x) y hk hl = absurd (omega arith)
  digits_enough (suc k) (suc l) (suc x) y hk hl =
      rw (digits_enough k l (suc x / 2) (y / 2) (omega arith) (omega arith))

  bitwise_low :
      (x y : ℕ)
      → bitwise rest op (suc x) y ≡ bitwise rest op (suc x / 2) (y / 2) * 2 + op (suc x % 2) (y % 2)
  bitwise_low x y =
      omega (arith, digits_enough x (suc x / 2) (suc x / 2) (y / 2) (omega arith) (omega arith))

bit_or_low : (x y : ℕ) → bit_or x y ≡ bit_or (x / 2) (y / 2) * 2 + max (x % 2) (y % 2)
bit_or_low zero y = simp bit_or-bitwise (omega arith)
bit_or_low (suc x) y = simp bit_or-bitwise (bitwise_low (λ b. b) max x y)

bit_and_low : (x y : ℕ) → bit_and x y ≡ bit_and (x / 2) (y / 2) * 2 + min (x % 2) (y % 2)
bit_and_low zero y = simp bit_and-bitwise (omega arith)
bit_and_low (suc x) y = simp bit_and-bitwise (bitwise_low (λ b. 0) min x y)

-- `(word >> i) & 1`
unfoldable pub bit_at : ℕ → ℕ → ℕ
bit_at word zero = word % 2
bit_at word (suc i) = bit_at (word / 2) i

pub bit_at-le : (word i : ℕ) → bit_at word i ≤ 1
unfolding bit_at
bit_at-le word zero = omega arith
bit_at-le word (suc i) = bit_at-le (word / 2) i

pub bit_at-zero : (i : ℕ) → bit_at 0 i ≡ 0
unfolding bit_at
bit_at-zero zero = refl
bit_at-zero (suc i) = bit_at-zero i

pub bit_at-bit_or : (x y i : ℕ) → bit_at (bit_or x y) i ≡ max (bit_at x i) (bit_at y i)
unfolding bit_at
bit_at-bit_or x y zero = omega (arith, bit_or_low x y)
bit_at-bit_or x y (suc i) =
    let e : bit_or x y / 2 ≡ bit_or (x / 2) (y / 2) = omega (arith, bit_or_low x y) in
    rw e (bit_at-bit_or (x / 2) (y / 2) i)

pub bit_at-bit_and : (x y i : ℕ) → bit_at (bit_and x y) i ≡ min (bit_at x i) (bit_at y i)
unfolding bit_at
bit_at-bit_and x y zero = omega (arith, bit_and_low x y)
bit_at-bit_and x y (suc i) =
    let e : bit_and x y / 2 ≡ bit_and (x / 2) (y / 2) = omega (arith, bit_and_low x y) in
    rw e (bit_at-bit_and (x / 2) (y / 2) i)

-- `~x` in a word of `width` bits
unfoldable pub bit_not : ℕ → ℕ → ℕ
bit_not width x = 2 ^ width - 1 - x

pub bit_at-bit_not :
    (width x i : ℕ) → x < 2 ^ width → i < width → bit_at (bit_not width x) i ≡ 1 - bit_at x i
unfolding bit_at bit_not
bit_at-bit_not zero x i hx hi = elim hi [ ]
bit_at-bit_not (suc width) x zero hx hi = omega (arith, pow-suc 2 width)
bit_at-bit_not (suc width) x (suc i) hx hi =
    let e : (2 ^ suc width - 1 - x) / 2 ≡ 2 ^ width - 1 - x / 2 = omega (arith, pow-suc 2 width) in
    rw e (bit_at-bit_not width (x / 2) i (omega (arith, pow-suc 2 width)) (omega arith))

-- Two words that agree in every bit are equal.
pub eq_of_bits : (fuel x y : ℕ) → x ≤ fuel → y ≤ fuel → ((i : ℕ) → bit_at x i ≡ bit_at y i) → x ≡ y
unfolding bit_at
eq_of_bits zero x y hx hy h = omega arith
eq_of_bits (suc fuel) zero zero hx hy h = refl
eq_of_bits (suc fuel) x y hx hy h =
    omega (arith, h 0, eq_of_bits fuel (x / 2) (y / 2) (omega arith) (omega arith) (λ i. h (suc i)))

bit_and-zero : (x : ℕ) → bit_and x 0 ≡ 0
bit_and-zero x =
    eq_of_bits (bit_and x 0) (bit_and x 0) 0 (omega arith) (omega arith)
      λ i. omega (arith, bit_at-bit_and x 0 i, bit_at-zero i)

-- The tests `x & 1`, `x & 2` and `x & 4`.
pub bit_and-one : (x : ℕ) → bit_and x 1 ≡ bit_at x 0
unfolding bit_at
bit_and-one x = omega (arith, bit_and_low x 1, bit_and-zero (x / 2))

pub bit_and-two : (x : ℕ) → bit_and x 2 ≡ 2 * bit_at x 1
unfolding bit_at
bit_and-two x = omega (arith, bit_and_low x 2, bit_and-one (x / 2))

pub bit_and-four : (x : ℕ) → bit_and x 4 ≡ 4 * bit_at x 2
unfolding bit_at
bit_and-four x = omega (arith, bit_and_low x 4, bit_and-two (x / 2))

-- A word with no bit from `width` on is below 2 ^ width.
pub lt_of_bits : (width x : ℕ) → ((i : ℕ) → width ≤ i → bit_at x i ≡ 0) → x < 2 ^ width
unfolding bit_at
lt_of_bits zero x h =
    let e : x ≡ 0 =
      eq_of_bits x x 0 (omega arith) (omega arith) (λ i. h i (omega arith) ∙ sym (bit_at-zero i)) in
    omega (arith, e)
lt_of_bits (suc width) x h =
    omega (arith, pow-suc 2 width, lt_of_bits width (x / 2) (λ i le. h (suc i) (omega arith)))

pub bit_at_of_lt : (width x i : ℕ) → x < 2 ^ width → width ≤ i → bit_at x i ≡ 0
unfolding bit_at
bit_at_of_lt zero x i h le = let e : x ≡ 0 = omega arith in rw e (bit_at-zero i)
bit_at_of_lt (suc width) x zero h le = absurd (omega arith)
bit_at_of_lt (suc width) x (suc i) h le =
    bit_at_of_lt width (x / 2) i (omega (arith, pow-suc 2 width)) (omega arith)

-- `|` of two C truth values.
pub bit_or_flags : (a b : Bool) → bit_or (to_int a) (to_int b) ≡ to_int (a || b)
bit_or_flags true true = refl
bit_or_flags true false = refl
bit_or_flags false true = refl
bit_or_flags false false = refl

-- The test of one bit, `x & (1 << k)`.
pub bit_and-pow : (x k : ℕ) → bit_and x (2 ^ k) ≡ bit_at x k * 2 ^ k
unfolding bit_at
bit_and-pow x zero = omega (arith, bit_and-one x)
bit_and-pow x (suc k) =
    let half : 2 ^ suc k / 2 ≡ 2 ^ k = omega (arith, pow-suc 2 k) in
    let low : 2 ^ suc k % 2 ≡ 0 = omega (arith, pow-suc 2 k) in
    let ih : bit_and (x / 2) (2 ^ suc k / 2) ≡ bit_at (x / 2) k * 2 ^ k =
      rw half (bit_and-pow (x / 2) k) in
    let double : bit_at (x / 2) k * 2 ^ suc k ≡ 2 * (bit_at (x / 2) k * 2 ^ k) =
      rw (pow-suc 2 k) (twice (bit_at (x / 2) k) (2 ^ k) (bit_at-le (x / 2) k)) in
    omega (arith, bit_and_low x (2 ^ suc k), low, ih, double)
  where
    twice : (b p : ℕ) → b ≤ 1 → b * (p * 2) ≡ 2 * (b * p)
    twice zero p h = omega arith
    twice (suc zero) p h = omega arith
    twice (suc (suc b)) p h = absurd (omega arith)
