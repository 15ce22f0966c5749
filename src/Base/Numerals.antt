-- ===== src/Base/Numerals.antt =====
-- The numerals that `printf` writes.
use Prim.Native.Nat.{ℕ, zero, suc, ◌+◌, ◌-◌, ◌/◌, ◌%◌, ◌≤◌, ◌<◌}
use mathlib.Core.Path.{◌≡◌, refl}
use mathlib.Core.List.{[], ◌∷◌, ◌++◌}
use mathlib.Core.Logic.{inl, inr}
use native.Mathlib.Omega.{arith}
use secured_operation_system.Base.Tests.{ltb, if◌then◌else◌, Bool-cases}
use secured_operation_system.Base.Lists.{take, drop, length, length-append, All}
use secured_operation_system.Base.Text.{Bytes, c_str}

-- A number in a base up to 16, with at most `fuel` digits: `%d` of an `int` that is not negative
-- needs ten, and `%lx` of an `unsigned long` needs sixteen.
abbrev digit : ℕ → ℕ
digit d = if ltb d 10 then b'0' + d else b'a' + (d - 10)

unfoldable pub numeral : ℕ → ℕ → ℕ → Bytes
numeral base zero n = []
numeral base (suc fuel) n =
    let more = numeral base fuel (n / base) in
    if ltb n base then digit n ∷ [] else more ++ digit (n % base) ∷ []

pub length-numeral : (base fuel n : ℕ) → length (numeral base fuel n) ≤ fuel
unfolding numeral
length-numeral base zero n = omega arith
length-numeral base (suc fuel) n = ground (
  arith,
  length-numeral base fuel (n / base),
  length-append (numeral base fuel (n / base)) (digit (n % base) ∷ []),
)

-- A text without NUL.
abbrev pub IsText : Bytes → Type 0
IsText = All (λ c. 0 < c)

pub append-IsText : (s t : Bytes) → IsText s → IsText t → IsText (s ++ t)
append-IsText [] t h k = k
append-IsText (c ∷ s) t (p, h) k = (p, append-IsText s t h k)

digit_pos : (d : ℕ) → 0 < digit d
digit_pos d = ground arith

pub numeral-IsText : (base fuel n : ℕ) → IsText (numeral base fuel n)
unfolding numeral
numeral-IsText base zero n = tt
numeral-IsText base (suc fuel) n = elim (Bool-cases (ltb n base)) [
  | inl e ↦ rw e (digit_pos n, tt)
  | inr e ↦ rw e (
      append-IsText (numeral base fuel (n / base)) (digit (n % base) ∷ [])
        (numeral-IsText base fuel (n / base)) (digit_pos (n % base), tt))
]

-- `%02d` of a number below 100
unfoldable pub two_digits : ℕ → Bytes
two_digits n = digit (n / 10 % 10) ∷ digit (n % 10) ∷ []

length-two_digits : (n : ℕ) → length (two_digits n) ≡ 2
unfolding two_digits
length-two_digits n = refl

pub two_digits-IsText : (n : ℕ) → IsText (two_digits n)
unfolding two_digits
two_digits-IsText n = (digit_pos (n / 10 % 10), (digit_pos (n % 10), tt))

pub take-IsText : (n : ℕ) (t : Bytes) → IsText t → IsText (take n t)
take-IsText zero t h = tt
take-IsText (suc n) [] h = tt
take-IsText (suc n) (c ∷ cs) (p, h) = (p, take-IsText n cs h)

pub drop-IsText : (n : ℕ) (t : Bytes) → IsText t → IsText (drop n t)
drop-IsText zero t h = h
drop-IsText (suc n) [] h = tt
drop-IsText (suc n) (c ∷ cs) (p, h) = drop-IsText n cs h

-- A text is what `%s` sees of it, alone or with a NUL behind it.
pub c_str-IsText : (t : Bytes) → IsText t → c_str t ≡ t
c_str-IsText [] h = refl
c_str-IsText (c ∷ cs) (p, h) = ground (arith, p, c_str-IsText cs h)

pub c_str-append : (t rest : Bytes) → IsText t → c_str (t ++ 0 ∷ rest) ≡ t
c_str-append [] rest h = refl
c_str-append (c ∷ cs) rest (p, h) = ground (arith, p, c_str-append cs rest h)
