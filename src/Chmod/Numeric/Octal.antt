-- ===== src/Chmod/Numeric/Octal.antt =====
-- The numeric mode of lab4_chmod/mychmod.c against the value of a numeral at base 8.
use secured_operation_system.Base.{
  ℕ, ◌+◌, ◌*◌, ◌-◌, ◌/◌, ◌%◌, ◌^◌, ◌≤◌, ◌≡◌, refl, Bool, true, false, ◌||◌, not, none, some, [],
  ◌∷◌, Bytes, length, all, pos, min, ltb, if◌then◌else◌, arith,
}
use native.Mathlib.Nat.{pow-suc}
use secured_operation_system.Chmod.Numeric.{
  is_octal, is_end, octal_digits, strtol, numeric_mode, long_max,
}

-- The value of a numeral: each digit at the weight of its place.
unfoldable pub octal_value : Bytes → ℕ
octal_value [] = 0
octal_value (c ∷ s) = (c - b'0') * 8 ^ length s + octal_value s

octal_digits-value :
    (s : Bytes) (acc : ℕ) (seen : Bool)
    → all is_octal s ≡ true
    → octal_digits s acc seen ≡ record {
      value = acc * 8 ^ length s + octal_value s;
      some_digit = seen || not (is_end s);
      rest = [];
    }
unfolding octal_digits octal_value
octal_digits-value [] acc seen h = ground arith
octal_digits-value (c ∷ s) acc seen h =
    rw (pow-suc 8 (length s)) (ground (arith, octal_digits-value s (acc * 8 + (c - b'0')) true))

-- A string of octal digits, the empty one too, is read whole, and its value is `LONG_MAX` at most.
strtol-octal_value :
    (s : Bytes) → all is_octal s ≡ true → strtol s ≡ (pos (min (octal_value s) long_max), [])
unfolding strtol octal_value
strtol-octal_value [] h = refl
strtol-octal_value (c ∷ s) h = ground (arith, octal_digits-value (c ∷ s) 0 false h)

-- The guard on a string of octal digits accepts exactly the values up to 07777.
pub numeric_mode-octal_value :
    (s : Bytes)
    → all is_octal s ≡ true
    → numeric_mode s ≡ (if ltb 0o7777 (octal_value s) then none else some (octal_value s))
unfolding numeric_mode
numeric_mode-octal_value s h = rw (strtol-octal_value s h) (ground arith)

-- The four octal digits of a mode, as `ls` and the user write it.
octal_text : ℕ → Bytes
octal_text mode =
    (b'0' + mode / 512 % 8)
    ∷ (b'0' + mode / 64 % 8)
    ∷ (b'0' + mode / 8 % 8)
    ∷ (b'0' + mode % 8)
    ∷ []

octal_text-is_octal : (mode : ℕ) → all is_octal (octal_text mode) ≡ true
unfolding octal_text
octal_text-is_octal mode = ground arith

-- Every mode of twelve bits is read back from its four digits.
numeric_mode-octal_text : (mode : ℕ) → mode ≤ 0o7777 → numeric_mode (octal_text mode) ≡ some mode
numeric_mode-octal_text mode h =
    rw (numeric_mode-octal_value (octal_text mode) (octal_text-is_octal mode))
      (unfold octal_text octal_value in ground arith)
