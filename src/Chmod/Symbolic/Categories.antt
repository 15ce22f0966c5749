-- ===== src/Chmod/Symbolic/Categories.antt =====
-- The two loops of `apply_symbolic_mode`, against the letters that a specification holds.
use secured_operation_system.Base.{
  ℕ, zero, suc, ◌%◌, ◌<◌, max, ◌≡◌, refl, Bool, true, false, ◌||◌, not, some, [], ◌∷◌, ◌++◌, Bytes,
  bytes, contains, all, ◌==◌, to_int, if◌then◌else◌, bit_or, arith, Bool-cases, inl, inr,
}
use secured_operation_system.Base.Bits.{bit_at, bit_at-bit_or}
use secured_operation_system.Chmod.Symbolic.{
  category_bits, parse_categories, permission_bits, flags, unknown, parse_permissions,
}

-- The letter of the class that permission bit `i` belongs to, and the letter of the permission.
abbrev class_of : ℕ → ℕ
class_of k = if k == 0 then b'o' else if k == 1 then b'g' else b'u'

abbrev pub letter_of : ℕ → ℕ
letter_of i = if i % 3 == 0 then b'x' else if i % 3 == 1 then b'w' else b'r'

-- Does a list of letters name class `k`, by its own letter or by `a`?
abbrev pub names : Bytes → ℕ → Bool
names who k = contains who (class_of k) || contains who b'a'

abbrev pub is_category : ℕ → Bool
is_category c = contains (bytes "ugoa") c

abbrev pub is_permission : ℕ → Bool
is_permission c = contains (bytes "rwx") c

-- The first byte of a string is no letter of `ugoa`, or there is none.
abbrev pub stops : Bytes → Bool
stops [] = true
stops (c ∷ _) = not (is_category c)

category_bits-bit :
    (c k : ℕ)
    → k < 3
    → is_category c ≡ true
    → bit_at (category_bits c) k ≡ to_int (c == class_of k || c == b'a')
unfolding bit_at
category_bits-bit c zero h q = ground arith
category_bits-bit c (suc zero) h q = ground arith
category_bits-bit c (suc (suc zero)) h q = ground arith
category_bits-bit c (suc (suc (suc k))) h q = absurd (omega arith)

pub parse_categories-rest :
    (who rest : Bytes) (acc : ℕ)
    → all is_category who ≡ true
    → stops rest ≡ true
    → (parse_categories (who ++ rest) acc).1 ≡ rest
unfolding parse_categories
parse_categories-rest [] [] acc p q = refl
parse_categories-rest [] (c ∷ rest) acc p q = ground arith
parse_categories-rest (c ∷ who) rest acc p q =
    ground (arith, parse_categories-rest who rest (bit_or acc (category_bits c)))

pub parse_categories-bit :
    (who rest : Bytes) (acc k : ℕ)
    → k < 3
    → all is_category who ≡ true
    → stops rest ≡ true
    → bit_at (parse_categories (who ++ rest) acc).0 k ≡ max (bit_at acc k) (to_int (names who k))
unfolding parse_categories
parse_categories-bit [] [] acc k h p q = omega arith
parse_categories-bit [] (c ∷ rest) acc k h p q = ground arith
parse_categories-bit (c ∷ who) rest acc k h p q = ground (
  arith,
  parse_categories-bit who rest (bit_or acc (category_bits c)) k h,
  bit_at-bit_or acc (category_bits c) k,
  category_bits-bit c k h,
)

-- Bit `i` of `S_IRUSR | S_IRGRP | S_IROTH` and so on, for the letter `c`.
permission_bits-bit :
    (c i f : ℕ) → i < 9 → permission_bits c ≡ some f → bit_at f i ≡ to_int (c == letter_of i)
unfolding bit_at
permission_bits-bit c zero f h e = ground arith
permission_bits-bit c (suc zero) f h e = ground arith
permission_bits-bit c (suc (suc zero)) f h e = ground arith
permission_bits-bit c (suc (suc (suc zero))) f h e = ground arith
permission_bits-bit c (suc (suc (suc (suc zero)))) f h e = ground arith
permission_bits-bit c (suc (suc (suc (suc (suc zero))))) f h e = ground arith
permission_bits-bit c (suc (suc (suc (suc (suc (suc zero)))))) f h e = ground arith
permission_bits-bit c (suc (suc (suc (suc (suc (suc (suc zero))))))) f h e = ground arith
permission_bits-bit c (suc (suc (suc (suc (suc (suc (suc (suc zero)))))))) f h e = ground arith
permission_bits-bit c (suc (suc (suc (suc (suc (suc (suc (suc (suc i))))))))) f h e =
    absurd (omega arith)

permission_bits-known : (c : ℕ) → is_permission c ≡ true → (f : ℕ) × (permission_bits c ≡ some f)
permission_bits-known c q = elim (Bool-cases (c == b'r')) [
  | inl r ↦ (0o444, rw r)
  | inr nr ↦ elim (Bool-cases (c == b'w')) [
    | inl w ↦ (0o222, rw (nr, w))
    | inr nw ↦ (0o111, ground arith)
  ]
]

-- What the second loop makes of letters of `rwx` only: bit `i` is set by its letter.
pub record Parsed (perms : Bytes) (acc : ℕ) : Type 0 where
  pub value : ℕ
  pub parsed : parse_permissions perms acc ≡ flags value
  pub bit :
      (i : ℕ) → i < 9 → bit_at value i ≡ max (bit_at acc i) (to_int (contains perms (letter_of i)))

pub parse_permissions-bit :
    (perms : Bytes) (acc : ℕ) → all is_permission perms ≡ true → Parsed perms acc
unfolding parse_permissions
parse_permissions-bit [] acc p = record { value = acc; parsed = refl; bit = λ i h. omega arith }
parse_permissions-bit (c ∷ perms) acc p =
    let (f, known) = permission_bits-known c (ground arith) in
    let ih = parse_permissions-bit perms (bit_or acc f) (ground arith) in
    record {
      value = ih.value;
      parsed = rw known ih.parsed;
      bit = λ i h.
          ground (arith, ih.bit i h, bit_at-bit_or acc f i, permission_bits-bit c i f h known);
    }

-- The first letter outside `rwx` is the one that is reported.
pub parse_permissions-unknown :
    (perms rest : Bytes) (c acc : ℕ)
    → all is_permission perms ≡ true
    → is_permission c ≡ false
    → parse_permissions (perms ++ c ∷ rest) acc ≡ unknown c
unfolding parse_permissions
parse_permissions-unknown [] rest c acc p q = ground arith
parse_permissions-unknown (d ∷ perms) rest c acc p q =
    let (f, known) = permission_bits-known d (ground arith) in
    rw known (parse_permissions-unknown perms rest c (bit_or acc f) (ground arith) q)
