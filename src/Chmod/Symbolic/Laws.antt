-- ===== src/Chmod/Symbolic/Laws.antt =====
-- What a symbolic specification of lab4_chmod/mychmod.c does to a mode.
use secured_operation_system.Base.{
  ℕ, zero, suc, ◌/◌, ◌<◌, ◌≤◌, ◌≡◌, refl, Bool, true, false, ◌||◌, not, [], ◌∷◌, ◌++◌, Bytes,
  contains, all, ◌==◌, to_int, if◌then◌else◌, arith,
}
use secured_operation_system.Base.Bits.{bit_at, bit_at-le, bit_at-zero}
use secured_operation_system.Chmod.Symbolic.{
  change_to, bad_operator, bad_permission, parse_categories, symbolic_change, new_mode,
}
use secured_operation_system.Chmod.Symbolic.Categories.{
  letter_of, names, is_category, is_permission, stops, parse_categories-rest, parse_categories-bit,
  parse_permissions-bit, parse_permissions-unknown,
}
use secured_operation_system.Chmod.Symbolic.Modes.{updated, new_mode-bit}

abbrev pub is_operator : ℕ → Bool
is_operator c = c == b'+' || c == b'-' || c == b'='

abbrev is_empty : Bytes → Bool
is_empty [] = true
is_empty (_ ∷ _) = false

-- No letter before the operator means all three classes.
abbrev pub selects : Bytes → ℕ → Bool
selects who k = is_empty who || names who k

-- The permission bit that the documentation of chmod(1) asks for.
abbrev pub wanted : ℕ → Bool → Bool → ℕ → ℕ
wanted operation selected listed old =
    if not selected
    then old
    else if operation == b'='
    then to_int listed
    else if listed
    then (if operation == b'+' then 1 else 0)
    else old

-- The categories that the function works with, after the default.
abbrev pub categories_of : Bytes → ℕ
categories_of spec = let c = (parse_categories spec 0).0 in if c == 0 then 7 else c

operator_stops : (op : ℕ) (perms : Bytes) → is_operator op ≡ true → stops (op ∷ perms) ≡ true
operator_stops op perms h = ground arith

-- Some class is named by the first letter, so the default is not taken.
categories_of-bit_cons :
    (c : ℕ) (who rest : Bytes) (k : ℕ)
    → k < 3
    → all is_category (c ∷ who) ≡ true
    → stops rest ≡ true
    → bit_at (categories_of (c ∷ who ++ rest)) k ≡ to_int (names (c ∷ who) k)
categories_of-bit_cons c who rest k h p q = ground (
  arith,
  parse_categories-bit (c ∷ who) rest 0 k h p q,
  parse_categories-bit (c ∷ who) rest 0 0 (omega arith) p q,
  parse_categories-bit (c ∷ who) rest 0 1 (omega arith) p q,
  parse_categories-bit (c ∷ who) rest 0 2 (omega arith) p q,
  bit_at-zero 0,
  bit_at-zero 1,
  bit_at-zero 2,
  bit_at-zero k,
)

categories_of-bit :
    (who rest : Bytes) (k : ℕ)
    → k < 3
    → all is_category who ≡ true
    → stops rest ≡ true
    → bit_at (categories_of (who ++ rest)) k ≡ to_int (selects who k)
unfolding bit_at parse_categories
categories_of-bit [] [] zero h p q = refl
categories_of-bit [] [] (suc zero) h p q = refl
categories_of-bit [] [] (suc (suc zero)) h p q = refl
categories_of-bit [] [] (suc (suc (suc k))) h p q = absurd (omega arith)
categories_of-bit [] (c ∷ rest) zero h p q = ground arith
categories_of-bit [] (c ∷ rest) (suc zero) h p q = ground arith
categories_of-bit [] (c ∷ rest) (suc (suc zero)) h p q = ground arith
categories_of-bit [] (c ∷ rest) (suc (suc (suc k))) h p q = absurd (omega arith)
categories_of-bit (c ∷ who) rest k h p q = categories_of-bit_cons c who rest k h p q

-- With no bit above the ninth and the effective bits in place, the update is the wanted one.
updated-wanted :
    (operation : ℕ) (selected listed : Bool) (old : ℕ)
    → is_operator operation ≡ true
    → old ≤ 1
    → updated operation (to_int selected) (to_int listed) old ≡ wanted operation selected listed old
updated-wanted operation selected listed old h le = ground arith

-- The new mode of a specification `who operation perms`.
pub record Changed (who : Bytes) (operation : ℕ) (perms : Bytes) (mode : ℕ) : Type 0 where
  pub after : ℕ
  pub changed : symbolic_change (who ++ operation ∷ perms) mode ≡ change_to after
  pub permission :
      (i : ℕ)
      → i < 9
      → bit_at after i
        ≡ wanted operation (selects who (i / 3)) (contains perms (letter_of i)) (bit_at mode i)
  pub kept : (i : ℕ) → 9 ≤ i → i < 32 → bit_at after i ≡ bit_at mode i

-- A specification of letters of `ugoa`, one operator and letters of `rwx` changes each of the nine
-- permission bits as asked for, and no other bit of the mode.
pub symbolic_change-mode :
    (who perms : Bytes) (operation mode : ℕ)
    → all is_category who ≡ true
    → is_operator operation ≡ true
    → all is_permission perms ≡ true
    → Changed who operation perms mode
unfolding symbolic_change
symbolic_change-mode who perms operation mode p h q =
    let rest : Bytes = operation ∷ perms in
    let st = operator_stops operation perms h in
    let parse = parse_permissions-bit perms 0 q in
    let cats : ℕ = categories_of (who ++ rest) in
    record {
      after = new_mode operation cats parse.value mode;
      changed = rw (parse_categories-rest who rest 0 p st, h, parse.parsed);
      permission = λ i lt. ground (
        arith,
        new_mode-bit operation cats parse.value mode i,
        categories_of-bit who rest (i / 3) (omega arith) p st,
        parse.bit i lt,
        bit_at-zero i,
        bit_at-le mode i,
        updated-wanted operation (selects who (i / 3)) (contains perms (letter_of i))
            (bit_at mode i) h,
      );
      kept = λ i le lt.
          ground (arith, new_mode-bit operation cats parse.value mode i lt, bit_at-le mode i);
    }

-- Letters of `ugoa` that no operator follows are refused as a bad operator.
symbolic_change-bad_operator :
    (who rest : Bytes) (mode : ℕ)
    → all is_category who ≡ true
    → stops rest ≡ true
    → ((c : ℕ) (s : Bytes) → rest ≡ c ∷ s → is_operator c ≡ false)
    → symbolic_change (who ++ rest) mode ≡ bad_operator
unfolding symbolic_change
symbolic_change-bad_operator who [] mode p q h = rw (parse_categories-rest who [] 0 p q)
symbolic_change-bad_operator who (c ∷ s) mode p q h =
    rw (parse_categories-rest who (c ∷ s) 0 p q, h c s refl)

-- A letter outside `rwx` behind the operator and any right letters is refused as a bad permission.
symbolic_change-bad_permission :
    (who perms rest : Bytes) (operation c mode : ℕ)
    → all is_category who ≡ true
    → is_operator operation ≡ true
    → all is_permission perms ≡ true
    → is_permission c ≡ false
    → symbolic_change (who ++ operation ∷ (perms ++ c ∷ rest)) mode ≡ bad_permission c
unfolding symbolic_change
symbolic_change-bad_permission who perms rest operation c mode p h q n = rw (
  parse_categories-rest who (operation ∷ (perms ++ c ∷ rest)) 0 p
      (operator_stops operation (perms ++ c ∷ rest) h),
  h,
  parse_permissions-unknown perms rest c 0 q n,
)
