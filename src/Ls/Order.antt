-- ===== src/Ls/Order.antt =====
-- `entry_sorter` of lab2_ls/myls.c.
use secured_operation_system.Base.{
  ℕ, ◌≡◌, refl, Bool, true, false, not, ◌&&◌, [], ◌∷◌, Bytes, tolower, ltb, ◌==◌, if◌then◌else◌,
  arith,
}

-- The result of a comparison function, of which only the sign counts.
pub data Sign : Type 0 where
  negative zero_sign positive : Sign

-- The sign of two bytes, or of the rest where they are equal.
abbrev pub by_bytes : ℕ → ℕ → Sign → Sign
by_bytes x y rest = if ltb x y then negative else (if ltb y x then positive else rest)

-- strcasecmp(3)
abbrev pub strcasecmp : Bytes → Bytes → Sign
strcasecmp [] [] = zero_sign
strcasecmp [] (b ∷ t) = negative
strcasecmp (a ∷ s) [] = positive
strcasecmp (a ∷ s) (b ∷ t) = by_bytes (tolower a) (tolower b) (strcasecmp s t)

-- `d_name[0] == '.'`
abbrev pub is_hidden : Bytes → Bool
is_hidden [] = false
is_hidden (c ∷ s) = c == b'.'

unfoldable pub entry_sorter : Bytes → Bytes → Sign
entry_sorter first second =
    if is_hidden first && not (is_hidden second)
    then negative
    else (if not (is_hidden first) && is_hidden second then positive else strcasecmp first second)

abbrev opposite : Sign → Sign
opposite negative = positive
opposite zero_sign = zero_sign
opposite positive = negative

-- Does the first stand behind the second?
abbrev pub is_positive : Sign → Bool
is_positive positive = true
is_positive _ = false

by_bytes-opposite :
    (x y : ℕ) (r r' : Sign) → r' ≡ opposite r → by_bytes y x r' ≡ opposite (by_bytes x y r)
by_bytes-opposite x y r r' e = ground arith

by_bytes_trans :
    (x y z : ℕ) (p q r : Sign)
    → (is_positive p ≡ false → is_positive q ≡ false → is_positive r ≡ false)
    → is_positive (by_bytes x y p) ≡ false
    → is_positive (by_bytes y z q) ≡ false
    → is_positive (by_bytes x z r) ≡ false
by_bytes_trans x y z p q r h k l = ground arith

strcasecmp-opposite : (s t : Bytes) → strcasecmp t s ≡ opposite (strcasecmp s t)
strcasecmp-opposite [] [] = refl
strcasecmp-opposite [] (b ∷ t) = refl
strcasecmp-opposite (a ∷ s) [] = refl
strcasecmp-opposite (a ∷ s) (b ∷ t) =
    by_bytes-opposite (tolower a) (tolower b) _ _ (strcasecmp-opposite s t)

strcasecmp_trans :
    (s t u : Bytes)
    → is_positive (strcasecmp s t) ≡ false
    → is_positive (strcasecmp t u) ≡ false
    → is_positive (strcasecmp s u) ≡ false
strcasecmp_trans [] t [] p q = refl
strcasecmp_trans [] t (c ∷ u) p q = refl
strcasecmp_trans (a ∷ s) [] u p q = absurd (ground arith)
strcasecmp_trans (a ∷ s) (b ∷ t) [] p q = absurd (ground arith)
strcasecmp_trans (a ∷ s) (b ∷ t) (c ∷ u) p q =
    by_bytes_trans (tolower a) (tolower b) (tolower c) (strcasecmp s t) (strcasecmp t u)
      (strcasecmp s u) (strcasecmp_trans s t u) p q

-- The order of two entries does not depend on which of them `entry_sorter` is given first, as
-- `qsort` needs it.
pub entry_sorter-opposite : (s t : Bytes) → entry_sorter t s ≡ opposite (entry_sorter s t)
unfolding entry_sorter
entry_sorter-opposite s t = ground (arith, strcasecmp-opposite s t)

-- An entry that does not stand behind a second, which does not stand behind a third, does not
-- stand behind the third, as `qsort` needs it.
pub entry_sorter_trans :
    (s t u : Bytes)
    → is_positive (entry_sorter s t) ≡ false
    → is_positive (entry_sorter t u) ≡ false
    → is_positive (entry_sorter s u) ≡ false
unfolding entry_sorter
entry_sorter_trans s t u p q = ground (arith, strcasecmp_trans s t u)
