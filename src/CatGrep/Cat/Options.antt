-- ===== src/CatGrep/Cat/Options.antt =====
-- The option flags of the text processor of lab1_cat_grep/main.c.
use secured_operation_system.Base.{
  ℕ, ◌≡◌, refl, ap, ◌∙◌, Bool, true, false, ◌||◌, Option, none, some, List, [], ◌∷◌, contains, ◌==◌,
  if◌then◌else◌, arith, Bool-cases, ==_eq, all, inl, inr, bit_or,
}
use secured_operation_system.Base.Bits.{
  bit_at-le, bit_at-bit_or, bit_and-one, bit_and-two, bit_and-four,
}
use secured_operation_system.CatGrep.Cat.{
  selected_options, has_flag, line_num_flag, nonblank_num_flag, end_marker_flag,
}

-- The three flags of a word of options.
pub record Flags : Type 0 where
  pub number : Bool
  pub nonblank : Bool
  pub ends : Bool

abbrev flags_of : ℕ → Flags
flags_of options = record {
  number = has_flag options line_num_flag;
  nonblank = has_flag options nonblank_num_flag;
  ends = has_flag options end_marker_flag;
}

flag_one : (x y : ℕ) → has_flag (bit_or x y) 1 ≡ (has_flag x 1 || has_flag y 1)
flag_one x y = ground (
  arith,
  bit_and-one (bit_or x y),
  bit_and-one x,
  bit_and-one y,
  bit_at-bit_or x y 0,
  bit_at-le x 0,
  bit_at-le y 0,
)

flag_two : (x y : ℕ) → has_flag (bit_or x y) 2 ≡ (has_flag x 2 || has_flag y 2)
flag_two x y = ground (
  arith,
  bit_and-two (bit_or x y),
  bit_and-two x,
  bit_and-two y,
  bit_at-bit_or x y 1,
  bit_at-le x 1,
  bit_at-le y 1,
)

flag_four : (x y : ℕ) → has_flag (bit_or x y) 4 ≡ (has_flag x 4 || has_flag y 4)
flag_four x y = ground (
  arith,
  bit_and-four (bit_or x y),
  bit_and-four x,
  bit_and-four y,
  bit_at-bit_or x y 2,
  bit_at-le x 2,
  bit_at-le y 2,
)

-- What the codes add to the flags.
abbrev merge : Flags → List ℕ → Flags
merge flags codes = record {
  number = flags.number || contains codes b'n';
  nonblank = flags.nonblank || contains codes b'b';
  ends = flags.ends || contains codes b'E';
}

abbrev is_option : ℕ → Bool
is_option c = c == b'n' || c == b'b' || c == b'E'

abbrev flags : Bool → Bool → Bool → Flags
flags n b e = record { number = n; nonblank = b; ends = e }

flags_eq : {n n' b b' e e' : Bool} → n ≡ n' → b ≡ b' → e ≡ e' → flags n b e ≡ flags n' b' e'
flags_eq p q r = λ i. flags (p i) (q i) (r i)

or_false : (b : Bool) → b ≡ (b || false)
or_false true = refl
or_false false = refl

module _ (options : ℕ) (codes : List ℕ) where
  merge_n : merge (flags_of (bit_or options 1)) codes ≡ merge (flags_of options) (b'n' ∷ codes)
  merge_n =
      flags_eq (rw (flag_one options 1) (ground arith)) (rw (flag_two options 1) (ground arith))
        (rw (flag_four options 1) (ground arith))

  merge_b : merge (flags_of (bit_or options 2)) codes ≡ merge (flags_of options) (b'b' ∷ codes)
  merge_b =
      flags_eq (rw (flag_one options 2) (ground arith)) (rw (flag_two options 2) (ground arith))
        (rw (flag_four options 2) (ground arith))

  merge_e : merge (flags_of (bit_or options 4)) codes ≡ merge (flags_of options) (b'E' ∷ codes)
  merge_e =
      flags_eq (rw (flag_one options 4) (ground arith)) (rw (flag_two options 4) (ground arith))
        (rw (flag_four options 4) (ground arith))

abbrev map_option : {A B : Type 0} → (A → B) → Option A → Option B
map_option f none = none
map_option f (some a) = some (f a)

-- The text processor's flags are the set of the options given: an option counts wherever it stands
-- and however often; a list with an unknown option gives no flags.
selected_options-Flags :
    (options : ℕ) (codes : List ℕ)
    → (map_option flags_of (selected_options options codes)
        ≡ (if all is_option codes then some (merge (flags_of options) codes) else none))
unfolding selected_options
selected_options-Flags options [] = ap some (flags_eq (or_false _) (or_false _) (or_false _))
selected_options-Flags options (c ∷ codes) = elim (Bool-cases (c == b'n')) [
  | inl n ↦
      let e : c ≡ b'n' = ==_eq c b'n' n in
      rw e (
        selected_options-Flags (bit_or options 1) codes
        ∙ ap (λ m. if all is_option codes then some m else none) (merge_n options codes))
  | inr n ↦ elim (Bool-cases (c == b'b')) [
    | inl b ↦
        let e : c ≡ b'b' = ==_eq c b'b' b in
        rw e (
          selected_options-Flags (bit_or options 2) codes
          ∙ ap (λ m. if all is_option codes then some m else none) (merge_b options codes))
    | inr b ↦ elim (Bool-cases (c == b'E')) [
      | inl t ↦
          let e : c ≡ b'E' = ==_eq c b'E' t in
          rw e (
            selected_options-Flags (bit_or options 4) codes
            ∙ ap (λ m. if all is_option codes then some m else none) (merge_e options codes))
      | inr t ↦ rw n (rw b (rw t refl))
    ]
  ]
]
