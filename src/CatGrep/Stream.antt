-- ===== src/CatGrep/Stream.antt =====
-- Reading a stream by `getline`, and what lab1_cat_grep/main.c prints.
use secured_operation_system.Base.{
  ℕ, zero, suc, ◌+◌, ◌-◌, ◌/◌, ◌%◌, ◌≡◌, refl, ap, ◌∙◌, List, [], ◌∷◌, ◌++◌, Bytes, length,
  replicate, ltb, ◌==◌, if◌then◌else◌, Bool-cases, inl, inr, Option,
}

-- The first line with its newline, if it has one, put before the other lines.
abbrev add_byte : ℕ → List Bytes → List Bytes
add_byte c [] = (c ∷ []) ∷ []
add_byte c (l ∷ ls) = (c ∷ l) ∷ ls

-- The results of `getline` up to the end of the stream.
unfoldable pub lines : Bytes → List Bytes
lines [] = []
lines (c ∷ s) = let rest = lines s in if c == b'\n' then (c ∷ []) ∷ rest else add_byte c rest

-- Concatenation.
abbrev pub join : List Bytes → Bytes
join [] = []
join (l ∷ ls) = l ++ join ls

-- Nothing is lost or added by reading in lines.
pub join-lines : (s : Bytes) → join (lines s) ≡ s
unfolding lines
join-lines [] = refl
join-lines (c ∷ s) = elim (Bool-cases (c == b'\n')) [
  | inl nl ↦ rw nl (ap (λ t. c ∷ t) (join-lines s))
  | inr other ↦ rw other (add_byte-join (lines s) ∙ ap (λ t. c ∷ t) (join-lines s))
]
  where
    add_byte-join : (ls : List Bytes) → join (add_byte c ls) ≡ c ∷ join ls
    add_byte-join [] = refl
    add_byte-join (l ∷ ls) = refl

-- The decimal digits of a number; `fuel` digits are enough below 10 ^ fuel.
decimal : ℕ → ℕ → Bytes
decimal zero n = []
decimal (suc fuel) n =
    let more = decimal fuel (n / 10) in
    if ltb n 10 then (b'0' + n) ∷ [] else more ++ (b'0' + n % 10) ∷ []

-- `printf("%6d\t", n)` for an `int` that is not negative: ten digits at most.
pub numbered : ℕ → Bytes
unfolding decimal
numbered n =
    let digits = decimal 10 n in (replicate (6 - length digits) b' ' ++ digits) ++ b'\t' ∷ []

-- What is written to stderr.
pub data Message : Type 0 where
  error_opening : Bytes → Message
  cannot_open : Bytes → Message
  pattern_compilation_failed : Message
  cat_usage : Bytes → Message
  grep_usage : Bytes → Message
  wrong_name : Message

-- What a run prints and the status that it returns.
pub record Ran : Type 0 where
  pub printed : Bytes
  pub messages : List Message
  pub status : ℕ

-- The files that `fopen(_, "r")` opens, with their content.
abbrev pub Files : Type 0
Files = Bytes → Option Bytes
