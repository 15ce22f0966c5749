-- ===== src/Threads/Launch.antt =====
-- The loops of `main` that create the readers and that join them.
use secured_operation_system.Base.{
  ℕ, zero, suc, ◌+◌, ◌<◌, ◌≤◌, ◌≡◌, refl, Bool, true, false, if◌then◌else◌, Option, none, some,
  List, [], ◌∷◌, arith, Bool-cases, inl, inr,
}

-- The results of the calls of `pthread_create` and of `pthread_join`, for the reader at each index.
pub record Calls : Type 0 where
  pub creates_writer : Bool
  pub creates_reader : ℕ → Bool
  pub joins_writer : Bool
  pub joins_reader : ℕ → Bool

-- Which reader, from index `i` on with so many left, is the first that cannot be created.
abbrev pub create_readers : (ℕ → Bool) → ℕ → ℕ → Option ℕ
create_readers creates i zero = none
create_readers creates i (suc left) =
    let rest = create_readers creates (i + 1) left in if creates i then rest else some i

-- The indexes of the readers whose join fails; none if a join waits for a reader that has not ended.
abbrev pub join_readers : (ℕ → Bool) → (ℕ → Bool) → ℕ → ℕ → Option (List ℕ)
join_readers joins ended i zero = some []
join_readers joins ended i (suc left) =
    let rest = join_readers joins ended (i + 1) left in
    if joins i
    then if ended i then rest else none
    else elim rest [ none ↦ none | some failed ↦ some (i ∷ failed) ]

pub create_readers_all :
    (creates : ℕ → Bool) (i left : ℕ)
    → ((j : ℕ) → creates j ≡ true)
    → create_readers creates i left ≡ none
create_readers_all creates i zero h = refl
create_readers_all creates i (suc left) h = rw (h i) (create_readers_all creates (i + 1) left h)

pub join_readers_all :
    (joins ended : ℕ → Bool) (i left : ℕ)
    → ((j : ℕ) → joins j ≡ true)
    → ((j : ℕ) → i ≤ j → j < i + left → ended j ≡ true)
    → join_readers joins ended i left ≡ some []
join_readers_all joins ended i zero h k = refl
join_readers_all joins ended i (suc left) h k = rw (h i) (
    rw (k i (omega arith) (omega arith))
      (join_readers_all joins ended (i + 1) left h (λ j le lt. k j (omega arith) (omega arith))))

-- The reader at index `k` is refused and all before it are created.
pub create_readers_refused :
    (creates : ℕ → Bool) (i left k : ℕ)
    → ((j : ℕ) → i ≤ j → j < k → creates j ≡ true)
    → creates k ≡ false
    → i ≤ k
    → k < i + left
    → create_readers creates i left ≡ some k
create_readers_refused creates i zero k h e le lt = absurd (omega arith)
create_readers_refused creates i (suc left) k h e le lt = elim (Bool-cases (creates i)) [
  | inl c ↦ rw c (
      create_readers_refused creates (i + 1) left k (λ j a b. h j (omega arith) b) e
        (ground (arith, c, e)) (omega arith))
  | inr c ↦ rw c (ground (arith, c, h i))
]
