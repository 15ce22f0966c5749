-- ===== src/Threads/Letters.antt =====
-- The array of ten letters that lab10_rwlock and lab11_condvar share between their threads.
use secured_operation_system.Base.{
  ℕ, zero, suc, ◌+◌, ◌-◌, ◌<◌, ◌≡◌, refl, [], ◌∷◌, ltb, if◌then◌else◌, arith, Bytes,
}

-- ARRAY_SIZE and NUM_READERS of both files
abbrev pub array_size : ℕ
array_size = 10

abbrev pub num_readers : ℕ
num_readers = 10

-- The letter that the writer puts at an index.
abbrev pub letter : ℕ → ℕ
letter i = b'A' + i

-- `memset(shared_array, '_', ARRAY_SIZE)`
abbrev pub underscores : ℕ → ℕ
underscores i = b'_'

-- The loops over the array, from an index with so many rounds left: an element is printed where it
-- is written, an underscore where it is not, and a space between any two.
abbrev pub array_text : (ℕ → ℕ) → ℕ → ℕ → ℕ → Bytes
array_text f counter i zero = []
array_text f counter i (suc left) =
    let rest = array_text f counter (i + 1) left in
    let cell = if ltb i counter then f i else b'_' in
    if ltb i (array_size - 1) then cell ∷ b' ' ∷ rest else cell ∷ rest

-- The loop at the end of lab11_condvar, which prints each element as it is.
abbrev pub final_text : (ℕ → ℕ) → ℕ → ℕ → Bytes
final_text f i zero = []
final_text f i (suc left) =
    let rest = final_text f (i + 1) left in
    if ltb i (array_size - 1) then f i ∷ b' ' ∷ rest else f i ∷ rest

-- The elements of a list with a space between any two.
abbrev spaced : Bytes → Bytes
spaced [] = []
spaced (c ∷ []) = c ∷ []
spaced (c ∷ d ∷ cs) = c ∷ b' ' ∷ spaced (d ∷ cs)

-- The array with its first `n` letters, from an index on.
abbrev pub shown : ℕ → ℕ → ℕ → Bytes
shown n i zero = []
shown n i (suc left) = (if ltb i n then letter i else b'_') ∷ shown n (i + 1) left

-- The text of an array with its first `n` letters.
abbrev pub row : ℕ → Bytes
row n = spaced (shown n 0 array_size)

module _ (f : ℕ → ℕ) (counter : ℕ) (filled : (i : ℕ) → i < counter → f i ≡ letter i) where
  array_text-spaced :
      (i left : ℕ)
      → i + left ≡ array_size
      → array_text f counter i left ≡ spaced (shown counter i left)
  array_text-spaced i zero e = refl
  array_text-spaced i (suc zero) e = ground (arith, filled i)
  array_text-spaced i (suc (suc left)) e =
      let ih = array_text-spaced (i + 1) (suc left) (omega arith) in ground (arith, filled i, ih)

  pub array_text-row : array_text f counter 0 array_size ≡ row counter
  array_text-row = array_text-spaced 0 array_size refl

-- With all elements written both loops print the same.
pub final_text-array_text :
    (f : ℕ → ℕ) (i left : ℕ)
    → i + left ≡ array_size
    → final_text f i left ≡ array_text f array_size i left
final_text-array_text f i zero e = refl
final_text-array_text f i (suc left) e =
    let ih = final_text-array_text f (i + 1) left (omega arith) in ground (arith, ih)
