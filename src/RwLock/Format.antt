-- ===== src/RwLock/Format.antt =====
-- The line that `reader_thread` of lab10_rwlock/rwlock.c builds in a buffer, call by call of
-- `snprintf`.
use secured_operation_system.Base.{
  ℕ, zero, suc, ◌+◌, ◌-◌, ◌≤◌, ◌<◌, ◌≡◌, refl, ap, ap₂, ◌∙◌, Option, none, some, false, [], ◌∷◌,
  ◌++◌, ltb, if◌then◌else◌, arith, Bytes, bytes, length, take, length-append, take_all,
  append_assoc, append-nil,
}
use secured_operation_system.Base.Numerals.{numeral, length-numeral}
use secured_operation_system.Threads.Letters.{array_size, letter, row}

-- BUFFER_SIZE
abbrev pub buffer_size : ℕ
buffer_size = 256

-- `buffer` up to its NUL, and `pos`.
pub record Buffer : Type 0 where
  pub text : Bytes
  pub pos : ℕ

abbrev pub empty : Buffer
empty = record { text = []; pos = 0 }

-- `pos += snprintf(buffer + pos, BUFFER_SIZE - pos, …)`, where the format gives `new`: what does not
-- fit before the last NUL is cut off, but counted. With `pos` past the end the size would be a
-- negative `int` that is read as a huge `size_t`, and the memory behind the buffer would be written:
-- none.
pub append : Bytes → Buffer → Option Buffer
append new b =
    if ltb b.pos buffer_size
    then some (record {
      text = take b.pos b.text ++ take (buffer_size - b.pos - 1) new;
      pos = b.pos + length new;
    })
    else none

-- "Reader %d (TID: %lx): Array = ["
unfoldable pub header : ℕ → ℕ → Bytes
header id tid =
    bytes "Reader "
    ++ (numeral 10 10 id ++ (bytes " (TID: " ++ (numeral 16 16 tid ++ bytes "): Array = [")))

-- What the loop prints at an index: a cell, and a space behind all but the last.
abbrev pub cell : (ℕ → ℕ) → ℕ → ℕ → Bytes
cell f counter i = (if ltb i counter then f i else b'_') ∷ []

abbrev separator : ℕ → Bytes
separator i = if ltb i (array_size - 1) then b' ' ∷ [] else []

-- The first cells of an array with `n` letters, each with its space.
abbrev pub cells : ℕ → ℕ → Bytes
cells n zero = []
cells n (suc i) = cells n i ++ (cell letter n i ++ separator i)

pub length-header : (id tid : ℕ) → length (header id tid) ≤ 52
unfolding header
length-header id tid = omega (
  arith,
  length-append (numeral 10 10 id) (bytes " (TID: " ++ (numeral 16 16 tid ++ bytes "): Array = [")),
  length-append (numeral 16 16 tid) (bytes "): Array = ["),
  length-numeral 10 10 id,
  length-numeral 16 16 tid,
)

length-cells : (n i : ℕ) → length (cells n i) ≤ i + i
length-cells n zero = omega arith
length-cells n (suc i) =
    ground (arith, length-append (cells n i) (cell letter n i ++ separator i), length-cells n i)

cells-row : (n : ℕ) → cells n array_size ≡ row n
cells-row n = refl

-- A buffer that holds exactly what was appended, with room left.
abbrev pub Holds : Bytes → Buffer → Type 0
Holds text b = (b.text ≡ text) × (b.pos ≡ length text) × (length text < buffer_size)

-- What fits is appended whole.
pub append-Holds :
    (text new : Bytes) (b : Buffer)
    → Holds text b
    → length text + length new < buffer_size
    → (b' : Buffer) × (append new b ≡ some b') × Holds (text ++ new) b'
unfolding append
append-Holds text new b (e, p, room) fits = (
  record {
    text = take b.pos b.text ++ take (buffer_size - b.pos - 1) new;
    pos = b.pos + length new;
  },
  ground (arith, p),
  (
    ap₂ (λ (x : Bytes) (y : Bytes). x ++ y)
        (take_all b.pos b.text (omega (arith, p, ap length e)) ∙ e)
        (take_all (buffer_size - b.pos - 1) new (omega (arith, p))),
    omega (arith, p, length-append text new),
    omega (arith, length-append text new),
  ),
)

module _ (h : Bytes) (short : length h ≤ 52) (n i : ℕ) (b : Buffer) (inside : i < array_size) where
  -- The calls of one round of the loop, behind the head `h` of the line.
  pub append-cell :
      Holds (h ++ cells n i) b
      → (b' : Buffer) × (append (cell letter n i) b ≡ some b')
        × Holds (h ++ (cells n i ++ cell letter n i)) b'
  append-cell held =
      let (b', e, k) =
        append-Holds (h ++ cells n i) (cell letter n i) b held
          (omega (arith, length-append h (cells n i), length-cells n i)) in
      (b', e, rw (← append_assoc h (cells n i) (cell letter n i)) k)

  cells-suc : (h ++ (cells n i ++ cell letter n i)) ++ separator i ≡ h ++ cells n (i + 1)
  cells-suc =
      let more : i + 1 ≡ suc i = omega arith in
      rw more (
        append_assoc h (cells n i ++ cell letter n i) (separator i)
        ∙ ap (λ (t : Bytes). h ++ t) (append_assoc (cells n i) (cell letter n i) (separator i)))

  pub append-space :
      i < array_size - 1
      → Holds (h ++ (cells n i ++ cell letter n i)) b
      → (b' : Buffer) × (append (b' ' ∷ []) b ≡ some b') × Holds (h ++ cells n (i + 1)) b'
  append-space lt held =
      let sep : separator i ≡ b' ' ∷ [] = ground arith in
      let (b', e, k) = append-Holds (h ++ (cells n i ++ cell letter n i)) (b' ' ∷ []) b held (
        omega (
          arith,
          length-append h (cells n i ++ cell letter n i),
          length-append (cells n i) (cell letter n i),
          length-cells n i,
        )) in
      (b', e, rw (← cells-suc) (rw sep k))

  pub no_space :
      ltb i (array_size - 1) ≡ false
      → Holds (h ++ (cells n i ++ cell letter n i)) b
      → Holds (h ++ cells n (i + 1)) b
  no_space last held =
      let sep : separator i ≡ [] = ground arith in
      rw (← cells-suc) (rw sep (rw (append-nil (h ++ (cells n i ++ cell letter n i))) held))

-- The line that shows an array with `n` letters.
pub line : ℕ → ℕ → ℕ → Bytes
line id tid n = header id tid ++ (row n ++ bytes "]\n")

-- A buffer that holds the whole line, with room left.
abbrev pub IsLine : ℕ → ℕ → ℕ → Buffer → Type 0
IsLine id tid n b = (b.text ≡ line id tid n) × (b.pos < buffer_size)

pub append-close :
    (id tid n : ℕ) (b : Buffer)
    → Holds (header id tid ++ cells n array_size) b
    → (b' : Buffer) × (append (bytes "]\n") b ≡ some b') × IsLine id tid n b'
unfolding line
append-close id tid n b held =
    let (b', e, k) = append-Holds (header id tid ++ cells n array_size) (bytes "]\n") b held (
      omega (
        arith,
        length-append (header id tid) (cells n array_size),
        length-header id tid,
        length-cells n array_size,
      )) in
    (
      b',
      e,
      (k.0 ∙ append_assoc (header id tid) (cells n array_size) (bytes "]\n"), omega (arith, k.1)),
    )
