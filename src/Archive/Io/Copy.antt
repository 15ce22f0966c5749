-- ===== src/Archive/Io/Copy.antt =====
-- What `duplicate_content` guarantees, whatever the calls of `read` and `write` do.
use secured_operation_system.Base.{
  ℕ, zero, suc, ◌-◌, ◌≤◌, ◌<◌, min, ◌≡◌, ◌≢◌, refl, sym, ◌∙◌, List, [], ◌∷◌, ◌++◌, Bytes, length,
  take, drop, take-append-take, drop-drop, take-length-take, length-take, length-drop, append_assoc,
  arith, Bool-cases, inl, inr,
}
use secured_operation_system.Archive.Io.{
  Io, fail, amount, Written, complete_write, Read, read_error, got, read_some, transfer_buffer_size,
  done, failed, out_of_fuel, Copied, stopped, copied_before, write_chunk, copy_chunk, copy_loop,
  duplicate_content,
}
use secured_operation_system.Archive.Io.Write.{Prefix, complete_write-Prefix}

-- A read gives the next bytes, as many as were asked for at most.
abbrev pub IsRead : ℕ → Bytes → Read → Type 0
IsRead count rest (read_error io) = Unit
IsRead count rest (got bs io) =
    (take (length bs) rest ≡ bs) × (length bs ≤ count) × (length bs ≤ length rest)

got-IsRead :
    (count m : ℕ) (rest : Bytes) (io : List Io)
    → m ≤ count
    → IsRead count rest (got (take m rest) io)
got-IsRead count m rest io h =
    (take-length-take m rest, omega (arith, length-take m rest), omega (arith, length-take m rest))

pub read_some-IsRead :
    (io : List Io) (count : ℕ) (rest : Bytes) → IsRead count rest (read_some io count rest)
unfolding read_some
read_some-IsRead [] count rest = got-IsRead count count rest [] (omega arith)
read_some-IsRead (fail ∷ io) count rest = tt
read_some-IsRead (amount k ∷ io) count rest = got-IsRead count (min k count) rest io (omega arith)

-- The loop ends by itself; what was copied is a beginning of the `total` bytes asked for, and all
-- of them if 0 is returned, with the source behind them.
pub record Copies (total : ℕ) (rest : Bytes) (c : Copied) : Type 0 where
  pub ends : c.status ≢ out_of_fuel
  pub uncopied : Bytes
  pub split : c.copied ++ uncopied ≡ take total rest
  pub complete :
      c.status ≡ done
      → (c.copied ≡ take total rest) × (c.rest ≡ drop total rest) × (total ≤ length rest)

stopped-Copies :
    (total : ℕ) (rest later : Bytes) (io : List Io) → Copies total rest (stopped failed [] later io)
stopped-Copies total rest later io = record {
  ends = λ e. cc;
  uncopied = take total rest;
  split = refl;
  complete = λ e. absurd (ground arith);
}

module _ (total : ℕ) (rest : Bytes) (k : ℕ) (small : k ≤ total) (there : k ≤ length rest) where
  -- A written chunk, then a round for the rest.
  copied_before-Copies :
      (w : Bytes) (c : Copied)
      → w ≡ take k rest
      → Copies (total - k) (drop k rest) c
      → Copies total rest (copied_before w c)
  copied_before-Copies w c e h = record {
    ends = h.ends;
    uncopied = h.uncopied;
    split =
        append_assoc w c.copied h.uncopied
        ∙ (rw (e, h.split) (take-append-take k total rest small));
    complete = λ s.
        let (all, left, len) = h.complete s in
        (
          (rw (all, e) (take-append-take k total rest small)),
          left ∙ drop-drop k total rest small,
          omega (arith, len, length-drop k rest),
        );
  }

  -- A chunk that could not be written whole.
  stopped_in_chunk :
      (w unwritten later : Bytes) (io : List Io)
      → w ++ unwritten ≡ take k rest
      → Copies total rest (stopped failed w later io)
  stopped_in_chunk w unwritten later io e = record {
    ends = λ s. cc;
    uncopied = unwritten ++ take (total - k) (drop k rest);
    split = sym (append_assoc w unwritten _) ∙ (rw e (take-append-take k total rest small));
    complete = λ s. absurd (ground arith);
  }

  write_chunk-Copies :
      (chunk : Bytes) (w : Written) (again : List Io → Copied)
      → chunk ≡ take k rest
      → Prefix chunk w
      → ((io : List Io) → Copies (total - k) (drop k rest) (again io))
      → Copies total rest (write_chunk chunk (drop k rest) w again)
  write_chunk-Copies chunk w again e p ih = elim (Bool-cases w.success) [
    | inl good ↦
        rw good (copied_before-Copies w.written (again w.later) (p.complete good ∙ e) (ih w.later))
    | inr bad ↦ rw bad (stopped_in_chunk w.written p.unwritten _ w.later (p.split ∙ e))
  ]

module _ (total : ℕ) (rest : Bytes) (again : ℕ → Bytes → List Io → Copied) where
  Again : Type 0
  Again =
      (k : ℕ) (io : List Io)
      → 0 < k
      → k ≤ total
      → Copies (total - k) (drop k rest) (again k (drop k rest) io)

  copy_chunk-Copies :
      (count : ℕ) (r : Read)
      → count ≤ total
      → IsRead count rest r
      → Again
      → Copies total rest (copy_chunk rest r again)
  unfolding Again
  copy_chunk-Copies count (read_error io) small h ih = stopped-Copies total rest rest io
  copy_chunk-Copies count (got [] io) small h ih = stopped-Copies total rest rest io
  copy_chunk-Copies count (got (b ∷ chunk) io) small (same, fits, there) ih =
      write_chunk-Copies total rest (length (b ∷ chunk)) (omega arith) there (b ∷ chunk)
        (complete_write io (b ∷ chunk)) _ (sym same) (complete_write-Prefix io (b ∷ chunk))
        (λ io'. ih (length (b ∷ chunk)) io' (omega arith) (omega arith))

copy_loop-Copies :
    (fuel : ℕ) (io : List Io) (rest : Bytes) (n : ℕ)
    → n ≤ fuel
    → Copies n rest (copy_loop fuel io rest n)
unfolding copy_loop Again
copy_loop-Copies zero io rest zero h = record {
  ends = λ e. cc;
  uncopied = [];
  split = refl;
  complete = λ e. (refl, refl, omega arith);
}
copy_loop-Copies (suc fuel) io rest zero h = record {
  ends = λ e. cc;
  uncopied = [];
  split = refl;
  complete = λ e. (refl, refl, omega arith);
}
copy_loop-Copies zero io rest (suc n) h = absurd (omega arith)
copy_loop-Copies (suc fuel) io rest (suc n) h =
    let count : ℕ = min transfer_buffer_size (suc n) in
    copy_chunk-Copies (suc n) rest (λ k rest' io'. copy_loop fuel io' rest' (suc n - k)) count
      (read_some io count rest) (omega arith) (read_some-IsRead io count rest)
      (λ k io' pos le. copy_loop-Copies fuel io' (drop k rest) (suc n - k) (omega arith))

-- `duplicate_content` needs no more rounds than there are bytes, and copies exactly the bytes asked
-- for, or a beginning of them with -1.
pub duplicate_content-Copies :
    (io : List Io) (rest : Bytes) (total : ℕ) → Copies total rest (duplicate_content io rest total)
unfolding duplicate_content
duplicate_content-Copies io rest total = copy_loop-Copies total io rest total (omega arith)

copy_loop-nil :
    (fuel : ℕ) (rest : Bytes) (n : ℕ)
    → n ≤ fuel
    → n ≤ length rest
    → copy_loop fuel [] rest n ≡ stopped done (take n rest) (drop n rest) []
unfolding copy_loop read_some complete_write
copy_loop-nil zero rest zero h l = refl
copy_loop-nil (suc fuel) rest zero h l = refl
copy_loop-nil zero rest (suc n) h l = absurd (omega arith)
copy_loop-nil (suc fuel) [] (suc n) h l = elim l [ ]
copy_loop-nil (suc fuel) (x ∷ xs) (suc n) h l =
    let m : ℕ = min 8191 n in
    let e : min transfer_buffer_size (suc n) ≡ suc m = omega arith in
    let k_is : length (take m xs) ≡ m = omega (arith, length-take m xs) in
    let left : suc n - suc m ≡ n - m = omega arith in
    let ih =
      copy_loop-nil fuel (drop m xs) (n - m) (omega arith) (omega (arith, length-drop m xs)) in
    rw (e, k_is, left, ih, take-append-take m n xs (omega arith), drop-drop m n xs (omega arith))

-- With calls that transfer all they are asked for, the bytes are copied if they are there.
pub duplicate_content-nil :
    (rest : Bytes) (total : ℕ)
    → total ≤ length rest
    → duplicate_content [] rest total
      ≡ record { status = done; copied = take total rest; rest = drop total rest; later = [] }
unfolding duplicate_content
duplicate_content-nil rest total h = copy_loop-nil total rest total (omega arith) h
