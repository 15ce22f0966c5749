-- ===== src/Archive/Io/Skip.antt =====
-- What `skip_bytes` guarantees, whatever the calls of `read` do.
use secured_operation_system.Base.{
  ℕ, zero, suc, ◌-◌, ◌≤◌, ◌<◌, min, ◌≡◌, ◌≢◌, refl, ◌∙◌, Bool, true, false, List, [], ◌∷◌, Bytes,
  length, take, drop, drop-drop, length-take, length-drop, arith,
}
use secured_operation_system.Archive.Io.{
  Io, Read, read_error, got, read_some, transfer_buffer_size, done, out_of_fuel, Copied, stopped,
  skip_chunk, skip_loop, skip_bytes,
}
use secured_operation_system.Archive.Io.Copy.{IsRead, read_some-IsRead}

-- `skip_bytes` leaves the source behind the bytes asked for, if it returns 0.
pub record Skips (len : ℕ) (rest : Bytes) (c : Copied) : Type 0 where
  pub ends : c.status ≢ out_of_fuel
  pub complete : c.status ≡ done → c.rest ≡ drop len rest
  pub silent : c.copied ≡ []

skip_chunk-Skips :
    (total : ℕ) (rest : Bytes) (count : ℕ) (r : Read) (again : ℕ → Bytes → List Io → Copied)
    → count ≤ total
    → IsRead count rest r
    → ((k : ℕ) (io : List Io)
        → 0 < k
        → k ≤ total
        → Skips (total - k) (drop k rest) (again k (drop k rest) io))
    → Skips total rest (skip_chunk rest r again)
skip_chunk-Skips total rest count (read_error io) again small h ih = record {
  ends = λ e. cc;
  complete = λ e. absurd (ground arith);
  silent = refl;
}
skip_chunk-Skips total rest count (got [] io) again small h ih = record {
  ends = λ e. cc;
  complete = λ e. absurd (ground arith);
  silent = refl;
}
skip_chunk-Skips total rest count (got (b ∷ chunk) io) again small (same, fits, there) ih =
    let k : ℕ = length (b ∷ chunk) in
    let next = ih k io (omega arith) (omega arith) in
    record {
      ends = next.ends;
      complete = λ e. next.complete e ∙ drop-drop k total rest (omega arith);
      silent = next.silent;
    }

skip_loop-Skips :
    (fuel : ℕ) (io : List Io) (rest : Bytes) (n : ℕ)
    → n ≤ fuel
    → Skips n rest (skip_loop fuel io rest n)
unfolding skip_loop
skip_loop-Skips zero io rest zero h = record { ends = λ e. cc; complete = λ e. refl; silent = refl }
skip_loop-Skips (suc fuel) io rest zero h = record {
  ends = λ e. cc;
  complete = λ e. refl;
  silent = refl;
}
skip_loop-Skips zero io rest (suc n) h = absurd (omega arith)
skip_loop-Skips (suc fuel) io rest (suc n) h =
    let count : ℕ = min transfer_buffer_size (suc n) in
    skip_chunk-Skips (suc n) rest count (read_some io count rest)
      (λ k rest' io'. skip_loop fuel io' rest' (suc n - k)) (omega arith)
      (read_some-IsRead io count rest)
      (λ k io' pos le. skip_loop-Skips fuel io' (drop k rest) (suc n - k) (omega arith))

-- `skip_bytes` ends by itself; if it returns 0 the source stands behind the bytes asked for; it writes
-- nothing.
pub skip_bytes-Skips :
    (seekable : Bool) (io : List Io) (rest : Bytes) (len : ℕ)
    → Skips len rest (skip_bytes seekable io rest len)
unfolding skip_bytes
skip_bytes-Skips true io rest len = record { ends = λ e. cc; complete = λ e. refl; silent = refl }
skip_bytes-Skips false io rest len = skip_loop-Skips len io rest len (omega arith)

skip_loop-nil :
    (fuel : ℕ) (rest : Bytes) (n : ℕ)
    → n ≤ fuel
    → n ≤ length rest
    → skip_loop fuel [] rest n ≡ stopped done [] (drop n rest) []
unfolding skip_loop read_some
skip_loop-nil zero rest zero h l = refl
skip_loop-nil (suc fuel) rest zero h l = refl
skip_loop-nil zero rest (suc n) h l = absurd (omega arith)
skip_loop-nil (suc fuel) [] (suc n) h l = elim l [ ]
skip_loop-nil (suc fuel) (x ∷ xs) (suc n) h l =
    let m : ℕ = min 8191 n in
    let e : min transfer_buffer_size (suc n) ≡ suc m = omega arith in
    let k_is : length (take m xs) ≡ m = omega (arith, length-take m xs) in
    let left : suc n - suc m ≡ n - m = omega arith in
    let ih =
      skip_loop-nil fuel (drop m xs) (n - m) (omega arith) (omega (arith, length-drop m xs)) in
    let k : ℕ = length (take m xs) in
    let round : skip_loop (suc fuel) [] (x ∷ xs) (suc n)
        ≡ skip_loop fuel [] (drop k xs) (suc n - suc k) =
      rw e in
    round ∙ rw (k_is, left, ih, drop-drop m n xs (omega arith))

-- With whole transfers both ways of skipping come to the same.
pub skip_bytes-nil :
    (seekable : Bool) (rest : Bytes) (len : ℕ)
    → len ≤ length rest
    → skip_bytes seekable [] rest len
      ≡ record { status = done; copied = []; rest = drop len rest; later = [] }
unfolding skip_bytes
skip_bytes-nil true rest len h = refl
skip_bytes-nil false rest len h = skip_loop-nil len rest len (omega arith) h
