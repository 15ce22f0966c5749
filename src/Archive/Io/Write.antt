-- ===== src/Archive/Io/Write.antt =====
-- What `complete_write` guarantees, whatever the calls of `write` do.
use secured_operation_system.Base.{
  zero, suc, ◌≡◌, refl, ap, ◌∙◌, true, false, List, [], ◌∷◌, ◌++◌, Bytes, length, take, drop,
  take-append-drop, append_assoc, append-nil, ◌<◌, arith,
}
use secured_operation_system.Archive.Io.{Io, fail, amount, Written, complete_write}

-- Either every byte was written and 0 is returned, or -1 is and a proper part was written: what
-- reached the file is always a beginning of the buffer.
pub record Prefix (buf : Bytes) (w : Written) : Type 0 where
  pub unwritten : Bytes
  pub split : w.written ++ unwritten ≡ buf
  pub complete : w.success ≡ true → w.written ≡ buf
  pub partial : w.success ≡ false → 0 < length unwritten

-- `complete_write` writes the whole buffer and returns 0, or returns -1 having written a proper
-- beginning of it; it never writes anything else, whatever its calls of `write` do.
pub complete_write-Prefix : (io : List Io) (buf : Bytes) → Prefix buf (complete_write io buf)
unfolding complete_write
complete_write-Prefix io [] = record {
  unwritten = [];
  split = refl;
  complete = λ _. refl;
  partial = λ e. ground arith;
}
complete_write-Prefix [] (b ∷ buf) = record {
  unwritten = [];
  split = append-nil _;
  complete = λ _. refl;
  partial = λ e. ground arith;
}
complete_write-Prefix (fail ∷ io) (b ∷ buf) = record {
  unwritten = b ∷ buf;
  split = refl;
  complete = λ e. ground arith;
  partial = λ _. omega arith;
}
complete_write-Prefix (amount zero ∷ io) (b ∷ buf) = record {
  unwritten = b ∷ buf;
  split = refl;
  complete = λ e. ground arith;
  partial = λ _. omega arith;
}
complete_write-Prefix (amount (suc k) ∷ io) (b ∷ buf) =
    let ih = complete_write-Prefix io (drop k buf) in
    record {
      unwritten = ih.unwritten;
      split =
          ap (λ t. b ∷ t)
            (append_assoc (take k buf) _ _
              ∙ ap (λ t. take k buf ++ t) ih.split
              ∙ take-append-drop k buf);
      complete =
          λ e. ap (λ t. b ∷ t) (ap (λ t. take k buf ++ t) (ih.complete e) ∙ take-append-drop k buf);
      partial = ih.partial;
    }

-- With calls that transfer all they are asked for, the buffer is written.
pub complete_write-nil :
    (buf : Bytes) → complete_write [] buf ≡ record { success = true; written = buf; later = [] }
unfolding complete_write
complete_write-nil [] = refl
complete_write-nil (b ∷ buf) = refl
