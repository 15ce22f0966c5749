-- ===== src/Pipes/FifoLaws.antt =====
-- What lab6_pipefifo/fifo.c guarantees.
use secured_operation_system.Base.{
  ℕ, ◌≤◌, ◌≡◌, refl, Bool, true, false, not, ◌&&◌, ◌||◌, Option, none, some, [], ◌∷◌, Bytes, length,
  if_cases, Option-cases, inl, inr, arith,
}
use secured_operation_system.Base.Numerals.{IsText}
use secured_operation_system.Pipes.Message.{parent_text, sent_text}
use secured_operation_system.Pipes.PipeLaws.{child_reads-sent}
use secured_operation_system.Pipes.Fifo.{
  Calls, Process, Run, End, returns, child_time, received_from_parent, fifo_main, parent_writes,
  both, both_open, both_start, removes_and_fails, other_opens, open_writing_failed,
  open_reading_failed,
}

parent_writes-returns :
    (calls : Calls) (n : ℕ)
    → calls.writes ≡ some n
    → calls.parent_closes ≡ true
    → calls.parent_unlinks ≡ true
    → parent_writes calls false ≡ record { lines = []; unlinks = true; end = returns 0 }
parent_writes-returns calls n e e' e'' = rw (e, parent_writes) (rw e' (rw e'' refl))

-- Where the calls work and `write` takes the whole text, the child prints its own time and the text
-- of the parent, in full and unchanged, both return 0, and the FIFO is gone.
fifo_main-delivers :
    (calls : Calls) (child_str time_str : Bytes) (pid n : ℕ)
    → IsText time_str
    → length time_str ≤ 63
    → calls.has_name ≡ true
    → calls.makes ≡ true
    → calls.forks ≡ true
    → calls.child_opens ≡ true
    → calls.reads ≡ true
    → calls.child_closes ≡ true
    → calls.parent_opens ≡ true
    → calls.writes ≡ some n
    → length (sent_text time_str pid) ≤ n
    → calls.parent_closes ≡ true
    → calls.parent_unlinks ≡ true
    → fifo_main calls false child_str time_str pid ≡ record {
      parent = record { lines = []; unlinks = true; end = returns 0 };
      child = some (record {
        lines = child_time child_str ∷ received_from_parent (parent_text time_str pid) ∷ [];
        unlinks = false;
        end = returns 0;
      });
      exists = false;
    }
unfolding fifo_main
fifo_main-delivers calls child_str time_str pid n h fits e0 e1 e2 e3 e4 e5 e6 e7 all e8 e9 =
    let (text, some_bytes) = child_reads-sent time_str pid n h fits all in
    let parent = parent_writes-returns calls n e7 e8 e9 in
    simp (e0, e1, e2, e3, e4, e5, e6, parent, e7, e9, some_bytes, text)

module _ (calls : Calls) where
  parent_writes-unlinks :
      (child_removed : Bool) → (parent_writes calls child_removed).unlinks ≡ true
  parent_writes-unlinks child_removed = elim (Option-cases calls.writes) [
    | inl n ↦ rw n refl
    | inr (n, w) ↦ rw w (
        let P = λ (p : Process). p.unlinks ≡ true in
        if_cases P calls.parent_closes
          (λ _. if_cases P (child_removed || not calls.parent_unlinks) (λ _. refl) (λ _. refl))
          (λ _. refl))
  ]

  -- The FIFO is gone where one of the two processes removes it.
  both-gone :
      (p c : Process)
      → calls.child_unlinks ≡ true
      → calls.parent_unlinks ≡ true
      → (p.unlinks || c.unlinks) ≡ true
      → (both calls p c).exists ≡ false
  both-gone p c e e' h = rw e (rw e' (ground (arith, h)))

  both_open-exists :
      (child_str time_str : Bytes) (pid : ℕ)
      → calls.child_unlinks ≡ true
      → calls.parent_unlinks ≡ true
      → (both_open calls child_str time_str pid).exists ≡ false
  both_open-exists child_str time_str pid e e' =
      if_cases (λ (r : Run). r.exists ≡ false) calls.reads
        (λ _.
          rw (parent_writes-unlinks (not calls.child_closes && calls.child_unlinks)) (rw e' refl))
        (λ _. rw e (ground arith))

  both_start-exists :
      (child_str time_str : Bytes) (pid : ℕ)
      → calls.child_unlinks ≡ true
      → calls.parent_unlinks ≡ true
      → (both_start calls child_str time_str pid).exists ≡ false
  both_start-exists child_str time_str pid e e' =
      let P = λ (r : Run). r.exists ≡ false in
      if_cases P calls.child_opens
        (λ _.
          if_cases P calls.parent_opens (λ _. both_open-exists child_str time_str pid e e')
            (λ _.
              both-gone (removes_and_fails open_writing_failed)
                (other_opens calls.comes_late calls.parent_unlinks open_reading_failed) e e' refl))
        (λ _.
          if_cases P calls.parent_opens
            (λ _.
              both-gone (other_opens calls.comes_late calls.child_unlinks open_writing_failed)
                (removes_and_fails open_reading_failed) e e' (ground arith))
            (λ _.
              both-gone (removes_and_fails open_writing_failed)
                (removes_and_fails open_reading_failed) e e' refl))

-- Where `unlink` works on a file that is there, a run in which no process is killed from outside
-- leaves the file system as it finds it, whatever other calls fail: a file of the name that was there
-- before is kept, and else no FIFO is left behind, also where a process is killed by SIGPIPE or waits
-- for ever.
pub fifo_main-exists :
    (calls : Calls) (exists : Bool) (child_str time_str : Bytes) (pid : ℕ)
    → calls.child_unlinks ≡ true
    → calls.parent_unlinks ≡ true
    → (fifo_main calls exists child_str time_str pid).exists ≡ exists
unfolding fifo_main
fifo_main-exists calls true child_str time_str pid e e' =
    if_cases (λ (r : Run). r.exists ≡ true) calls.has_name (λ _. refl) (λ _. refl)
fifo_main-exists calls false child_str time_str pid e e' =
    let P = λ (r : Run). r.exists ≡ false in
    if_cases P calls.has_name
      (λ _.
        if_cases P calls.makes
          (λ _.
            if_cases P calls.forks (λ _. both_start-exists calls child_str time_str pid e e')
              (λ _. rw e' refl))
          (λ _. refl))
      (λ _. refl)

abbrev pub map_end : Option Process → Option End
map_end none = none
map_end (some p) = some p.end
