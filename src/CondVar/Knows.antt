-- ===== src/CondVar/Knows.antt =====
-- What a thread of lab11_condvar/condvar.c knows stays true when another one moves.
use secured_operation_system.Base.{ℕ, ◌≡◌, refl, Bool, true, false, arith}
use secured_operation_system.Threads.Family.{set, set_all}
use secured_operation_system.CondVar.System.{
  WriterAt, starting, testing, locking, storing, publishing, signaling, unlocking, last_locking,
  flagging, broadcasting, last_unlocking, ending, writer_finished, ReaderAt, reader_starting,
  reader_locking, waiting, sleeping, relocking, checking, leaving, reader_ending, printing,
  releasing, reader_finished, woken,
}
use secured_operation_system.CondVar.Invariant.{
  reader_inside, is_sleeping, WriterKnows, ReaderKnows,
}

-- A reader that is woken is where it knows as much, and it is outside as before.
pub woken-inside : (place : ReaderAt) → reader_inside (woken place) ≡ reader_inside place
woken-inside sleeping = refl
woken-inside reader_starting = refl
woken-inside reader_locking = refl
woken-inside waiting = refl
woken-inside relocking = refl
woken-inside checking = refl
woken-inside leaving = refl
woken-inside reader_ending = refl
woken-inside printing = refl
woken-inside releasing = refl
woken-inside reader_finished = refl

pub woken-not_sleeping : (place : ReaderAt) → is_sleeping (woken place) ≡ false
woken-not_sleeping sleeping = refl
woken-not_sleeping reader_starting = refl
woken-not_sleeping reader_locking = refl
woken-not_sleeping waiting = refl
woken-not_sleeping relocking = refl
woken-not_sleeping checking = refl
woken-not_sleeping leaving = refl
woken-not_sleeping reader_ending = refl
woken-not_sleeping printing = refl
woken-not_sleeping releasing = refl
woken-not_sleeping reader_finished = refl

module _ (available written : Bool) (IsFresh : Type 0) where
  pub woken-ReaderKnows :
      (place : ReaderAt)
      → ReaderKnows place available written IsFresh
      → ReaderKnows (woken place) available written IsFresh
  woken-ReaderKnows sleeping k = tt
  woken-ReaderKnows reader_starting k = k
  woken-ReaderKnows reader_locking k = k
  woken-ReaderKnows waiting k = k
  woken-ReaderKnows relocking k = k
  woken-ReaderKnows checking k = k
  woken-ReaderKnows leaving k = k
  woken-ReaderKnows reader_ending k = k
  woken-ReaderKnows printing k = k
  woken-ReaderKnows releasing k = k
  woken-ReaderKnows reader_finished k = k

  -- The flags only rise, and what is fresh stays so, when the writer moves.
  pub ReaderKnows-rise :
      (available' written' : Bool) (IsFresh' : Type 0)
      → (written ≡ true → written' ≡ true)
      → available' ≡ true
      → (IsFresh → IsFresh')
      → (place : ReaderAt) → ReaderKnows place available written IsFresh
      → ReaderKnows place available' written' IsFresh'
  ReaderKnows-rise a w F up on more checking k = ground (arith, on)
  ReaderKnows-rise a w F up on more printing k = more k
  ReaderKnows-rise a w F up on more leaving k = up k
  ReaderKnows-rise a w F up on more reader_ending k = up k
  ReaderKnows-rise a w F up on more reader_finished k = up k
  ReaderKnows-rise a w F up on more sleeping k = tt
  ReaderKnows-rise a w F up on more reader_starting k = tt
  ReaderKnows-rise a w F up on more reader_locking k = tt
  ReaderKnows-rise a w F up on more waiting k = tt
  ReaderKnows-rise a w F up on more relocking k = tt
  ReaderKnows-rise a w F up on more releasing k = tt

-- What the writer knows stays when a reader moves, unless that falls asleep after `all_written`.
pub WriterKnows-set :
    (place : WriterAt) (n : ℕ) (f : ℕ → ℕ) (written : Bool) (readers : ℕ → ReaderAt) (id : ℕ)
    (next : ReaderAt)
    → (written ≡ true → is_sleeping next ≡ false)
    → WriterKnows place n f written readers
    → WriterKnows place n f written (set readers id next)
WriterKnows-set locking n f w r id next h k = k
WriterKnows-set storing n f w r id next h k = k
WriterKnows-set publishing n f w r id next h k = k
WriterKnows-set last_locking n f w r id next h k = k
WriterKnows-set flagging n f w r id next h k = k
WriterKnows-set broadcasting n f w r id next h k = k
WriterKnows-set last_unlocking n f w r id next h (e, k) =
    (e, set_all (λ p. is_sleeping p ≡ false) r id next (h e) k)
WriterKnows-set ending n f w r id next h (e, k) =
    (e, set_all (λ p. is_sleeping p ≡ false) r id next (h e) k)
WriterKnows-set writer_finished n f w r id next h (e, k) =
    (e, set_all (λ p. is_sleeping p ≡ false) r id next (h e) k)
WriterKnows-set starting n f w r id next h k = tt
WriterKnows-set testing n f w r id next h k = tt
WriterKnows-set signaling n f w r id next h k = tt
WriterKnows-set unlocking n f w r id next h k = tt

-- What a reader outside of the mutex knows does not depend on `data_available`.
pub ReaderKnows-outside :
    (place : ReaderAt) (available available' written : Bool) (IsFresh IsFresh' : Type 0)
    → reader_inside place ≡ false
    → ReaderKnows place available written IsFresh
    → ReaderKnows place available' written IsFresh'
ReaderKnows-outside checking a a' w F F' out k = absurd (ground arith)
ReaderKnows-outside printing a a' w F F' out k = absurd (ground arith)
ReaderKnows-outside leaving a a' w F F' out k = absurd (ground arith)
ReaderKnows-outside reader_ending a a' w F F' out k = k
ReaderKnows-outside reader_finished a a' w F F' out k = k
ReaderKnows-outside reader_starting a a' w F F' out k = tt
ReaderKnows-outside reader_locking a a' w F F' out k = tt
ReaderKnows-outside waiting a a' w F F' out k = tt
ReaderKnows-outside sleeping a a' w F F' out k = tt
ReaderKnows-outside relocking a a' w F F' out k = tt
ReaderKnows-outside releasing a a' w F F' out k = tt
