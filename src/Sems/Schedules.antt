-- ===== src/Sems/Schedules.antt =====
-- What the sender and the receivers of lab9_sems guarantee under every schedule, for any messages
-- that fit.
use secured_operation_system.Base.{
  ℕ, ◌-◌, ◌≡◌, refl, ap, ◌∙◌, true, Option, none, some, List, [], ◌∷◌, arith,
}
use secured_operation_system.Threads.Owner.{Thread, writer, reader}
use secured_operation_system.Sems.Exchange.{
  SenderAt, waiting, formatting, writing, telling, posting, ReceiverAt, receiver_waiting, copying,
  showing, receiver_posting, Messages, State, take_one, initial, sender_step, receiver_step, step,
  run,
}
use secured_operation_system.Sems.Invariant.{
  sender_inside, receiver_inside, units, Fits, IsValid, OnSome, initial-IsValid,
}
use secured_operation_system.Sems.Sender.{sender_step-IsValid}
use secured_operation_system.Sems.Receiver.{receiver_step-IsValid}

sender_inside-steps :
    (m : Messages) (s : State) (place : SenderAt)
    → sender_inside place ≡ true
    → (s' : State) × (sender_step m place s ≡ some s')
unfolding sender_step
sender_inside-steps m s formatting h = (_, refl)
sender_inside-steps m s (writing i) h = (_, refl)
sender_inside-steps m s telling h = (_, refl)
sender_inside-steps m s posting h = (_, refl)
sender_inside-steps m s waiting h = absurd (ground arith)

receiver_inside-steps :
    (m : Messages) (s : State) (id : ℕ) (place : ReceiverAt)
    → receiver_inside place ≡ true
    → (s' : State) × (receiver_step m id place s ≡ some s')
unfolding receiver_step
receiver_inside-steps m s id (copying i got) h = (_, refl)
receiver_inside-steps m s id (showing got) h = (_, refl)
receiver_inside-steps m s id receiver_posting h = (_, refl)
receiver_inside-steps m s id receiver_waiting h = absurd (ground arith)

-- With the semaphore free the sender can go on.
free-steps :
    (m : Messages) (s : State) (place : SenderAt)
    → s.semaphore ≡ 1
    → (s' : State) × (sender_step m place s ≡ some s')
unfolding sender_step
free-steps m s waiting free =
    (record s { semaphore = s.semaphore - 1; sender_at = formatting }, rw (free, take_one) refl)
free-steps m s formatting free = (_, refl)
free-steps m s (writing i) free = (_, refl)
free-steps m s telling free = (_, refl)
free-steps m s posting free = (_, refl)

module _ (m : Messages) (fits : Fits m) where
  step-IsValid : (t : Thread) (s : State) → IsValid m.text s → OnSome m.text (step m t s)
  unfolding step
  step-IsValid writer s v = sender_step-IsValid m fits s s.sender_at refl v
  step-IsValid (reader id) s v = receiver_step-IsValid m fits s id (s.receiver_at id) refl v

  run-IsValid : (ts : List Thread) (s : State) → IsValid m.text s → IsValid m.text (run m ts s)
  unfolding run
  run-IsValid [] s v = v
  run-IsValid (t ∷ ts) s v =
      by_step (step m t s) (step-IsValid t s v) (run-IsValid ts s v) (λ s' h. run-IsValid ts s' h)
    where
      by_step :
          (o : Option State)
          → OnSome m.text o
          → IsValid m.text (run m ts s)
          → ((s' : State) → IsValid m.text s' → IsValid m.text (run m ts s'))
          → IsValid m.text (elim o [ none ↦ run m ts s | some s' ↦ run m ts s' ])
      by_step none h stay go = stay
      by_step (some s') h stay go = go s' h

  pub exchanged-IsValid : (ts : List Thread) → IsValid m.text (run m ts (initial m))
  exchanged-IsValid ts = run-IsValid ts (initial m) (initial-IsValid m)

  -- Some side can always take a step.
  pub exchanged-steps :
      (ts : List Thread) → (t : Thread) × (s' : State) × (step m t (run m ts (initial m)) ≡ some s')
  unfolding step
  exchanged-steps ts = by_owner (exchanged-IsValid ts).owner refl
    where
      by_owner :
          (o : Option Thread)
          → (exchanged-IsValid ts).owner ≡ o
          → (t : Thread) × (s' : State) × (step m t (run m ts (initial m)) ≡ some s')
      by_owner none e =
          let s = run m ts (initial m) in
          let (s', q) = free-steps m s s.sender_at ((exchanged-IsValid ts).value ∙ ap units e) in
          (writer, s', q)
      by_owner (some writer) e =
          let s = run m ts (initial m) in
          let (s', q) =
            sender_inside-steps m s s.sender_at ((exchanged-IsValid ts).owned.owner_writer e) in
          (writer, s', q)
      by_owner (some (reader id)) e =
          let s = run m ts (initial m) in
          let (s', q) =
            receiver_inside-steps m s id (s.receiver_at id)
              ((exchanged-IsValid ts).owned.owner_reader id e) in
          (reader id, s', q)
