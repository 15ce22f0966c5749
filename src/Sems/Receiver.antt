-- ===== src/Sems/Receiver.antt =====
-- The receivers of lab9_sems keep the invariant.
use secured_operation_system.Base.{
  ℕ, suc, ◌+◌, ◌≤◌, ◌<◌, ◌≡◌, refl, sym, ap, ◌∙◌, true, Option, none, some, List, [], ◌∷◌, ◌++◌,
  Bytes, length, take, take_all, ltb, ◌==◌, arith, if_cases,
}
use mathlib.Core.Path.{subst}
use secured_operation_system.Threads.Family.{set, set_all, at_each-set, at_each-set_same}
use secured_operation_system.Threads.Owner.{
  Thread, reader, Owned, reader_locks, reader_unlocks, writer_alone,
}
use secured_operation_system.Sems.Exchange.{
  SenderAt, waiting, formatting, writing, telling, posting, ReceiverAt, receiver_waiting, copying,
  showing, receiver_posting, Line, Messages, State, byte_at, take_one, move, receiver_step,
}
use secured_operation_system.Sems.Invariant.{
  sender_inside, receiver_inside, units, Holds, Fits, SenderKnows, ReceiverKnows, Ordered, IsValid,
  OnSome, byte_at-length, byte_at_pos, take-byte_at,
}

module _ (m : Messages) (fits : Fits m) (s : State) (v : IsValid m.text s) (id : ℕ) where
  ReceiverKnows-at :
      (place : ReceiverAt) → s.receiver_at id ≡ place → ReceiverKnows m.text place s.message_counter
  ReceiverKnows-at place e =
      subst (λ p. ReceiverKnows m.text p s.message_counter) e (v.receiver_knows id)

  all_know :
      (next : ReceiverAt)
      → ReceiverKnows m.text next s.message_counter
      → (j : ℕ) → ReceiverKnows m.text (set s.receiver_at id next j) s.message_counter
  all_know next k =
      set_all (λ p. ReceiverKnows m.text p s.message_counter) s.receiver_at id next k
        v.receiver_knows

  -- What is in the buffer while a receiver stands inside: the sender is not at work on it.
  held : receiver_inside (s.receiver_at id) ≡ true → Holds s.buffer (m.text s.message_counter)
  held inside = by_place s.sender_at v.owned v.sender_knows
    where
      by_place :
          (place : SenderAt)
          → Owned v.owner (sender_inside place) (λ j. receiver_inside (s.receiver_at j))
          → SenderKnows m.text place s.message_counter s.buffer
          → Holds s.buffer (m.text s.message_counter)
      by_place waiting o k = k
      by_place formatting o k = k
      by_place (writing i) o k = absurd (ground (arith, writer_alone id o refl, inside))
      by_place telling o k = k
      by_place posting o k = k

  -- Only the place of the receiver and the output change.
  receiver_moves :
      (next : ReceiverAt) (more : List Line)
      → receiver_inside (s.receiver_at id) ≡ true
      → receiver_inside next ≡ true
      → ReceiverKnows m.text next s.message_counter
      → Ordered m.text s.message_counter more
      → IsValid m.text (record (move m s id next) { printed = more })
  receiver_moves next more was inside k l = record {
    owner = v.owner;
    owned = rw (at_each-set_same receiver_inside s.receiver_at id next (inside ∙ sym was)) v.owned;
    value = v.value;
    sender_knows = v.sender_knows;
    receiver_knows = all_know next k;
    lines = l;
  }

  receiver_waits : OnSome m.text (receiver_step m id receiver_waiting s)
  unfolding receiver_step
  receiver_waits = by_owner v.owner v.owned v.value
    where
      by_owner :
          (o : Option Thread)
          → Owned o (sender_inside s.sender_at) (λ j. receiver_inside (s.receiver_at j))
          → s.semaphore ≡ units o
          → OnSome m.text (take_one s (move m s id (copying 0 [])))
      by_owner none o q = rw q (record {
        owner = some (reader id);
        owned =
            rw (at_each-set receiver_inside s.receiver_at id (copying 0 [])) (reader_locks id o);
        value = refl;
        sender_knows = v.sender_knows;
        receiver_knows = all_know (copying 0 []) (omega arith, refl);
        lines = v.lines;
      })
      by_owner (some t) o q = rw q tt

  receiver_posts :
      s.receiver_at id ≡ receiver_posting → OnSome m.text (receiver_step m id receiver_posting s)
  unfolding receiver_step
  receiver_posts e =
      let inside : receiver_inside (s.receiver_at id) ≡ true = ap receiver_inside e in
      let taken : s.semaphore ≡ 0 = v.value ∙ ap units (v.owned.reader_owns id inside) in
      record {
        owner = none;
        owned =
            rw (at_each-set receiver_inside s.receiver_at id receiver_waiting)
              (reader_unlocks id inside v.owned);
        value = omega (arith, taken);
        sender_knows = v.sender_knows;
        receiver_knows = all_know receiver_waiting tt;
        lines = v.lines;
      }

  receiver_copies :
      (i : ℕ) (got : Bytes)
      → s.receiver_at id ≡ copying i got
      → OnSome m.text (receiver_step m id (copying i got) s)
  unfolding receiver_step
  receiver_copies i got e =
      let (le, so_far) = ReceiverKnows-at (copying i got) e in
      let was : receiver_inside (s.receiver_at id) ≡ true = ap receiver_inside e in
      let here = held was i le in
      let t = m.text s.message_counter in
      if_cases (IsValid m.text) (ltb i m.limit)
        (λ _.
          if_cases (IsValid m.text) (s.buffer i == 0)
            (λ nul.
              receiver_moves (showing got) s.printed was refl
                (so_far
                  ∙ take_all i t
                      (ground (arith, byte_at_pos t i (fits.plain s.message_counter), here)))
                v.lines)
            (λ byte.
              let lt : i < length t = ground (arith, byte_at-length t, here) in
              receiver_moves (copying (i + 1) (got ++ s.buffer i ∷ [])) s.printed was refl
                (omega arith, more i le lt so_far here) v.lines))
        (λ past.
          receiver_moves (showing got) s.printed was refl
            (so_far ∙ take_all i t (ground (arith, fits.short s.message_counter))) v.lines)
    where
      more :
          (k : ℕ)
          → k ≤ length (m.text s.message_counter)
          → k < length (m.text s.message_counter)
          → got ≡ take k (m.text s.message_counter)
          → s.buffer k ≡ byte_at (m.text s.message_counter) k
          → got ++ s.buffer k ∷ [] ≡ take (k + 1) (m.text s.message_counter)
      more k le lt so_far here =
          let next : k + 1 ≡ suc k = omega arith in
          rw next (rw so_far (rw here (take-byte_at (m.text s.message_counter) k lt)))

pub receiver_step-IsValid :
    (m : Messages)
    → Fits m
    → (s : State) (id : ℕ) (place : ReceiverAt) → s.receiver_at id ≡ place
    → IsValid m.text s
    → OnSome m.text (receiver_step m id place s)
unfolding receiver_step
receiver_step-IsValid m f s id receiver_waiting e v = receiver_waits m f s v id
receiver_step-IsValid m f s id (copying i got) e v = receiver_copies m f s v id i got e
receiver_step-IsValid m f s id (showing got) e v =
    receiver_moves m f s v id receiver_posting _ (ap receiver_inside e) refl tt
      (s.message_counter, omega arith, ReceiverKnows-at m f s v id (showing got) e, v.lines)
receiver_step-IsValid m f s id receiver_posting e v = receiver_posts m f s v id e
