-- ===== src/Sems/Sender.antt =====
-- The sender of lab9_sems keeps the invariant.
use secured_operation_system.Base.{
  ℕ, ◌+◌, ◌≡◌, refl, sym, ap, ◌∙◌, true, false, Option, none, some, ltb, ◌==◌, arith, Bool-cases,
  ==_eq, inl, inr, if_cases,
}
use mathlib.Core.Path.{subst}
use secured_operation_system.Threads.Owner.{
  Thread, writer, Owned, writer_locks, writer_unlocks, writer_alone,
}
use secured_operation_system.Sems.Exchange.{
  SenderAt, waiting, formatting, writing, telling, posting, Messages, State, byte_at, take_one,
  sender_step,
}
use secured_operation_system.Sems.Invariant.{
  sender_inside, receiver_inside, units, Fits, SenderKnows, ReceiverKnows, Ordered-le,
  ReceiverKnows-outside, IsValid, OnSome,
}

module _ (m : Messages) (fits : Fits m) (s : State) (v : IsValid m.text s) where
  Owned-at :
      (place : SenderAt)
      → s.sender_at ≡ place
      → Owned v.owner (sender_inside place) (λ id. receiver_inside (s.receiver_at id))
  Owned-at place e =
      subst (λ p. Owned v.owner (sender_inside p) (λ id. receiver_inside (s.receiver_at id))) e
        v.owned

  SenderKnows-at :
      (place : SenderAt) → s.sender_at ≡ place → SenderKnows m.text place s.message_counter s.buffer
  SenderKnows-at place e =
      subst (λ p. SenderKnows m.text p s.message_counter s.buffer) e v.sender_knows

  -- While the sender stands inside, what it changes is nothing that a receiver knows.
  all_outside :
      sender_inside s.sender_at ≡ true
      → (n : ℕ) (id : ℕ) → ReceiverKnows m.text (s.receiver_at id) n
  all_outside inside n id =
      ReceiverKnows-outside m.text (s.receiver_at id) s.message_counter n
        (writer_alone id v.owned inside) (v.receiver_knows id)

  sender_waits : s.sender_at ≡ waiting → OnSome m.text (sender_step m waiting s)
  unfolding sender_step
  sender_waits e = by_owner v.owner (Owned-at waiting e) v.value
    where
      by_owner :
          (o : Option Thread)
          → Owned o false (λ id. receiver_inside (s.receiver_at id))
          → s.semaphore ≡ units o
          → OnSome m.text (take_one s (record s { sender_at = formatting }))
      by_owner none o q = rw q (record {
        owner = some writer;
        owned = writer_locks o;
        value = refl;
        sender_knows = SenderKnows-at waiting e;
        receiver_knows = v.receiver_knows;
        lines = v.lines;
      })
      by_owner (some t) o q = rw q tt

  sender_posts : s.sender_at ≡ posting → OnSome m.text (sender_step m posting s)
  unfolding sender_step
  sender_posts e =
      let taken : s.semaphore ≡ 0 = v.value ∙ ap units ((Owned-at posting e).writer_owns refl) in
      record {
        owner = none;
        owned = writer_unlocks (Owned-at posting e);
        value = omega (arith, taken);
        sender_knows = SenderKnows-at posting e;
        receiver_knows = v.receiver_knows;
        lines = v.lines;
      }

  sender_formats : s.sender_at ≡ formatting → OnSome m.text (sender_step m formatting s)
  unfolding sender_step
  sender_formats e = record {
    owner = v.owner;
    owned = Owned-at formatting e;
    value = v.value;
    sender_knows = λ j lt. absurd (omega arith);
    receiver_knows = all_outside (ap sender_inside e) (s.message_counter + 1);
    lines =
        Ordered-le m.text s.message_counter (s.message_counter + 1) s.printed (omega arith) v.lines;
  }

  sender_tells : s.sender_at ≡ telling → OnSome m.text (sender_step m telling s)
  unfolding sender_step
  sender_tells e = record {
    owner = v.owner;
    owned = Owned-at telling e;
    value = v.value;
    sender_knows = SenderKnows-at telling e;
    receiver_knows = v.receiver_knows;
    lines = (omega arith, refl, v.lines);
  }

  sender_writes : (i : ℕ) → s.sender_at ≡ writing i → OnSome m.text (sender_step m (writing i) s)
  unfolding sender_step
  sender_writes i e =
      let known = SenderKnows-at (writing i) e in
      if_cases (IsValid m.text) (ltb i (m.span s.message_counter))
        (λ h. record {
          owner = v.owner;
          owned = Owned-at (writing i) e;
          value = v.value;
          sender_knows = λ j lt. elim (Bool-cases (j == i)) [
            | inl q ↦ rw q (ap (byte_at (m.text s.message_counter)) (sym (==_eq j i q)))
            | inr q ↦ rw q (known j (ground arith))
          ];
          receiver_knows = v.receiver_knows;
          lines = v.lines;
        })
        (λ h. record {
          owner = v.owner;
          owned = Owned-at (writing i) e;
          value = v.value;
          sender_knows = λ j le. known j (ground (arith, fits.spanned s.message_counter));
          receiver_knows = v.receiver_knows;
          lines = v.lines;
        })

pub sender_step-IsValid :
    (m : Messages)
    → Fits m
    → (s : State) (place : SenderAt) → s.sender_at ≡ place
    → IsValid m.text s
    → OnSome m.text (sender_step m place s)
unfolding sender_step
sender_step-IsValid m f s waiting e v = sender_waits m f s v e
sender_step-IsValid m f s formatting e v = sender_formats m f s v e
sender_step-IsValid m f s (writing i) e v = sender_writes m f s v i e
sender_step-IsValid m f s telling e v = sender_tells m f s v e
sender_step-IsValid m f s posting e v = sender_posts m f s v e
