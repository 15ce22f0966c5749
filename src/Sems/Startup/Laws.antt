-- ===== src/Sems/Startup/Laws.antt =====
-- What the start of lab9_sems/send.c does with the file and the shared objects, signals and errors
-- included.
use secured_operation_system.Base.{
  ℕ, zero, suc, ◌≡◌, refl, sym, ap, ◌∙◌, Bool, true, false, some, arith, Option-cases, ==_refl, inl,
  inr, if_cases,
}
use secured_operation_system.Threads.Family.{set, set_undone}
use secured_operation_system.Sems.Startup.{
  Call, Place, World, State, Calls, started, start_step, start_for, start, cleanup_handler,
  on_signal, receiver_start, signalled, ftok, opening, installing, keying, getting, attaching,
  creating, setting, running, already_running, error_in, cleaned_up, killed, nobody, same_user,
}

module _ (c : Calls) (w : World) (segment semaphore : ℕ) where
  -- The state of the sender in its loop.
  abbrev in_loop : State
  in_loop = record {
    world = record {
      key_file = true;
      segments = set w.segments segment same_user;
      semaphores = set w.semaphores semaphore same_user;
    };
    place = running;
    shared_memory_id = segment;
    semaphore_id = semaphore;
  }

  start-in_loop :
      w.key_file ≡ false
      → c.opens ≡ true
      → c.installs ≡ true
      → c.keys ≡ true
      → c.gets ≡ some segment
      → c.attaches ≡ true
      → c.creates ≡ some semaphore
      → c.sets ≡ true
      → start c w ≡ in_loop
  unfolding start_for start_step
  start-in_loop e0 e1 e2 e3 e4 e5 e6 e7 =
      rw e0 (rw e1 (rw e2 (rw e3 (rw e4 (rw e5 (rw e6 (rw e7 refl)))))))

  receiver_start-in_loop :
      c.keys ≡ true
      → c.gets ≡ some segment
      → c.attaches ≡ true
      → c.creates ≡ some semaphore
      → receiver_start c in_loop.world ≡ running
  unfolding receiver_start
  receiver_start-in_loop e3 e4 e5 e6 =
      rw e3 (rw e4 (rw (==_refl segment) (rw e5 (rw e6 (rw (==_refl semaphore) refl)))))

-- Where all calls work and the two new ids are free, the sender comes to its loop, and so does a
-- receiver that is started then; a signal to the sender leaves the file, the segments and the
-- semaphores of the system as they were before the start, and a receiver that is started then ends
-- at `ftok`.
pub start-on_signal :
    (c : Calls) (w : World) (segment semaphore : ℕ)
    → w.key_file ≡ false
    → c.opens ≡ true
    → c.installs ≡ true
    → c.keys ≡ true
    → c.gets ≡ some segment
    → c.attaches ≡ true
    → c.creates ≡ some semaphore
    → c.sets ≡ true
    → w.segments segment ≡ nobody
    → w.semaphores semaphore ≡ nobody
    → ((start c w).place ≡ running)
      × (receiver_start c (start c w).world ≡ running)
      × ((signalled (start c w)).world ≡ w)
      × (receiver_start c (signalled (start c w)).world ≡ error_in ftok)
unfolding on_signal cleanup_handler receiver_start
start-on_signal c w segment semaphore e0 e1 e2 e3 e4 e5 e6 e7 free_segment free_semaphore =
    let e = start-in_loop c w segment semaphore e0 e1 e2 e3 e4 e5 e6 e7 in
    (
      ap (λ (s : State). s.place) e,
      ap (λ (s : State). receiver_start c s.world) e
          ∙ receiver_start-in_loop c w segment semaphore e3 e4 e5 e6,
      ap (λ (s : State). (signalled s).world) e
          ∙ rw (==_refl segment) (
              rw (==_refl semaphore) (λ i. record {
                key_file = sym e0 i;
                segments = set_undone w.segments segment same_user nobody free_segment i;
                semaphores = set_undone w.semaphores semaphore same_user nobody free_semaphore i;
              })),
      ap (λ (s : State). receiver_start c (signalled s).world) e,
    )

-- Behind the `open` the file is there until the handler removes it.
abbrev needs_file : Place → Bool
needs_file opening = false
needs_file already_running = false
needs_file cleaned_up = false
needs_file killed = false
needs_file installing = true
needs_file keying = true
needs_file getting = true
needs_file attaching = true
needs_file creating = true
needs_file setting = true
needs_file running = true
needs_file (error_in call) = true

abbrev KeepsFile : State → Type 0
KeepsFile s = needs_file s.place ≡ true → s.world.key_file ≡ true

start_step-KeepsFile :
    (c : Calls) (place : Place) (s : State)
    → s.place ≡ place
    → KeepsFile s
    → KeepsFile (start_step c place s)
unfolding start_step
start_step-KeepsFile c opening s e k =
    if_cases KeepsFile s.world.key_file (λ h. λ q. absurd (ground arith))
      (λ h. if_cases KeepsFile c.opens (λ o. λ q. refl) (λ o. λ q. absurd (ground arith)))
start_step-KeepsFile c installing s e k =
    if_cases KeepsFile c.installs (λ h. λ q. k (rw e refl)) (λ h. λ q. k (rw e refl))
start_step-KeepsFile c keying s e k =
    if_cases KeepsFile c.keys (λ h. λ q. k (rw e refl)) (λ h. λ q. k (rw e refl))
start_step-KeepsFile c getting s e k = elim (Option-cases c.gets) [
  | inl n ↦ rw n (λ q. k (rw e refl))
  | inr (id, j) ↦ rw j (λ q. k (rw e refl))
]
start_step-KeepsFile c attaching s e k =
    if_cases KeepsFile c.attaches (λ h. λ q. k (rw e refl)) (λ h. λ q. k (rw e refl))
start_step-KeepsFile c creating s e k = elim (Option-cases c.creates) [
  | inl n ↦ rw n (λ q. k (rw e refl))
  | inr (id, j) ↦ rw j (λ q. k (rw e refl))
]
start_step-KeepsFile c setting s e k =
    if_cases KeepsFile c.sets (λ h. λ q. k (rw e refl)) (λ h. λ q. k (rw e refl))
start_step-KeepsFile c running s e k = k
start_step-KeepsFile c already_running s e k = k
start_step-KeepsFile c (error_in call) s e k = k
start_step-KeepsFile c cleaned_up s e k = k
start_step-KeepsFile c killed s e k = k

start_for-KeepsFile : (n : ℕ) (c : Calls) (s : State) → KeepsFile s → KeepsFile (start_for n c s)
unfolding start_for
start_for-KeepsFile zero c s k = k
start_for-KeepsFile (suc n) c s k =
    start_for-KeepsFile n c (start_step c s.place s) (start_step-KeepsFile c s.place s refl k)

start-refused : (c : Calls) (w : World) → w.key_file ≡ true → (start c w).place ≡ already_running
unfolding start_for start_step
start-refused c w e = rw e refl

-- After a start that ends at any error behind the `open` the key file is still there, so that each
-- later start, whatever its calls would give, says that another instance is running, and ends.
pub start-left_behind :
    (c again : Calls) (w : World) (call : Call)
    → (start c w).place ≡ error_in call
    → ((start c w).world.key_file ≡ true)
      × ((start again (start c w).world).place ≡ already_running)
start-left_behind c again w call e =
    let left = start_for-KeepsFile 7 c (started w) (λ q. absurd (ground arith)) (rw e refl) in
    (left, start-refused again (start c w).world left)
