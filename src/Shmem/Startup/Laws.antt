-- ===== src/Shmem/Startup/Laws.antt =====
-- What the start of lab7_shmem/send.c does with the file and the shared objects, signals and errors
-- included.
use secured_operation_system.Base.{
  ℕ, zero, suc, ◌≡◌, refl, sym, ap, ◌∙◌, Bool, true, false, some, arith, Option-cases, ==_refl, inl,
  inr, if_cases,
}
use secured_operation_system.Threads.Family.{set, set_undone}
use secured_operation_system.Shmem.Startup.{
  Signal, sigterm, sigint, Place, World, State, Calls, started, start_step, start_for, start,
  free_at_exit, on_signal, signalled, receiver_start, ftok, opening, keying, getting, attaching,
  installing_term, installing_int, clearing, running, already_running, open_failed, error_in, freed,
  killed,
}

module _ (c : Calls) (w : World) (id : ℕ) where
  abbrev in_loop : State
  in_loop = record {
    world = record { info_file = true; segments = set w.segments id true };
    place = running;
    shmid = id;
  }

  start-in_loop :
      w.info_file ≡ false
      → c.opens ≡ true
      → c.keys ≡ true
      → c.gets ≡ some id
      → c.attaches ≡ true
      → start c w ≡ in_loop
  unfolding start_for start_step
  start-in_loop e0 e1 e2 e3 e4 = rw e0 (rw e1 (rw e2 (rw e3 (rw e4 refl))))

  receiver_start-in_loop :
      c.keys ≡ true
      → c.gets ≡ some id
      → c.attaches ≡ true
      → receiver_start c in_loop.world ≡ running
  unfolding receiver_start
  receiver_start-in_loop e2 e3 e4 = rw e2 (rw e3 (rw (==_refl id) (rw e4 refl)))

-- Where all calls work and the new id is free, the sender comes to its loop, and so does a receiver
-- that is started then; a signal to the sender leaves the file and the segments of the system as
-- they were, and a receiver that is started then ends at `ftok`.
start-signalled :
    (signal : Signal) (c : Calls) (w : World) (id : ℕ)
    → w.info_file ≡ false
    → c.opens ≡ true
    → c.keys ≡ true
    → c.gets ≡ some id
    → c.attaches ≡ true
    → w.segments id ≡ false
    → ((start c w).place ≡ running)
      × (receiver_start c (start c w).world ≡ running)
      × ((signalled signal (start c w)).world ≡ w)
      × (receiver_start c (signalled signal (start c w)).world ≡ error_in ftok)
unfolding on_signal free_at_exit receiver_start
start-signalled signal c w id e0 e1 e2 e3 e4 free =
    let e = start-in_loop c w id e0 e1 e2 e3 e4 in
    (
      ap (λ (s : State). s.place) e,
      ap (λ (s : State). receiver_start c s.world) e ∙ receiver_start-in_loop c w id e2 e3 e4,
      ap (λ (s : State). (signalled signal s).world) e ∙ (λ i. record {
        info_file = sym e0 i;
        segments = set_undone w.segments id true false free i;
      }),
      ap (λ (s : State). receiver_start c (signalled signal s).world) e,
    )

-- Behind the `open` the file is there until `free_at_exit` removes it.
abbrev pub needs_file : Place → Bool
needs_file keying = true
needs_file getting = true
needs_file attaching = true
needs_file installing_term = true
needs_file installing_int = true
needs_file clearing = true
needs_file running = true
needs_file (error_in call) = true
needs_file _ = false

abbrev KeepsFile : State → Type 0
KeepsFile s = needs_file s.place ≡ true → s.world.info_file ≡ true

start_step-KeepsFile :
    (c : Calls) (place : Place) (s : State)
    → s.place ≡ place
    → KeepsFile s
    → KeepsFile (start_step c place s)
unfolding start_step
start_step-KeepsFile c opening s e k =
    if_cases KeepsFile s.world.info_file (λ h. λ q. absurd (ground arith))
      (λ h. if_cases KeepsFile c.opens (λ o. λ q. refl) (λ o. λ q. absurd (ground arith)))
start_step-KeepsFile c keying s e k =
    if_cases KeepsFile c.keys (λ h. λ q. k (rw e refl)) (λ h. λ q. k (rw e refl))
start_step-KeepsFile c getting s e k = elim (Option-cases c.gets) [
  | inl n ↦ rw n (λ q. k (rw e refl))
  | inr (id, j) ↦ rw j (λ q. k (rw e refl))
]
start_step-KeepsFile c attaching s e k =
    if_cases KeepsFile c.attaches (λ h. λ q. k (rw e refl)) (λ h. λ q. k (rw e refl))
start_step-KeepsFile c installing_term s e k = λ q. k (rw e refl)
start_step-KeepsFile c installing_int s e k = λ q. k (rw e refl)
start_step-KeepsFile c clearing s e k = λ q. k (rw e refl)
start_step-KeepsFile c running s e k = k
start_step-KeepsFile c already_running s e k = k
start_step-KeepsFile c open_failed s e k = k
start_step-KeepsFile c (error_in call) s e k = k
start_step-KeepsFile c freed s e k = k
start_step-KeepsFile c killed s e k = k

start_for-KeepsFile : (n : ℕ) (c : Calls) (s : State) → KeepsFile s → KeepsFile (start_for n c s)
unfolding start_for
start_for-KeepsFile zero c s k = k
start_for-KeepsFile (suc n) c s k =
    start_for-KeepsFile n c (start_step c s.place s) (start_step-KeepsFile c s.place s refl k)

start-refused : (c : Calls) (w : World) → w.info_file ≡ true → (start c w).place ≡ already_running
unfolding start_for start_step
start-refused c w e = rw e refl

-- Is the handler of a signal installed?
abbrev pub handles : Signal → Place → Bool
handles signal running = true
handles signal clearing = true
handles sigterm installing_int = true
handles sigint installing_int = false
handles signal _ = false

signalled-killed :
    (signal : Signal) (place : Place) (s : State)
    → needs_file place ≡ true
    → handles signal place ≡ false
    → (on_signal signal place s).world ≡ s.world
unfolding on_signal
signalled-killed signal keying s n h = refl
signalled-killed signal getting s n h = refl
signalled-killed signal attaching s n h = refl
signalled-killed signal installing_term s n h = refl
signalled-killed sigint installing_int s n h = refl
signalled-killed sigterm installing_int s n h = absurd (ground arith)
signalled-killed signal (error_in call) s n h = refl
signalled-killed signal clearing s n h = absurd (ground arith)
signalled-killed signal running s n h = absurd (ground arith)
signalled-killed signal opening s n h = absurd (ground arith)
signalled-killed signal already_running s n h = absurd (ground arith)
signalled-killed signal open_failed s n h = absurd (ground arith)
signalled-killed signal freed s n h = absurd (ground arith)
signalled-killed signal killed s n h = absurd (ground arith)

-- Where a call behind the `open` has failed, and where a signal comes behind the `open` and before
-- the call that installs its handler has returned, which is the first `signal` for SIGTERM and the
-- second for SIGINT, the file is left, and each later start says that the sender is already running,
-- and ends.
pub start_for-left_behind :
    (signal : Signal) (n : ℕ) (c again : Calls) (w : World)
    → needs_file (start_for n c (started w)).place ≡ true
    → handles signal (start_for n c (started w)).place ≡ false
    → (start again (signalled signal (start_for n c (started w))).world).place ≡ already_running
start_for-left_behind signal n c again w e r =
    let s = start_for n c (started w) in
    let kept : s.world.info_file ≡ true =
      start_for-KeepsFile n c (started w) (λ q. absurd (ground arith)) e in
    start-refused again (signalled signal s).world
      (ap (λ (x : World). x.info_file) (signalled-killed signal s.place s e r) ∙ kept)
