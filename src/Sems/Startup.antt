-- ===== src/Sems/Startup.antt =====
-- The start of lab9_sems/send.c, call by call, and its `cleanup_handler`. `report_error` prints a
-- message and exits with 1.
pub mod Laws
use secured_operation_system.Base.{
  ℕ, zero, suc, ◌+◌, ◌≡◌, ◌⊎◌, refl, sym, ap, ◌∙◌, fun_ext, Bool, true, false, Option, none, some,
  ◌&&◌, ◌==◌, if◌then◌else◌, arith, Bool-cases, Option-cases, ◌≤◌, ==_eq, ==_refl, inl, inr,
  if_cases,
}
use secured_operation_system.Threads.Family.{set}

-- The calls that can fail behind the `open`.
pub data Call : Type 0 where
  signal ftok shmget shmat semget semctl : Call

-- Where `main` stands: before one of its calls, in its loop, or at an exit.
pub data Place : Type 0 where
  opening installing keying getting attaching creating setting : Place
  running : Place
  already_running : Place
  error_in : Call → Place
  cleaned_up : Place
  killed : Place

-- Is there an object of an id, and may this process remove it, as its user has made it, or not?
pub data Owner : Type 0 where
  nobody same_user other_user : Owner

abbrev pub is_there : Owner → Bool
is_there nobody = false
is_there same_user = true
is_there other_user = true

-- `shmctl` or `semctl` with IPC_RMID, which fails on the object of another user, and where there is
-- none.
abbrev pub removed : Owner → Owner
removed nobody = nobody
removed same_user = nobody
removed other_user = other_user

-- The file, and the segments and the semaphores of the whole system by their ids.
pub record World : Type 0 where
  pub key_file : Bool
  pub segments : ℕ → Owner
  pub semaphores : ℕ → Owner

-- The system and the variables of the process.
pub record State : Type 0 where
  pub world : World
  pub place : Place
  pub shared_memory_id : ℕ
  pub semaphore_id : ℕ

-- The results of the calls; `shmget` and `semget` give the id of what they create.
pub record Calls : Type 0 where
  pub opens : Bool
  pub installs : Bool
  pub keys : Bool
  pub gets : Option ℕ
  pub attaches : Bool
  pub creates : Option ℕ
  pub sets : Bool

abbrev pub started : World → State
started w = record { world = w; place = opening; shared_memory_id = 0; semaphore_id = 0 }

abbrev pub go : State → Place → State
go s p = record s { place = p }

-- One call of `main`. `open` with O_EXCL fails where the file is there.
unfoldable pub start_step : Calls → Place → State → State
start_step c opening s =
    if s.world.key_file
    then go s already_running
    else if c.opens
    then record s { world = record s.world { key_file = true }; place = installing }
    else go s already_running
start_step c installing s = if c.installs then go s keying else go s (error_in signal)
start_step c keying s = if c.keys then go s getting else go s (error_in ftok)
start_step c getting s = elim c.gets [
  | none ↦ go s (error_in shmget)
  | some id ↦ record s {
    world = record s.world { segments = set s.world.segments id same_user };
    shared_memory_id = id;
    place = attaching;
  }
]
start_step c attaching s = if c.attaches then go s creating else go s (error_in shmat)
start_step c creating s = elim c.creates [
  | none ↦ go s (error_in semget)
  | some id ↦ record s {
    world = record s.world { semaphores = set s.world.semaphores id same_user };
    semaphore_id = id;
    place = setting;
  }
]
start_step c setting s = if c.sets then go s running else go s (error_in semctl)
start_step c running s = s
start_step c already_running s = s
start_step c (error_in call) s = s
start_step c cleaned_up s = s
start_step c killed s = s

-- The first calls of `main`.
unfoldable pub start_for : ℕ → Calls → State → State
unfolding start_step
start_for zero c s = s
start_for (suc n) c s = start_for n c (start_step c s.place s)

-- There are seven calls before the loop.
abbrev pub start : Calls → World → State
start c w = start_for 7 c (started w)

-- `cleanup_handler`: `shmctl` and `semctl` remove what has the ids in the variables, where they may;
-- their failures are only reported.
pub cleanup_handler : State → State
cleanup_handler s = record s {
  world = record {
    key_file = false;
    segments =
        set s.world.segments s.shared_memory_id (removed (s.world.segments s.shared_memory_id));
    semaphores =
        set s.world.semaphores s.semaphore_id (removed (s.world.semaphores s.semaphore_id));
  };
  place = cleaned_up;
}

-- A signal SIGINT or SIGTERM: without a handler it kills the process.
unfoldable pub on_signal : Place → State → State
unfolding cleanup_handler
on_signal opening s = go s killed
on_signal installing s = go s killed
on_signal keying s = cleanup_handler s
on_signal getting s = cleanup_handler s
on_signal attaching s = cleanup_handler s
on_signal creating s = cleanup_handler s
on_signal setting s = cleanup_handler s
on_signal running s = cleanup_handler s
on_signal already_running s = s
on_signal (error_in call) s = s
on_signal cleaned_up s = s
on_signal killed s = s

-- The start of receive.c, whose `ftok` needs the file, and whose `shmget` and `semget` make nothing.
unfoldable pub receiver_start : Calls → World → Place
receiver_start c w =
    if w.key_file && c.keys
    then elim c.gets [
      | none ↦ error_in shmget
      | some segment ↦
          if is_there (w.segments segment)
          then if c.attaches
            then elim c.creates [
              | none ↦ error_in semget
              | some semaphore ↦
                  if is_there (w.semaphores semaphore) then running else error_in semget
            ]
            else error_in shmat
          else error_in shmget
    ]
    else error_in ftok

abbrev pub signalled : State → State
signalled s = on_signal s.place s
