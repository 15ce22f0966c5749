-- ===== src/Shmem/Startup.antt =====
-- The start of lab7_shmem/send.c, call by call, its `free_at_exit`, and the start of
-- lab7_shmem/receive.c.
pub mod Laws
use secured_operation_system.Base.{
  ℕ, zero, suc, ◌+◌, ◌≡◌, ◌≢◌, refl, sym, ap, ◌∙◌, fun_ext, Bool, true, false, not, ◌&&◌, Option,
  none, some, ◌==◌, if◌then◌else◌, arith, Bool-cases, Option-cases, ==_eq, ==_refl, inl, inr,
  if_cases,
}
use secured_operation_system.Threads.Family.{set}

pub data Call : Type 0 where
  ftok shmget shmat : Call

-- Where the sender stands: before one of its calls, the two of `signal` and `memset` included, in its
-- loop, or at an exit.
pub data Place : Type 0 where
  opening keying getting attaching installing_term installing_int clearing running : Place
  already_running open_failed : Place
  error_in : Call → Place
  freed killed : Place

-- The file, and the segments of the whole system by their ids.
pub record World : Type 0 where
  pub info_file : Bool
  pub segments : ℕ → Bool

pub record State : Type 0 where
  pub world : World
  pub place : Place
  pub shmid : ℕ

-- The results of the calls; `shmget` gives the id of the segment.
pub record Calls : Type 0 where
  pub opens : Bool
  pub keys : Bool
  pub gets : Option ℕ
  pub attaches : Bool

abbrev pub started : World → State
started w = record { world = w; place = opening; shmid = 0 }

abbrev pub go : State → Place → State
go s p = record s { place = p }

-- One call of `main`. `open` with O_EXCL fails with EEXIST where the file is there.
unfoldable pub start_step : Calls → Place → State → State
start_step c opening s =
    if s.world.info_file
    then go s already_running
    else if c.opens
    then record s { world = record s.world { info_file = true }; place = keying }
    else go s open_failed
start_step c keying s = if c.keys then go s getting else go s (error_in ftok)
start_step c getting s = elim c.gets [
  | none ↦ go s (error_in shmget)
  | some id ↦ record s {
    world = record s.world { segments = set s.world.segments id true };
    shmid = id;
    place = attaching;
  }
]
start_step c attaching s = if c.attaches then go s installing_term else go s (error_in shmat)
start_step c installing_term s = go s installing_int
start_step c installing_int s = go s clearing
start_step c clearing s = go s running
start_step c running s = s
start_step c already_running s = s
start_step c open_failed s = s
start_step c (error_in call) s = s
start_step c freed s = s
start_step c killed s = s

unfoldable pub start_for : ℕ → Calls → State → State
unfolding start_step
start_for zero c s = s
start_for (suc n) c s = start_for n c (start_step c s.place s)

-- There are seven calls before the loop.
abbrev pub start : Calls → World → State
start c w = start_for 7 c (started w)

pub free_at_exit : State → State
free_at_exit s = record s {
  world = record { info_file = false; segments = set s.world.segments s.shmid false };
  place = freed;
}

pub data Signal : Type 0 where
  sigterm sigint : Signal

-- The handler is installed for SIGTERM first, and then for SIGINT; a signal without a handler kills
-- the process.
unfoldable pub on_signal : Signal → Place → State → State
unfolding free_at_exit
on_signal signal running s = free_at_exit s
on_signal signal clearing s = free_at_exit s
on_signal sigterm installing_int s = free_at_exit s
on_signal sigint installing_int s = go s killed
on_signal signal installing_term s = go s killed
on_signal signal opening s = go s killed
on_signal signal keying s = go s killed
on_signal signal getting s = go s killed
on_signal signal attaching s = go s killed
on_signal signal already_running s = s
on_signal signal open_failed s = s
on_signal signal (error_in call) s = s
on_signal signal freed s = s
on_signal signal killed s = s

abbrev pub signalled : Signal → State → State
signalled signal s = on_signal signal s.place s

-- The start of the receiver: `ftok` needs the file, and `shmget` makes nothing.
unfoldable pub receiver_start : Calls → World → Place
receiver_start c w =
    if w.info_file && c.keys
    then elim c.gets [
      | none ↦ error_in shmget
      | some id ↦
          if w.segments id then if c.attaches then running else error_in shmat else error_in shmget
    ]
    else error_in ftok
