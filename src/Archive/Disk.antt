-- ===== src/Archive/Disk.antt =====
-- The file system that lab5_archive/main.c works on, and the calls that it makes of it.
use mathlib.Core.Option
use secured_operation_system.Base.{
  ℕ, Bool, Option, none, some, List, [], ◌∷◌, ◌++◌, Bytes, length, take, drop, replicate, ◌-◌,
  str_eq, ◌≡◌, ◌≢◌, ◌+◌, if◌then◌else◌, pos, eq_of_str_eq, str_eq_refl, Bool-cases, inl, inr,
}
use secured_operation_system.Archive.Record.{Stat}

pub record File : Type 0 where
  pub data_bytes : Bytes
  pub mode : ℕ
  pub uid : ℕ
  pub gid : ℕ
  pub atime : ℕ
  pub mtime : ℕ

-- The regular files by their names. Two names are two files: hard links are not modelled.
abbrev pub Disk : Type 0
Disk = Bytes → Option File

abbrev pub update : Disk → Bytes → Option File → Disk
update d path f q = if str_eq q path then f else d q

abbrev pub data_of : Disk → Bytes → Bytes
data_of d path = elim (d path) [ none ↦ [] | some f ↦ f.data_bytes ]

abbrev pub map_file : (File → File) → Disk → Bytes → Disk
map_file f d path = update d path (Option.map f (d path))

-- A write at the end of a file.
abbrev pub append_data : Disk → Bytes → Bytes → Disk
append_data d path w = map_file (λ f. record f { data_bytes = f.data_bytes ++ w }) d path

-- A write of `w` at a position; a gap behind the end of the file reads as NUL bytes.
abbrev pub overwrite : Bytes → ℕ → Bytes → Bytes
overwrite old at w =
    (take at old ++ replicate (at - length old) 0) ++ (w ++ drop (at + length w) old)

abbrev pub overwrite_data : Disk → Bytes → ℕ → Bytes → Disk
overwrite_data d path at w =
    map_file (λ f. record f { data_bytes = overwrite f.data_bytes at w }) d path

-- `fstat`
abbrev pub stat_of : File → Stat
stat_of f = record {
  st_mode = f.mode;
  st_uid = f.uid;
  st_gid = f.gid;
  st_size = pos (length f.data_bytes);
  st_atime = f.atime;
  st_mtime = f.mtime;
}

-- What the system decides: which calls fail, the name that `mkstemp` finds, the attributes of a
-- file that is created, and what `chown` does to a file (its result is not tested).
pub record Env : Type 0 where
  pub open_fails : Bytes → Bool
  pub mkstemp_fails : Bool
  pub fstat_fails : Bool
  pub rename_fails : Bool
  pub unlink_fails : Bool
  pub seekable : Bool
  pub temp_name : Bytes
  pub new_file : ℕ → File
  pub chmod_fails : Bool
  pub utime_fails : Bool
  pub chown : ℕ → ℕ → File → File

-- The lines that the program prints, by the format string that prints them.
pub data Message : Type 0 where
  compress_open_error compress_temp_error compress_header_error compress_copy_error : Message
  compress_skip_error compress_read_error compress_rename_error compress_failed : Message
  archive_open_error source_open_error name_too_long metadata_error : Message
  header_write_error data_write_error added : Message
  header_read_error too_large output_open_error output_skip_error extract_error : Message
  position_error mark_write_error skip_seek_error listing_seek_error extracted not_found : Message
  chmod_warning utime_warning : Message
  help : Message

-- The file system and what was printed.
pub record Outcome : Type 0 where
  pub disk : Disk
  pub printed : List Message

abbrev pub report : Disk → Message → Outcome
report d message = record { disk = d; printed = message ∷ [] }

pub update-same : (d : Disk) (path : Bytes) (f : Option File) → update d path f path ≡ f
update-same d path f = rw (str_eq_refl path)

pub update-other :
    (d : Disk) (path q : Bytes) (f : Option File) → q ≢ path → update d path f q ≡ d q
update-other d path q f ne = elim (Bool-cases (str_eq q path)) [
  | inl e ↦ absurd (ne (eq_of_str_eq q path e))
  | inr e ↦ rw e
]
