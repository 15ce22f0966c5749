-- ===== src/Archive/Tests/Fixture.antt =====
-- A concrete layout of `struct archive_record` and a file system in which no call fails.
use secured_operation_system.Base.{
  ℕ, ◌≡◌, refl, ap, ap₂, ◌∙◌, true, false, none, some, [], ◌∷◌, ◌++◌, Bytes, bytes, take, drop,
  take-append, drop-append, length-append, ℤ, pos, negsuc, if◌then◌else◌, str_eq, ◌==◌, arith,
}
use secured_operation_system.Archive.Record.{
  Stat, ArchiveRecord, Layout, IsLayout, Entry, IsArchive, serialize,
}
use secured_operation_system.Archive.Disk.{File, Disk, Env}
use secured_operation_system.Archive.Compress.Refines.{NoFaults}
use secured_operation_system.Archive.Add.Laws.{new_entry, new_entry-IsEntry}

abbrev sign : ℤ → ℕ
sign (pos n) = 0
sign (negsuc n) = 1

abbrev magnitude : ℤ → ℕ
magnitude (pos n) = n
magnitude (negsuc n) = n

abbrev of_cells : ℕ → ℕ → ℤ
of_cells s n = if s == 0 then pos n else negsuc n

of_cells-sign : (z : ℤ) → of_cells (sign z) (magnitude z) ≡ z
of_cells-sign (pos n) = refl
of_cells-sign (negsuc n) = refl

abbrev stat_cells : ArchiveRecord → Bytes
stat_cells r =
    r.file_stats.st_mode
    ∷ r.file_stats.st_uid
    ∷ r.file_stats.st_gid
    ∷ sign r.file_stats.st_size
    ∷ magnitude r.file_stats.st_size
    ∷ r.file_stats.st_atime
    ∷ r.file_stats.st_mtime
    ∷ r.marked_deleted
    ∷ []

abbrev no_stat : Stat
no_stat = record {
  st_mode = 0;
  st_uid = 0;
  st_gid = 0;
  st_size = pos 0;
  st_atime = 0;
  st_mtime = 0;
}

abbrev of_stat_cells : Bytes → Bytes → ArchiveRecord
of_stat_cells p (mode ∷ uid ∷ gid ∷ s ∷ n ∷ atime ∷ mtime ∷ m ∷ []) = record {
  path = p;
  file_stats = record {
    st_mode = mode;
    st_uid = uid;
    st_gid = gid;
    st_size = of_cells s n;
    st_atime = atime;
    st_mtime = mtime;
  };
  marked_deleted = m;
}
of_stat_cells p other = record { path = p; file_stats = no_stat; marked_deleted = 0 }

-- One cell for a field.
abbrev pub cells : Layout
cells = record {
  size = 1032;
  encode = λ r. r.path ++ stat_cells r;
  decode = λ bs. of_stat_cells (take 1024 bs) (drop 1024 bs);
}

pub cells-IsLayout : IsLayout cells
cells-IsLayout = record {
  size_pos = omega arith;
  length-encode = λ r h. length-append r.path (stat_cells r) ∙ omega (arith, h);
  decode-encode = λ r h.
      ap₂ of_stat_cells (take-append 1024 r.path (stat_cells r) h)
        (drop-append 1024 r.path (stat_cells r) h)
      ∙ ap (λ (z : ℤ). record r { file_stats = record r.file_stats { st_size = z } })
          (of_cells-sign r.file_stats.st_size);
}

abbrev pub no_fault_env : Env
no_fault_env = record {
  open_fails = λ _. false;
  mkstemp_fails = false;
  fstat_fails = false;
  rename_fails = false;
  seekable = true;
  unlink_fails = false;
  temp_name = bytes "tmp";
  new_file = λ m. record { data_bytes = []; mode = m; uid = 0; gid = 0; atime = 0; mtime = 0 };
  chmod_fails = false;
  utime_fails = false;
  chown = λ u v g. record g { uid = u; gid = v };
}

pub no_fault_env-NoFaults : NoFaults no_fault_env (bytes "arc")
no_fault_env-NoFaults = record { opens = refl; temporary = refl; attributes = refl; renames = refl }

abbrev pub plain_file : Bytes → File
plain_file bs = record { data_bytes = bs; mode = 420; uid = 7; gid = 8; atime = 9; mtime = 10 }

-- The archive "arc" holds one record, of the file "a"; the file "b" stands beside it.
abbrev pub entry_a : Entry
entry_a = new_entry (bytes "a") (plain_file (bytes "one"))

abbrev pub archive_file : File
archive_file = plain_file (serialize cells (entry_a ∷ []))

abbrev pub files : Disk
files q =
    if str_eq q (bytes "arc")
    then some archive_file
    else (if str_eq q (bytes "b") then some (plain_file (bytes "two")) else none)

pub entry_a-IsArchive : IsArchive (entry_a ∷ [])
entry_a-IsArchive = (new_entry-IsEntry (bytes "a") (plain_file (bytes "one")), tt)
