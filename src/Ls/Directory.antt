-- ===== src/Ls/Directory.antt =====
-- Reading, sorting and showing a directory: lab2_ls/myls.c.
pub mod Sorting
pub mod Freeing
use secured_operation_system.Base.{
  ℕ, zero, suc, ◌+◌, Bool, true, false, not, ◌&&◌, ◌||◌, Option, none, some, List, [], ◌∷◌, ◌++◌,
  map, Bytes, bytes, length, ltb, leb, ◌==◌, if◌then◌else◌, bit_and, bit_or,
}
use secured_operation_system.Ls.Order.{entry_sorter, is_hidden, is_positive}
use secured_operation_system.Ls.Entry.{
  type_sym, is_lnk, permission_string, Color, long_color, short_color,
}

-- What `lstat` gives.
pub record Info : Type 0 where
  pub st_mode : ℕ
  pub st_nlink : ℕ
  pub st_uid : ℕ
  pub st_gid : ℕ
  pub st_size : ℕ
  pub st_mtime : ℕ

-- The file system: the names that `readdir` gives, and whether it then failed; `lstat`; `readlink`.
pub record Fs : Type 0 where
  pub opendir : Bytes → Option (List Bytes × Bool)
  pub lstat : Bytes → Option Info
  pub readlink : Bytes → Option Bytes

-- A copy of an entry, at an address of the heap. Memory does not run out.
pub record Dirent : Type 0 where
  pub address : ℕ
  pub d_name : Bytes

-- The values of a line in the detailed view, or of a name in the short one.
pub data Row : Type 0 where
  long_row : ℕ → Bytes → Info → Color → Bytes → Option Bytes → Row
  short_row : Color → Bytes → Row

-- What was shown, the addresses that were freed, in their order, and the exit status.
pub record Result : Type 0 where
  pub rows : List Row
  pub freed : List ℕ
  pub status : ℕ

abbrev pub flag_all : ℕ
flag_all = 1

abbrev pub flag_long : ℕ
flag_long = 2

abbrev flag_set : ℕ → ℕ → Bool
flag_set flags flag = not (bit_and flags flag == 0)

abbrev path_buffer_size : ℕ
path_buffer_size = 4096

-- `snprintf(app.buffer, PATH_BUFFER_SIZE, "%s/%s", ...)`, none where the path does not fit.
build_full_path : Bytes → Bytes → Option Bytes
build_full_path location name =
    let path = location ++ (b'/' ∷ name) in
    if leb path_buffer_size (length path) then none else some path

-- What comes of one entry.
pub data Shown : Type 0 where
  hidden : Shown
  row : Row → Shown
  path_too_long : Shown
  lstat_failed : Shown

-- The row of a file.
row_of_info : Fs → ℕ → Bytes → Bytes → Info → Row
row_of_info fs flags path name info =
    let mode = info.st_mode in
    let target = if is_lnk mode then fs.readlink path else none in
    if flag_set flags flag_long
    then long_row (type_sym mode) (permission_string mode) info (long_color mode) name target
    else short_row (short_color mode) name

-- `build_full_path` and `lstat`.
show_file : Fs → ℕ → Bytes → Bytes → Shown
unfolding row_of_info build_full_path
show_file fs flags location name = elim (build_full_path location name) [
  | none ↦ path_too_long
  | some path ↦ elim (fs.lstat path) [
    | none ↦ lstat_failed
    | some info ↦ row (row_of_info fs flags path name info)
  ]
]

unfoldable pub show_entry : Fs → ℕ → Bytes → Bytes → Shown
unfolding show_file
show_entry fs flags location name =
    if is_hidden name && not (flag_set flags flag_all)
    then hidden
    else show_file fs flags location name

abbrev pub addresses : List Dirent → List ℕ
addresses [] = []
addresses (e ∷ es) = e.address ∷ addresses es

abbrev freed_before : ℕ → Result → Result
freed_before a r = record r { freed = a ∷ r.freed }

-- The end of `display_entry`: the entry is freed; after an error `cleanup_app` frees the whole list.
abbrev pub after_show : List Dirent → Dirent → Result → Shown → Result
after_show list e rest hidden = freed_before e.address rest
after_show list e rest (row r) = freed_before e.address (record rest { rows = r ∷ rest.rows })
after_show list e rest path_too_long = record { rows = []; freed = addresses list; status = 1 }
after_show list e rest lstat_failed = record {
  rows = [];
  freed = e.address ∷ addresses list;
  status = 1;
}

-- The loop of `process_directory`, over the entries that are left of `list`.
pub display_entries : Fs → ℕ → Bytes → List Dirent → List Dirent → Result
display_entries fs flags location list [] = record { rows = []; freed = []; status = 0 }
display_entries fs flags location list (e ∷ es) =
    after_show list e (display_entries fs flags location list es)
      (show_entry fs flags location e.d_name)

-- The copies, at one address after the other.
unfoldable pub copies : ℕ → List Bytes → List Dirent
copies a [] = []
copies a (name ∷ names) = record { address = a; d_name = name } ∷ copies (suc a) names

-- `qsort` by `entry_sorter`; the C library does not say where equal entries go.
pub insert : Dirent → List Dirent → List Dirent
insert e [] = e ∷ []
insert e (x ∷ xs) =
    let later = insert e xs in
    if is_positive (entry_sorter e.d_name x.d_name) then x ∷ later else e ∷ x ∷ xs

unfoldable pub sort : List Dirent → List Dirent
unfolding insert
sort [] = []
sort (e ∷ es) = insert e (sort es)

-- With `readdir` in error the copies are freed before the exit.
pub process_directory : Fs → ℕ → Bytes → Result
unfolding copies sort display_entries
process_directory fs flags target = elim (fs.opendir target) [
  | none ↦ record { rows = []; freed = []; status = 1 }
  | some (names, readdir_failed) ↦
      let loaded = copies 0 names in
      let list = sort loaded in
      if readdir_failed
      then record { rows = []; freed = addresses loaded; status = 1 }
      else display_entries fs flags target list list
]
