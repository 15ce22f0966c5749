-- ===== src/Ls/Tests.antt =====
-- The theorems on lab2_ls/myls.c at a small directory.
use secured_operation_system.Base.{
  ◌≡◌, refl, Bool, false, none, some, List, [], ◌∷◌, Bytes, bytes, str_eq, if◌then◌else◌,
}
use secured_operation_system.Ls.Order.{entry_sorter}
use secured_operation_system.Ls.Directory.{
  Fs, Info, Dirent, sort, copies, addresses, process_directory, show_entry,
}
use secured_operation_system.Ls.Directory.Sorting.{IsListing, count, sort-IsListing}
use secured_operation_system.Ls.Directory.Freeing.{
  process_directory-freed, process_directory-freed_twice,
}

abbrev info : Info
info = record {
  st_mode = 0o100644;
  st_nlink = 1;
  st_uid = 0;
  st_gid = 0;
  st_size = 3;
  st_mtime = 5;
}

-- "gone" is a name that `readdir` gives and that `lstat` does not find any more.
abbrev fs_of : List Bytes → Fs
fs_of names = record {
  opendir = λ _. some (names, false);
  lstat = λ path. if str_eq path (bytes "./gone") then none else some info;
  readlink = λ _. none;
}

abbrev two_names : List Bytes
two_names = bytes "b" ∷ bytes ".a" ∷ []

sort-IsListing_example :
    IsListing (sort (copies 0 two_names))
    × ((p : Dirent → Bool) → count p (sort (copies 0 two_names)) ≡ count p (copies 0 two_names))
sort-IsListing_example = sort-IsListing (copies 0 two_names)

process_directory-freed_example :
    ((process_directory (fs_of two_names) 1 (bytes ".")).freed
      ≡ addresses (sort (copies 0 two_names)))
    × ((process_directory (fs_of two_names) 1 (bytes ".")).status ≡ 0)
unfolding sort copies entry_sorter show_entry
process_directory-freed_example =
    process_directory-freed (fs_of two_names) 1 (bytes ".") two_names refl (refl, (refl, tt))

abbrev with_gone : List Bytes
with_gone = bytes "a" ∷ bytes "gone" ∷ []

process_directory-freed_twice_example :
    (process_directory (fs_of with_gone) 0 (bytes ".")).freed ≡ 0 ∷ 1 ∷ 0 ∷ 1 ∷ []
unfolding sort copies entry_sorter show_entry
process_directory-freed_twice_example =
    process_directory-freed_twice (fs_of with_gone) 0 (bytes ".") with_gone
      (record { address = 0; d_name = bytes "a" } ∷ []) []
      (record { address = 1; d_name = bytes "gone" }) refl refl (refl, tt) refl
