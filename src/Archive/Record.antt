-- ===== src/Archive/Record.antt =====
-- `struct archive_record` of lab5_archive/main.c, its bytes in memory, and well-formed archives.
use secured_operation_system.Base.{
  ℕ, ◌<◌, ◌≡◌, refl, Bool, not, List, [], ◌∷◌, ◌++◌, Bytes, length, All, ◌==◌, if◌then◌else◌, ℤ,
  pos, append_assoc,
}

-- The fields of `struct stat` that the program uses; `st_size` is a signed `off_t`.
pub record Stat : Type 0 where
  pub st_mode : ℕ
  pub st_uid : ℕ
  pub st_gid : ℕ
  pub st_size : ℤ
  pub st_atime : ℕ
  pub st_mtime : ℕ

abbrev pub path_size : ℕ
path_size = 1024

-- `path` is the whole array of `path_size` bytes.
pub record ArchiveRecord : Type 0 where
  pub path : Bytes
  pub file_stats : Stat
  pub marked_deleted : ℕ

abbrev pub is_marked : ArchiveRecord → Bool
is_marked r = not (r.marked_deleted == 0)

-- The layout of the struct in memory is the compiler's: `sizeof`, the bytes of a value, and the
-- value that bytes stand for.
pub record Layout : Type 0 where
  pub size : ℕ
  pub encode : ArchiveRecord → Bytes
  pub decode : Bytes → ArchiveRecord

-- A value whose array has its length; the program builds no other.
abbrev pub IsRecord : ArchiveRecord → Type 0
IsRecord r = length r.path ≡ path_size

pub record IsLayout (layout : Layout) : Type 0 where
  pub size_pos : 0 < layout.size
  pub length-encode : (r : ArchiveRecord) → IsRecord r → length (layout.encode r) ≡ layout.size
  pub decode-encode : (r : ArchiveRecord) → IsRecord r → layout.decode (layout.encode r) ≡ r

-- The abstract view of an archive: its records in order, each with the bytes of its file.
pub record Entry : Type 0 where
  pub header : ArchiveRecord
  pub body : Bytes

pub record IsEntry (e : Entry) : Type 0 where
  pub header_record : IsRecord e.header
  pub sized : e.header.file_stats.st_size ≡ pos (length e.body)

abbrev pub IsArchive : List Entry → Type 0
IsArchive = All IsEntry

unfoldable pub serialize : Layout → List Entry → Bytes
serialize layout [] = []
serialize layout (e ∷ es) = layout.encode e.header ++ (e.body ++ serialize layout es)

-- The records that are not marked as deleted.
unfoldable pub live : List Entry → List Entry
live [] = []
live (e ∷ es) = if is_marked e.header then live es else e ∷ live es

pub serialize-append :
    (layout : Layout) (xs ys : List Entry)
    → serialize layout (xs ++ ys) ≡ serialize layout xs ++ serialize layout ys
unfolding serialize
serialize-append layout [] ys = refl
serialize-append layout (x ∷ xs) ys = simp (serialize-append layout xs ys, append_assoc)
