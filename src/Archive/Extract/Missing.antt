-- ===== src/Archive/Extract/Missing.antt =====
-- Extracting a name that an archive of lab5_archive/main.c does not have.
use secured_operation_system.Base.{
  ℕ, ◌<◌, ◌≡◌, refl, ap₂, ◌∙◌, Bool, true, false, some, List, [], ◌∷◌, Bytes, length, arith,
}
use secured_operation_system.Archive.Record.{Layout, IsLayout, Entry, IsArchive, serialize}
use secured_operation_system.Archive.Disk.{File, Disk, Env, not_found}
use secured_operation_system.Archive.Scan.{finished, scan}
use secured_operation_system.Archive.Scan.Laws.{none_wanted, scan_missing}
use secured_operation_system.Archive.Extract.{after_scan, extract_and_remove_file}

-- In a well-formed archive that opens and can be read, a name with no live record changes nothing,
-- and is reported as not found.
pub extract_and_remove_file-missing :
    (layout : Layout) (lawful : IsLayout layout) (env : Env) (d : Disk) (archive name : Bytes)
    (es : List Entry) (fuel : ℕ) (f : File)
    → env.open_fails archive ≡ false
    → env.seekable ≡ true
    → d archive ≡ some f
    → f.data_bytes ≡ serialize layout es
    → IsArchive es
    → none_wanted name es ≡ true
    → length es < fuel
    → extract_and_remove_file layout env fuel d archive name []
      ≡ some (record { disk = d; printed = not_found ∷ [] })
unfolding extract_and_remove_file after_scan
extract_and_remove_file-missing layout lawful env d archive name es fuel f opens seeks there holds
      wf none_ enough =
    let walk : scan layout env.seekable f.data_bytes name fuel 0 [] ≡ finished [] =
      ap₂ (λ (b : Bool) (t : Bytes). scan layout b t name fuel 0 []) seeks holds
      ∙ scan_missing layout lawful (serialize layout es) name fuel 0 es wf none_ enough refl in
    ground (arith, there, opens, walk)
