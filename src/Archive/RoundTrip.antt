-- ===== src/Archive/RoundTrip.antt =====
-- Adding a file to an archive and extracting it again: lab5_archive/main.c.
use secured_operation_system.Base.{
  ℕ, ◌≤◌, ◌<◌, ◌≡◌, ◌≢◌, refl, sym, ap, ◌∙◌, true, false, none, some, List, [], ◌∷◌, ◌++◌, Bytes,
  length, append-nil, All, c_str, arith,
}
use mathlib.Core.Path.{subst}
use secured_operation_system.Archive.Record.{
  path_size, Layout, IsLayout, Entry, IsEntry, IsArchive, serialize, live,
}
use secured_operation_system.Archive.Disk.{File, Disk, Env, Outcome}
use secured_operation_system.Archive.Compress.Refines.{NoFaults}
use secured_operation_system.Archive.Scan.Laws.{none_wanted}
use secured_operation_system.Archive.Add.{new_record, open_or_create, add_file_to_archive}
use secured_operation_system.Archive.Add.Laws.{
  new_entry, new_entry-IsEntry, c_str-padded, add_file_to_archive-serialize,
  add_file_to_archive-Extends,
}
use secured_operation_system.Archive.Extract.{max_allowed_size, extract_and_remove_file}
use secured_operation_system.Archive.Extract.Laws.{Ready, extract_and_remove_file-first}
use secured_operation_system.Archive.Extract.Output.{Holds}

IsArchive-snoc : (es : List Entry) (x : Entry) → IsArchive es → IsEntry x → IsArchive (es ++ x ∷ [])
IsArchive-snoc [] x h k = (k, tt)
IsArchive-snoc (e ∷ es) x h k = (h.0, IsArchive-snoc es x h.1 k)

module _ (layout : Layout) (lawful : IsLayout layout) (env : Env)
    (keeps : (u v : ℕ) (g : File) → (env.chown u v g).data_bytes ≡ g.data_bytes) (d : Disk)
    (archive target : Bytes) (es : List Entry) (f source : File) where
  -- The archive exists and is well-formed, `target` is a file whose name fits and holds no NUL, no
  -- live record has that name, and the calls of the system do what they are asked for.
  pub record Conditions : Type 0 where
    pub there : d archive ≡ some f
    pub holds : f.data_bytes ≡ serialize layout es
    pub wf : IsArchive es
    pub readable : d target ≡ some source
    pub small : length source.data_bytes ≤ max_allowed_size
    pub short : length target < path_size
    pub no_nul : All (λ c. 0 < c) target
    pub new_name : none_wanted target es ≡ true
    pub faults : NoFaults env archive
    pub opens : env.open_fails target ≡ false
    pub seeks : env.seekable ≡ true
    pub fresh : d env.temp_name ≡ none
    pub apart : archive ≢ target

  abbrev stored : Disk
  stored = (add_file_to_archive layout env d archive target []).disk

  -- What the extraction under a name leaves behind.
  abbrev pub Restored : ℕ → Bytes → Type 0
  Restored fuel name =
      (o : Outcome) × (extract_and_remove_file layout env fuel stored archive name [] ≡ some o)
      × Holds o.disk name source.data_bytes
      × Holds o.disk archive (serialize layout (live es))
      × ((q : Bytes) → q ≢ archive → q ≢ name → o.disk q ≡ d q)

  opened : Conditions → open_or_create layout env d archive ≡ d
  unfolding open_or_create
  opened c = rw (c.there, open_or_create)

  array_name : Conditions → c_str (new_record target source).path ≡ target
  unfolding new_record
  array_name c = c_str-padded target c.short c.no_nul

  -- Where the calls of the system do what they are asked for, the archive is well-formed and has
  -- no live record of the name, and the name and the size are within their limits: a file that is
  -- added to the archive and extracted again has its bytes, the archive then has the live records
  -- that it had before, and no other file has changed.
  pub add-extract : (fuel : ℕ) → Conditions → length es < fuel → Restored fuel target
  add-extract fuel c enough =
      let same = opened c in
      let added =
        add_file_to_archive-serialize layout env archive target d es f source c.faults.opens c.opens
          c.faults.attributes (ap (λ (e : Disk). e archive) same ∙ c.there) c.holds
          (ap (λ (e : Disk). e target) same ∙ c.readable) c.short in
      let grown = add_file_to_archive-Extends layout env archive target d f [] c.there in
      let x : Entry = new_entry target source in
      let name = array_name c in
      let t_archive : env.temp_name ≢ archive =
        λ p. absurd (ground (arith, ap d p, c.fresh, c.there)) in
      let t_target : target ≢ env.temp_name =
        λ p. absurd (ground (arith, ap d p, c.fresh, c.readable)) in
      let ready : Ready layout lawful env keeps stored archive es [] x = record {
        faults = c.faults;
        seeks = c.seeks;
        output = ap env.open_fails name ∙ c.opens;
        fresh = grown.others env.temp_name t_archive ∙ c.fresh;
        apart = λ p. c.apart (p ∙ name);
        lasting = λ p. t_target (sym name ∙ p);
        first = ap (λ (n : Bytes). none_wanted n es) name ∙ c.new_name;
        unmarked = unfold new_record in refl;
        small = c.small;
        wf = IsArchive-snoc es x c.wf (new_entry-IsEntry target source);
      } in
      let (o, run, body, rest, others) =
        extract_and_remove_file-first layout lawful env keeps stored archive es [] x fuel _ ready
          added.1 refl enough in
      subst (Restored fuel) name (
        o,
        run,
        body,
        subst (λ (l : List Entry). Holds o.disk archive (serialize layout (live l))) (append-nil es)
            rest,
        λ q ne_archive ne_name. others q ne_archive ne_name ∙ grown.others q ne_archive,
      )
