-- ===== src/Archive/Extract/Marks.antt =====
-- The mark that `extract_and_remove_file` of lab5_archive/main.c writes into the archive.
use secured_operation_system.Base.{
  ◌+◌, ◌-◌, ◌≡◌, refl, sym, ap, ◌∙◌, List, [], ◌∷◌, ◌++◌, Bytes, length, drop, take-append,
  drop-append, drop-add, length-append, append-nil, arith, Bool-cases, inl, inr,
}
use secured_operation_system.Archive.Record.{
  Layout, IsLayout, is_marked, Entry, IsEntry, IsArchive, serialize, serialize-append, live,
}
use secured_operation_system.Archive.Disk.{overwrite}

-- The record with the mark that the program writes.
abbrev pub marked : Entry → Entry
marked x = record x { header = record x.header { marked_deleted = 1 } }

live-append : (xs ys : List Entry) → live (xs ++ ys) ≡ live xs ++ live ys
unfolding live
live-append [] ys = refl
live-append (x ∷ xs) ys = elim (Bool-cases (is_marked x.header)) [
  | inl m ↦ rw m (live-append xs ys)
  | inr k ↦ rw k (ap (λ t. x ∷ t) (live-append xs ys))
]

pub live-marked :
    (before after : List Entry) (x : Entry)
    → live (before ++ marked x ∷ after) ≡ live (before ++ after)
live-marked before after x =
    live-append before (marked x ∷ after) ∙ unfold live in sym (live-append before after)

-- Writing the mark at the place of a record is the archive with that record marked.
module _ (layout : Layout) (lawful : IsLayout layout) (before after : List Entry) (x : Entry)
    (h : IsEntry x) where
  pub overwrite-marked :
      overwrite
        (serialize layout (before ++ x ∷ after))
        (length (serialize layout before))
        (layout.encode (marked x).header)
      ≡ serialize layout (before ++ marked x ∷ after)
  overwrite-marked =
      let P : Bytes = serialize layout before in
      let H : Bytes = layout.encode x.header in
      let H' : Bytes = layout.encode (marked x).header in
      let T : Bytes = x.body ++ serialize layout after in
      let len : length H ≡ layout.size = lawful.length-encode x.header h.header_record in
      let len' : length H' ≡ layout.size = lawful.length-encode (marked x).header h.header_record in
      let whole : serialize layout (before ++ x ∷ after) ≡ P ++ (H ++ T) =
        serialize-append layout before (x ∷ after) ∙ unfold serialize in refl in
      let no_gap : length P - length (P ++ (H ++ T)) ≡ 0 =
        omega (arith, length-append P (H ++ T)) in
      let tail : drop (length P + length H') (P ++ (H ++ T)) ≡ T =
        drop-add (length P) (length H') (P ++ (H ++ T))
        ∙ ap (drop (length H')) (drop-append (length P) P (H ++ T) refl)
        ∙ drop-append (length H') H T (len ∙ sym len') in
      rw (whole, no_gap, take-append (length P) P (H ++ T) refl, tail, append-nil)
        (sym (serialize-append layout before (marked x ∷ after) ∙ unfold serialize in refl))

pub IsArchive-marked :
    (before after : List Entry) (x : Entry)
    → IsArchive (before ++ x ∷ after)
    → IsArchive (before ++ marked x ∷ after)
IsArchive-marked [] after x h =
    (record { header_record = h.0.header_record; sized = h.0.sized }, h.1)
IsArchive-marked (b ∷ before) after x h = (h.0, IsArchive-marked before after x h.1)

pub IsArchive-entry :
    (before after : List Entry) (x : Entry) → IsArchive (before ++ x ∷ after) → IsEntry x
IsArchive-entry [] after x h = h.0
IsArchive-entry (b ∷ before) after x h = IsArchive-entry before after x h.1
