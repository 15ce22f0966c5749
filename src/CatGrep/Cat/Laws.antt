-- ===== src/CatGrep/Cat/Laws.antt =====
-- What the text processor of lab1_cat_grep/main.c prints and returns.
use secured_operation_system.Base.{
  ℕ, suc, ◌+◌, ◌≡◌, refl, sym, ap₂, ◌∙◌, Bool, true, false, not, ◌||◌, none, some, List, [], ◌∷◌,
  ◌++◌, append_assoc, Bytes, c_str, contains, if◌then◌else◌, arith, Bool-cases, Option-cases, inl,
  inr, to_int,
}
use secured_operation_system.Base.Bits.{bit_or_flags}
use secured_operation_system.CatGrep.Stream.{lines, join, join-lines, numbered, Files}
use secured_operation_system.CatGrep.Cat.{
  display_lines, display_text_line, takes_number, line_text, stream_text_display, process_text_file,
  process_text_files,
}

c_str_id : (s : Bytes) → contains s 0 ≡ false → c_str s ≡ s
c_str_id [] h = refl
c_str_id (b ∷ s) h = ground (arith, c_str_id s)

contains-append : (s t : Bytes) (c : ℕ) → contains (s ++ t) c ≡ (contains s c || contains t c)
contains-append [] t c = refl
contains-append (b ∷ s) t c = ground (arith, contains-append s t c)

plain_lines :
    (counter : ℕ) (ls : List Bytes)
    → contains (join ls) 0 ≡ false
    → (display_lines 0 counter ls).0 ≡ join ls
unfolding display_lines
plain_lines counter [] h = refl
plain_lines counter (l ∷ ls) h =
    let split : (contains l 0 || contains (join ls) 0) ≡ false =
      sym (contains-append l (join ls) 0) ∙ h in
    ap₂ (λ a b. a ++ b) (c_str_id l (ground arith)) (plain_lines counter ls (ground arith))

-- Without options a stream that has no NUL byte is printed as it is.
stream_text_display-plain :
    (input : Bytes) → contains input 0 ≡ false → stream_text_display input 0 ≡ input
unfolding stream_text_display
stream_text_display-plain input h =
    plain_lines 1 (lines input) (rw (join-lines input) h) ∙ join-lines input

-- How many lines have a number: with `-b` those that are not empty, with `-n` alone all.
abbrev numbered_lines : ℕ → List Bytes → ℕ
numbered_lines options [] = 0
numbered_lines options (l ∷ ls) =
    let rest = numbered_lines options ls in if takes_number options l then suc rest else rest

display_lines-counter :
    (options counter : ℕ) (ls : List Bytes)
    → (display_lines options counter ls).1 ≡ counter + numbered_lines options ls
unfolding display_lines display_text_line
display_lines-counter options counter [] = omega arith
display_lines-counter options counter (l ∷ ls) = elim (Bool-cases (takes_number options l)) [
  | inl h ↦ rw h (omega (arith, display_lines-counter options (suc counter) ls))
  | inr h ↦ rw h (omega (arith, display_lines-counter options counter ls))
]

-- A line is printed as at the start of a stream whose counter is ahead by the lines that were
-- numbered before it; so the numbers go up by one for each numbered line.
display_lines-append :
    (options counter : ℕ) (ls ms : List Bytes)
    → (display_lines options counter (ls ++ ms)).0
      ≡ (display_lines options counter ls).0
        ++ (display_lines options (counter + numbered_lines options ls) ms).0
unfolding display_lines display_text_line
display_lines-append options counter [] ms =
    let e : counter + 0 ≡ counter = omega arith in rw e refl
display_lines-append options counter (l ∷ ls) ms = elim (Bool-cases (takes_number options l)) [
  | inl h ↦
      let e : counter + suc (numbered_lines options ls) ≡ suc counter + numbered_lines options ls =
        omega arith in
      rw h (
        rw e (
          rw (display_lines-append options (suc counter) ls ms)
            (sym (append_assoc (numbered counter ++ line_text options l) _ _))))
  | inr h ↦ rw h (
      rw (display_lines-append options counter ls ms)
        (sym (append_assoc (line_text options l) _ _)))
]

-- Does every name open?
abbrev all_open : Files → List Bytes → Bool
all_open files [] = true
all_open files (f ∷ fs) = elim (files f) [ none ↦ false | some content ↦ all_open files fs ]

-- What `cat` would write for the files that open.
abbrev contents : Files → List Bytes → Bytes
contents files [] = []
contents files (f ∷ fs) = elim (files f) [
  | none ↦ contents files fs
  | some content ↦ content ++ contents files fs
]

-- The exit status of the text processor on files is 0 exactly where every file opens, and 1
-- otherwise.
process_text_files-status :
    (files : Files) (options : ℕ) (names : List Bytes)
    → (process_text_files files options names).status ≡ to_int (not (all_open files names))
unfolding process_text_files process_text_file
process_text_files-status files options [] = refl
process_text_files-status files options (f ∷ fs) = elim (Option-cases (files f)) [
  | inl e ↦
      rw (e, to_int, process_text_file)
        (rw (process_text_files-status files options fs)
          (bit_or_flags true (not (all_open files fs))))
  | inr (content, e) ↦
      rw (e, to_int, process_text_file)
        (rw (process_text_files-status files options fs)
          (bit_or_flags false (not (all_open files fs))))
]

-- For files without NUL bytes and no options, the files that open are printed as they are, one
-- after the other, and the others are passed over.
pub process_text_files-printed :
    (files : Files) (names : List Bytes)
    → ((name content : Bytes) → files name ≡ some content → contains content 0 ≡ false)
    → (process_text_files files 0 names).printed ≡ contents files names
unfolding process_text_files process_text_file
process_text_files-printed files [] h = refl
process_text_files-printed files (f ∷ fs) h = elim (Option-cases (files f)) [
  | inl e ↦ rw (e, contents, process_text_file) (process_text_files-printed files fs h)
  | inr (content, e) ↦
      rw (e, contents, process_text_file)
        (ap₂ (λ a b. a ++ b) (stream_text_display-plain content (h f content e))
          (process_text_files-printed files fs h))
]
