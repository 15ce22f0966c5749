-- ===== src/CatGrep/Tests.antt =====
-- The theorems on lab1_cat_grep/main.c at concrete files.
use secured_operation_system.Base.{
  ℕ, ◌≡◌, sym, ap, Bool, true, false, Option, none, some, List, [], ◌∷◌, Bytes, bytes, contains,
  str_eq, if◌then◌else◌, arith,
}
use secured_operation_system.CatGrep.Stream.{lines, Files}
use secured_operation_system.CatGrep.Cat.{process_text_files}
use secured_operation_system.CatGrep.Cat.Laws.{process_text_files-printed}
use secured_operation_system.CatGrep.Grep.{Regcomp, search_stream_pattern, pattern_searcher_main}
use secured_operation_system.CatGrep.Grep.Laws.{
  search_stream_pattern-matching, pattern_searcher_main-status,
}

-- One file, "f", and a pattern that matches the lines with its first byte.
abbrev one_file : Files
one_file name = if str_eq name (bytes "f") then some (bytes "one\n\ntwo\n") else none

abbrev first_byte : Regcomp
first_byte [] = none
first_byte (c ∷ _) = some (λ l. contains l c)

abbrev no_options : List Bytes → List ℕ × List Bytes
no_options [] = ([], [])
no_options (name ∷ args) = ([], args)

by_name :
    (b : Bool) (content : Bytes)
    → (if b then some (bytes "one\n\ntwo\n") else none) ≡ some content
    → contains content 0 ≡ false
by_name true content e =
    sym (ap {B = Bool} (λ (o : Option Bytes). elim o [ none ↦ false | some t ↦ contains t 0 ]) e)
by_name false content e = absurd (ground arith)

process_text_files-printed_example :
    (process_text_files one_file 0 (bytes "f" ∷ bytes "g" ∷ [])).printed ≡ bytes "one\n\ntwo\n"
process_text_files-printed_example =
    process_text_files-printed one_file (bytes "f" ∷ bytes "g" ∷ []) no_nul
  where
    no_nul : (name content : Bytes) → one_file name ≡ some content → contains content 0 ≡ false
    no_nul name content e = by_name (str_eq name (bytes "f")) content e

search_stream_pattern-matching_example :
    search_stream_pattern (λ l. contains l b't') (bytes "one\n\ntwo\n") (some (bytes "f")) true
    ≡ (bytes "f:two\n", 0)
unfolding lines
search_stream_pattern-matching_example =
    search_stream_pattern-matching (λ l. contains l b't') (bytes "one\n\ntwo\n") (some (bytes "f"))
      true

pattern_searcher_main-status_example :
    ((pattern_searcher_main first_byte one_file
        (bytes "x\n")
        (bytes "mygrep")
        (bytes "t" ∷ [])).status
      ≡ 0)
    × ((pattern_searcher_main first_byte one_file
          (bytes "x\n")
          (bytes "mygrep")
          (bytes "t" ∷ bytes "f" ∷ [])).status
        ≡ 0)
unfolding lines
pattern_searcher_main-status_example =
    pattern_searcher_main-status first_byte one_file (bytes "x\n") (bytes "mygrep") (bytes "t")
      (bytes "f") []
