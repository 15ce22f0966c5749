-- ===== src/CatGrep/Grep.antt =====
-- lab1_cat_grep/main.c, the pattern searcher: `mygrep pattern [file...]`.
pub mod Laws
use secured_operation_system.Base.{
  ℕ, zero, suc, ◌+◌, Bool, true, false, Option, none, some, List, [], ◌∷◌, ◌++◌, Bytes, length,
  bytes, c_str, ltb, if◌then◌else◌, bit_or,
}
use secured_operation_system.CatGrep.Stream.{
  lines, Message, cannot_open, pattern_compilation_failed, grep_usage, Ran, Files,
}

-- <regex.h>: `regcomp(_, pattern, REG_EXTENDED)` gives the compiled pattern, none for an error;
-- applied to a line it is `regexec(...) == 0`.
abbrev pub Regcomp : Type 0
Regcomp = Bytes → Option (Bytes → Bool)

-- The `printf` of a line that matches; the source is none for `NULL`.
pub match_text : Option Bytes → Bool → Bytes → Bytes
match_text none multi_source l = c_str l
match_text (some source) multi_source l =
    if multi_source then source ++ bytes ":" ++ c_str l else c_str l

-- The loop over the lines: what is printed, and `found_status`.
pub search_lines : (Bytes → Bool) → Option Bytes → Bool → List Bytes → Bytes × Bool
unfolding match_text
search_lines regex source multi_source [] = ([], false)
search_lines regex source multi_source (l ∷ ls) =
    let rest = search_lines regex source multi_source ls in
    if regex (c_str l) then (match_text source multi_source l ++ rest.0, true) else rest

pub search_stream_pattern : (Bytes → Bool) → Bytes → Option Bytes → Bool → Bytes × ℕ
unfolding search_lines lines
search_stream_pattern regex input source multi_source =
    let result = search_lines regex source multi_source (lines input) in
    (result.0, if result.1 then 0 else 1)

pub search_file_pattern : Regcomp → Files → Bytes → Bytes → Bool → Ran
unfolding search_stream_pattern
search_file_pattern regcomp files pattern filename multi_source = elim (files filename) [
  | none ↦ record { printed = []; messages = cannot_open filename ∷ []; status = 1 }
  | some content ↦ elim (regcomp pattern) [
    | none ↦ record { printed = []; messages = pattern_compilation_failed ∷ []; status = 1 }
    | some regex ↦
        let found = search_stream_pattern regex content (some filename) multi_source in
        record { printed = found.0; messages = []; status = found.1 }
  ]
]

-- The function returns nothing; the status of the run is the caller's.
search_input_pattern : Regcomp → Bytes → Bytes → Bytes × List Message
unfolding search_stream_pattern
search_input_pattern regcomp stdin pattern = elim (regcomp pattern) [
  | none ↦ ([], pattern_compilation_failed ∷ [])
  | some regex ↦ ((search_stream_pattern regex stdin none false).0, [])
]

-- The loop over the file names, with `overall_status |= ...`.
pub search_files : Regcomp → Files → Bytes → Bool → List Bytes → Ran
unfolding search_file_pattern
search_files regcomp files pattern multi_source [] = record {
  printed = [];
  messages = [];
  status = 0;
}
search_files regcomp files pattern multi_source (filename ∷ filenames) =
    let first = search_file_pattern regcomp files pattern filename multi_source in
    let others = search_files regcomp files pattern multi_source filenames in
    record {
      printed = first.printed ++ others.printed;
      messages = first.messages ++ others.messages;
      status = bit_or first.status others.status;
    }

-- `args` are the arguments after the name of the program: `arg_count > 3` is more than two.
unfoldable pub pattern_searcher_main : Regcomp → Files → Bytes → Bytes → List Bytes → Ran
unfolding search_input_pattern search_files
pattern_searcher_main regcomp files stdin name [] = record {
  printed = [];
  messages = grep_usage name ∷ [];
  status = 1;
}
pattern_searcher_main regcomp files stdin name (pattern ∷ []) =
    let found = search_input_pattern regcomp stdin pattern in
    record { printed = found.0; messages = found.1; status = 0 }
pattern_searcher_main regcomp files stdin name (pattern ∷ filename ∷ filenames) =
    search_files regcomp files pattern (ltb 1 (length (filename ∷ filenames)))
      (filename ∷ filenames)
