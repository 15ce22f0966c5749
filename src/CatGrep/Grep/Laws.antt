-- ===== src/CatGrep/Grep/Laws.antt =====
-- What the pattern searcher of lab1_cat_grep/main.c prints and returns.
use secured_operation_system.Base.{
  ◌≡◌, refl, ap, ap₂, ◌∙◌, Bool, true, false, not, ◌&&◌, ◌||◌, Option, none, some, List, [], ◌∷◌,
  Bytes, bytes, ◌++◌, c_str, ltb, length, if◌then◌else◌, Bool-cases, Option-cases, inl, inr, to_int,
  map,
}
use secured_operation_system.Base.Bits.{bit_or_flags}
use secured_operation_system.CatGrep.Stream.{lines, join, Files}
use secured_operation_system.CatGrep.Grep.{
  Regcomp, match_text, search_lines, search_stream_pattern, search_file_pattern, search_files,
  pattern_searcher_main,
}

-- The lines that match, in their order, and whether there is one.
abbrev matching : (Bytes → Bool) → List Bytes → List Bytes
matching regex [] = []
matching regex (l ∷ ls) = let rest = matching regex ls in if regex (c_str l) then l ∷ rest else rest

-- What stands in front of a line: the source and a colon, where there is a source and several are
-- searched.
abbrev pub label : Option Bytes → Bool → Bytes
label none several = []
label (some source) false = []
label (some source) true = source ++ bytes ":"

match_text-label :
    (source : Option Bytes) (several : Bool) (l : Bytes)
    → match_text source several l ≡ label source several ++ c_str l
unfolding match_text
match_text-label none several l = refl
match_text-label (some source) false l = refl
match_text-label (some source) true l = refl

abbrev pub is_empty : List Bytes → Bool
is_empty [] = true
is_empty (l ∷ ls) = false

search_lines-matching :
    (regex : Bytes → Bool) (source : Option Bytes) (multi : Bool) (ls : List Bytes)
    → search_lines regex source multi ls ≡ (
      join (map (λ l. label source multi ++ c_str l) (matching regex ls)),
      not (is_empty (matching regex ls)),
    )
unfolding search_lines
search_lines-matching regex source multi [] = refl
search_lines-matching regex source multi (l ∷ ls) = elim (Bool-cases (regex (c_str l))) [
  | inl h ↦
      rw h (
        rw (search_lines-matching regex source multi ls)
          (rw (match_text-label source multi l) refl))
  | inr h ↦ rw h (search_lines-matching regex source multi ls)
]

-- A search prints the matching lines of the stream and no others, in their order, each with
-- the source and a colon in front where there is a source and several are searched; its status is 1 exactly where no line matches.
pub search_stream_pattern-matching :
    (regex : Bytes → Bool) (input : Bytes) (source : Option Bytes) (multi : Bool)
    → search_stream_pattern regex input source multi ≡ (
      join (map (λ l. label source multi ++ c_str l) (matching regex (lines input))),
      to_int (is_empty (matching regex (lines input))),
    )
unfolding search_stream_pattern
search_stream_pattern-matching regex input source multi =
    rw (search_lines-matching regex source multi (lines input))
      (ap₂ (λ a b. (a, b)) refl (status (is_empty (matching regex (lines input)))))
  where
    status : (b : Bool) → (if not b then 0 else 1) ≡ to_int b
    status true = refl
    status false = refl

-- Has this file a line that matches?
abbrev has_match : Regcomp → Files → Bytes → Bytes → Bool
has_match regcomp files pattern name = elim (files name) [
  | none ↦ false
  | some content ↦ elim (regcomp pattern) [
    | none ↦ false
    | some regex ↦ not (is_empty (matching regex (lines content)))
  ]
]

abbrev all_match : Regcomp → Files → Bytes → List Bytes → Bool
all_match regcomp files pattern [] = true
all_match regcomp files pattern (f ∷ fs) =
    has_match regcomp files pattern f && all_match regcomp files pattern fs

file-status :
    (regcomp : Regcomp) (files : Files) (pattern name : Bytes) (multi : Bool)
    → (search_file_pattern regcomp files pattern name multi).status
      ≡ to_int (not (has_match regcomp files pattern name))
unfolding search_file_pattern
file-status regcomp files pattern name multi = elim (Option-cases (files name)) [
  | inl e ↦ rw (e, has_match, search_file_pattern) refl
  | inr (content, e) ↦ elim (Option-cases (regcomp pattern)) [
    | inl c ↦ rw (e, has_match, search_file_pattern) (rw c refl)
    | inr (regex, c) ↦
        rw (e, has_match, search_file_pattern)
          (rw c (
            ap (λ r. r.1) (search_stream_pattern-matching regex content (some name) multi)
            ∙ ap to_int (not_not (is_empty (matching regex (lines content))))))
  ]
]
  where
    not_not : (b : Bool) → b ≡ not (not b)
    not_not true = refl
    not_not false = refl

-- The status of a search in files is 0 exactly where every file opens, the pattern compiles and
-- every file has a line that matches.
search_files-status :
    (regcomp : Regcomp) (files : Files) (pattern : Bytes) (multi : Bool) (names : List Bytes)
    → (search_files regcomp files pattern multi names).status
      ≡ to_int (not (all_match regcomp files pattern names))
unfolding search_files
search_files-status regcomp files pattern multi [] = refl
search_files-status regcomp files pattern multi (f ∷ fs) =
    rw (file-status regcomp files pattern f multi) (
      rw (search_files-status regcomp files pattern multi fs) (
        bit_or_flags (not (has_match regcomp files pattern f))
          (not (all_match regcomp files pattern fs))
        ∙ ap to_int
            (de_morgan (has_match regcomp files pattern f) (all_match regcomp files pattern fs))))
  where
    de_morgan : (a b : Bool) → (not a || not b) ≡ not (a && b)
    de_morgan true b = refl
    de_morgan false b = refl

-- The exit status of the pattern searcher: on standard input it is always 0, also where no line
-- matches or the pattern does not compile; on files it is 0 exactly where every file opens, the
-- pattern compiles and every file has a line that matches.
pub pattern_searcher_main-status :
    (regcomp : Regcomp) (files : Files) (stdin name pattern file : Bytes) (more : List Bytes)
    → ((pattern_searcher_main regcomp files stdin name (pattern ∷ [])).status ≡ 0)
      × ((pattern_searcher_main regcomp files stdin name (pattern ∷ file ∷ more)).status
          ≡ to_int (not (all_match regcomp files pattern (file ∷ more))))
unfolding pattern_searcher_main
pattern_searcher_main-status regcomp files stdin name pattern file more =
    (refl, search_files-status regcomp files pattern (ltb 1 (length (file ∷ more))) (file ∷ more))
