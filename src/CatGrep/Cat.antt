-- ===== src/CatGrep/Cat.antt =====
-- lab1_cat_grep/main.c, the text processor: `mycat [-n] [-b] [-E] [file...]`.

use secured_operation_system.Base.{
  ℕ, zero, suc, ◌+◌, ◌-◌, Bool, true, false, not, ◌&&◌, ◌||◌, Option, none, some, List, [], ◌∷◌,
  ◌++◌, Bytes, bytes, length, take, c_str, ◌==◌, if◌then◌else◌, bit_and, bit_or,
}
pub mod Options
pub mod Laws
use secured_operation_system.CatGrep.Stream.{
  lines, numbered, Message, error_opening, cat_usage, Ran, Files,
}

abbrev pub line_num_flag : ℕ
line_num_flag = 1

abbrev pub nonblank_num_flag : ℕ
nonblank_num_flag = 2

abbrev pub end_marker_flag : ℕ
end_marker_flag = 4

-- `options_set & flag` as a condition.
abbrev pub has_flag : ℕ → ℕ → Bool
has_flag options flag = not (bit_and options flag == 0)

abbrev starts_with_newline : Bytes → Bool
starts_with_newline [] = false
starts_with_newline (c ∷ l) = c == b'\n'

abbrev ends_with_newline : Bytes → Bool
ends_with_newline [] = false
ends_with_newline (c ∷ []) = c == b'\n'
ends_with_newline (c ∷ d ∷ l) = ends_with_newline (d ∷ l)

line_is_empty : Bytes → Bool
line_is_empty l = starts_with_newline l || length l == 0

-- Is this line given a number?
pub takes_number : ℕ → Bytes → Bool
unfolding line_is_empty
takes_number options l =
    if has_flag options nonblank_num_flag && not (line_is_empty l)
    then true
    else has_flag options line_num_flag && not (has_flag options nonblank_num_flag)

-- The text after the number; `text_buffer[length - 1] = '\0'` shortens the string.
pub line_text : ℕ → Bytes → Bytes
line_text options l =
    if has_flag options end_marker_flag
    then (if ends_with_newline l
        then c_str (take (length l - 1) l) ++ bytes "$\n"
        else c_str l ++ bytes "$\n")
    else c_str l

-- What is printed for a line, and the counter after it.
pub display_text_line : ℕ → ℕ → Bytes → Bytes × ℕ
unfolding takes_number line_text
display_text_line options counter l =
    if takes_number options l
    then (numbered counter ++ line_text options l, suc counter)
    else (line_text options l, counter)

pub display_lines : ℕ → ℕ → List Bytes → Bytes × ℕ
unfolding display_text_line
display_lines options counter [] = ([], counter)
display_lines options counter (l ∷ ls) =
    let now = display_text_line options counter l in
    let later = display_lines options now.1 ls in (now.0 ++ later.0, later.1)

pub stream_text_display : Bytes → ℕ → Bytes
unfolding display_lines lines
stream_text_display input options = (display_lines options 1 (lines input)).0

pub process_text_file : Files → Bytes → ℕ → Ran
unfolding stream_text_display
process_text_file files filename options = elim (files filename) [
  | none ↦ record { printed = []; messages = error_opening filename ∷ []; status = 1 }
  | some content ↦ record {
    printed = stream_text_display content options;
    messages = [];
    status = 0;
  }
]

-- The loop over the operands, with `exit_code |= ...`.
pub process_text_files : Files → ℕ → List Bytes → Ran
unfolding process_text_file
process_text_files files options [] = record { printed = []; messages = []; status = 0 }
process_text_files files options (filename ∷ filenames) =
    let first = process_text_file files filename options in
    let others = process_text_files files options filenames in
    record {
      printed = first.printed ++ others.printed;
      messages = first.messages ++ others.messages;
      status = bit_or first.status others.status;
    }

-- The loop over the results of `getopt_long`; none where it meets an unknown option.
pub selected_options : ℕ → List ℕ → Option ℕ
selected_options options [] = some options
selected_options options (current ∷ codes) =
    let number = selected_options (bit_or options line_num_flag) codes in
    let nonblank = selected_options (bit_or options nonblank_num_flag) codes in
    let ends = selected_options (bit_or options end_marker_flag) codes in
    if current == b'n'
    then number
    else (if current == b'b' then nonblank else (if current == b'E' then ends else none))

-- `getopt_long` is the C library's: the option codes in their order, and the operands.
unfoldable pub text_processor_main :
    (List Bytes → List ℕ × List Bytes) → Files → Bytes → Bytes → List Bytes → Ran
unfolding selected_options process_text_files stream_text_display
text_processor_main getopt_long files stdin name args =
    let parsed = getopt_long (name ∷ args) in
    elim (selected_options 0 parsed.0) [
      | none ↦ record { printed = []; messages = cat_usage name ∷ []; status = 1 }
      | some options ↦ elim parsed.1 [
        | [] ↦ record { printed = stream_text_display stdin options; messages = []; status = 0 }
        | filename ∷ filenames ↦ process_text_files files options (filename ∷ filenames)
      ]
    ]
