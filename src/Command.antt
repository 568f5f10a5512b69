-- ===== src/Command.antt =====
-- src/command.c and include/command.h: a command line is checked, cut into tokens and dispatched to
-- the document engine.
pub mod Rejections
pub mod Words
pub mod Lines
pub mod Negative
use collab_markdown_server.Base.{
  ℕ, suc, ◌+◌, ◌-◌, Bool, true, false, ◌&&◌, ◌||◌, not, Option, none, some, List, [], ◌∷◌, ltb, leb,
  ◌==◌, if◌then◌else◌, length, take, Text, codes, byte_at,
}
use collab_markdown_server.Libc.Strings.{text_eq, strtok}
use collab_markdown_server.Libc.Numbers.{strtoul}
use collab_markdown_server.Markdown.Document.{Heap}
use collab_markdown_server.Markdown.Monad.{
  Status, Outcome, ok, fail, invalid_cursor_pos, deleted_position, outdated_version,
}
use collab_markdown_server.Markdown.Edit.{
  Edit, insert, delete, newline, blockquote, ordered_list, unordered_list, horizontal_rule, heading,
  bold, italic, code, link, markdown_edit,
}

pub data UserRole : Type 0 where
  role_read role_write : UserRole

pub data CommandResult : Type 0 where
  cmd_success reject_unauthorised reject_invalid_position : CommandResult
  reject_deleted_position reject_outdated_version reject_invalid_command : CommandResult

abbrev pub max_command_len : ℕ
max_command_len = 256

unfoldable pub is_write_command : Text → Bool
is_write_command cmd =
    text_eq cmd (codes "INSERT")
    || (text_eq cmd (codes "DEL")
        || (text_eq cmd (codes "NEWLINE")
            || (text_eq cmd (codes "HEADING")
                || (text_eq cmd (codes "BOLD")
                    || (text_eq cmd (codes "ITALIC")
                        || (text_eq cmd (codes "BLOCKQUOTE")
                            || (text_eq cmd (codes "ORDERED_LIST")
                                || (text_eq cmd (codes "UNORDERED_LIST")
                                    || (text_eq cmd (codes "CODE")
                                        || (text_eq cmd (codes "HORIZONTAL_RULE")
                                            || text_eq cmd (codes "LINK")))))))))))

unfoldable pub map_markdown_result : Outcome (Unit {0}) → CommandResult
map_markdown_result (ok _) = cmd_success
map_markdown_result (fail invalid_cursor_pos) = reject_invalid_position
map_markdown_result (fail deleted_position) = reject_deleted_position
map_markdown_result (fail outdated_version) = reject_outdated_version

-- The loop over the bytes: a newline may stand last only, all others are printable.
unfoldable pub are_valid_bytes : Text → Bool
are_valid_bytes [] = true
are_valid_bytes (c ∷ rest) =
    let others = are_valid_bytes rest in
    if c == b'\n' then length rest == 0 else if ltb c 32 || ltb 126 c then false else others

unfoldable pub validate_raw_command_line : Option Text → Bool
validate_raw_command_line none = false
validate_raw_command_line (some line) =
    if length line == 0 || ltb max_command_len (length line) then false else are_valid_bytes line

unfoldable pub copy_without_trailing_newline : Text → Text
copy_without_trailing_newline line =
    let len = length line in
    take (if ltb 0 len && byte_at line (len - 1) == b'\n' then len - 1 else len) line

-- `*end` is the NUL.
abbrev whole_number : ℕ × Text → Option ℕ
whole_number (value, []) = some value
whole_number (value, c ∷ s) = none

-- `none` where the function returns 0; a NULL or empty text is refused.
unfoldable pub parse_size : Option Text → Option ℕ
parse_size none = none
parse_size (some []) = none
parse_size (some (c ∷ s)) = whole_number (strtoul (c ∷ s))

-- strtok_r(NULL, " ", &save)
unfoldable pub next_word : Text → Option Text × Text
next_word save = strtok (λ c. c == b' ') save

abbrev pub both : {A B : Type 0} → Option A → Option B → Option (A × B)
both none b = none
both (some a) none = none
both (some a) (some b) = some (a, b)

-- `if (!pos_s || extra)`, and the number
abbrev one_size_of : Option Text → Option Text → Option ℕ
one_size_of none extra = none
one_size_of (some pos) (some _) = none
one_size_of (some pos) none = parse_size (some pos)

-- One number and nothing behind it.
unfoldable pub one_size : Text → Option ℕ
one_size save =
    let (pos_s, save1) = next_word save in
    let (extra, save2) = next_word save1 in one_size_of pos_s extra

-- `if (!start_s || !end_s || extra)`, and the numbers
abbrev two_sizes_of : Option Text → Option Text → Option Text → Option (ℕ × ℕ)
two_sizes_of none end extra = none
two_sizes_of (some start) none extra = none
two_sizes_of (some start) (some end) (some _) = none
two_sizes_of (some start) (some end) none = both (parse_size (some start)) (parse_size (some end))

-- Two numbers and nothing behind them.
unfoldable pub two_sizes : Text → Option (ℕ × ℕ)
two_sizes save =
    let (start_s, save1) = next_word save in
    let (end_s, save2) = next_word save1 in
    let (extra, save3) = next_word save2 in two_sizes_of start_s end_s extra

abbrev size_and_content_of : Option Text × Text → Option (ℕ × Text)
size_and_content_of (pos_s, []) = none
size_and_content_of (none, c ∷ s) = none
size_and_content_of (some pos, c ∷ s) = both (parse_size (some pos)) (some (c ∷ s))

-- A number, and the rest of the line, which is not empty.
unfoldable pub size_and_content : Text → Option (ℕ × Text)
size_and_content save = size_and_content_of (next_word save)

-- `if (!start_s || !end_s || !url || extra)`, and the numbers
abbrev sizes_and_url_of :
    Option Text → Option Text → Option Text → Option Text → Option ((ℕ × ℕ) × Text)
sizes_and_url_of start_s end_s none extra = none
sizes_and_url_of start_s end_s (some url) extra = both (two_sizes_of start_s end_s extra) (some url)

-- Two numbers, a URL and nothing behind it.
unfoldable pub sizes_and_url : Text → Option ((ℕ × ℕ) × Text)
sizes_and_url save =
    let (start_s, save1) = next_word save in
    let (end_s, save2) = next_word save1 in
    let (url_s, save3) = next_word save2 in
    let (extra, save4) = next_word save3 in sizes_and_url_of start_s end_s url_s extra

abbrev pub at_one : (ℕ → Edit) → Option ℕ → Option Edit
at_one f none = none
at_one f (some pos) = some (f pos)

abbrev pub at_two : (ℕ → ℕ → Edit) → Option (ℕ × ℕ) → Option Edit
at_two f none = none
at_two f (some (start, end)) = some (f start end)

abbrev pub at_content : Option (ℕ × Text) → Option Edit
at_content none = none
at_content (some (pos, content)) = some (insert pos content)

abbrev pub at_url : Option ((ℕ × ℕ) × Text) → Option Edit
at_url none = none
at_url (some ((start, end), url)) = some (link start end url)

-- The `else if` ladder on the first token: which call is made, or none.
unfoldable pub parse_edit : Text → Text → Option Edit
parse_edit cmd save =
    if text_eq cmd (codes "INSERT")
    then at_content (size_and_content save)
    else if text_eq cmd (codes "DEL")
    then at_two delete (two_sizes save)
    else if text_eq cmd (codes "NEWLINE")
    then at_one newline (one_size save)
    else if text_eq cmd (codes "HEADING")
    then at_two heading (two_sizes save)
    else if text_eq cmd (codes "BOLD")
    then at_two bold (two_sizes save)
    else if text_eq cmd (codes "ITALIC")
    then at_two italic (two_sizes save)
    else if text_eq cmd (codes "BLOCKQUOTE")
    then at_one blockquote (one_size save)
    else if text_eq cmd (codes "ORDERED_LIST")
    then at_one ordered_list (one_size save)
    else if text_eq cmd (codes "UNORDERED_LIST")
    then at_one unordered_list (one_size save)
    else if text_eq cmd (codes "CODE")
    then at_two code (two_sizes save)
    else if text_eq cmd (codes "HORIZONTAL_RULE")
    then at_one horizontal_rule (one_size save)
    else if text_eq cmd (codes "LINK")
    then at_url (sizes_and_url save)
    else none

abbrev pub is_writer : UserRole → Bool
is_writer role_read = false
is_writer role_write = true

unfoldable pub run_edit : ℕ → ℕ → Option Edit → Heap → CommandResult × Heap
run_edit doc version none h = (reject_invalid_command, h)
run_edit doc version (some e) h =
    let (r, h') = markdown_edit doc version e h in (map_markdown_result r, h')

-- The line without its newline, cut at its first token.
unfoldable pub run_words : ℕ → ℕ → UserRole → Option Text × Text → Heap → CommandResult × Heap
run_words doc version role (none, save) h = (reject_invalid_command, h)
run_words doc version role (some cmd, save) h =
    if is_write_command cmd && not (is_writer role)
    then (reject_unauthorised, h)
    else run_edit doc version (parse_edit cmd save) h

abbrev pub is_live : ℕ → Heap → Bool
is_live doc h = elim (h.documents doc) [ none ↦ false | some d ↦ true ]

unfoldable pub command_execute : ℕ → ℕ → UserRole → Option Text → Heap → CommandResult × Heap
command_execute doc version role none h = (reject_invalid_command, h)
command_execute doc version role (some line) h =
    if is_live doc h && validate_raw_command_line (some line)
    then run_words doc version role (next_word (copy_without_trailing_newline line)) h
    else (reject_invalid_command, h)

unfoldable pub command_result_to_string : CommandResult → Text
command_result_to_string cmd_success = codes "SUCCESS"
command_result_to_string reject_unauthorised = codes "Reject UNAUTHORISED"
command_result_to_string reject_invalid_position = codes "Reject INVALID_POSITION"
command_result_to_string reject_deleted_position = codes "Reject DELETED_POSITION"
command_result_to_string reject_outdated_version = codes "Reject OUTDATED_VERSION"
command_result_to_string reject_invalid_command = codes "Reject INVALID_COMMAND"
