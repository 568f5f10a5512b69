-- ===== src/Command/Lines.antt =====
-- A command line that asks for an edit, and what executing it does.
use collab_markdown_server.Base.{
  last_byte, ℕ, suc, ◌-◌, ◌<◌, ◌≡◌, ◌≢◌, refl, ap, ◌∙◌, Bool, true, false, ◌&&◌, not, some, [], ◌∷◌,
  ◌++◌, arith, leb, lt→ltb, length, length-append, take-append, Text, codes, word_mod,
}
use collab_markdown_server.Libc.Strings.{text_eq, strtok}
use collab_markdown_server.Libc.Numbers.{decimal}
use collab_markdown_server.Markdown.Document.{Heap}
use collab_markdown_server.Markdown.Edit.{
  Edit, insert, delete, newline, blockquote, ordered_list, unordered_list, horizontal_rule, heading,
  bold, italic, code, link, markdown_edit,
}
use collab_markdown_server.Markdown.Stage.{check_version, IsCurrent}
use collab_markdown_server.Command.Words.{
  two_numbers, is_word, one_size-decimal, two_sizes-decimal, size_and_content-decimal,
  sizes_and_url-decimal,
}
use collab_markdown_server.Command.{
  role_write, max_command_len, map_markdown_result, is_write_command, are_valid_bytes,
  validate_raw_command_line, copy_without_trailing_newline, next_word, at_one, at_two, at_content,
  at_url, parse_edit, run_edit, run_words, command_execute, is_live, is_writer,
}

abbrev command_name : Edit → Text
command_name (insert pos content) = codes "INSERT"
command_name (delete pos len) = codes "DEL"
command_name (newline pos) = codes "NEWLINE"
command_name (blockquote pos) = codes "BLOCKQUOTE"
command_name (ordered_list pos) = codes "ORDERED_LIST"
command_name (unordered_list pos) = codes "UNORDERED_LIST"
command_name (horizontal_rule pos) = codes "HORIZONTAL_RULE"
command_name (heading level pos) = codes "HEADING"
command_name (bold start end) = codes "BOLD"
command_name (italic start end) = codes "ITALIC"
command_name (code start end) = codes "CODE"
command_name (link start end url) = codes "LINK"

abbrev command_args : Edit → Text
command_args (insert pos content) = decimal pos ++ (b' ' ∷ content)
command_args (delete pos len) = two_numbers pos len
command_args (newline pos) = decimal pos
command_args (blockquote pos) = decimal pos
command_args (ordered_list pos) = decimal pos
command_args (unordered_list pos) = decimal pos
command_args (horizontal_rule pos) = decimal pos
command_args (heading level pos) = two_numbers level pos
command_args (bold start end) = two_numbers start end
command_args (italic start end) = two_numbers start end
command_args (code start end) = two_numbers start end
command_args (link start end url) = decimal start ++ (b' ' ∷ (decimal end ++ (b' ' ∷ url)))

-- The line for an edit, without its newline.
abbrev pub command_line : Edit → Text
command_line e = command_name e ++ (b' ' ∷ command_args e)

-- Numbers that `size_t` holds, contents that are not empty, and a URL without spaces.
abbrev Sendable : Edit → Type 0
Sendable (insert pos content) = (pos < word_mod) × (content ≢ [])
Sendable (delete pos len) = (pos < word_mod) × (len < word_mod)
Sendable (newline pos) = pos < word_mod
Sendable (blockquote pos) = pos < word_mod
Sendable (ordered_list pos) = pos < word_mod
Sendable (unordered_list pos) = pos < word_mod
Sendable (horizontal_rule pos) = pos < word_mod
Sendable (heading level pos) = (level < word_mod) × (pos < word_mod)
Sendable (bold start end) = (start < word_mod) × (end < word_mod)
Sendable (italic start end) = (start < word_mod) × (end < word_mod)
Sendable (code start end) = (start < word_mod) × (end < word_mod)
Sendable (link start end url) =
    (start < word_mod) × (end < word_mod) × (url ≢ []) × (is_word url ≡ true)

parse_edit-args : (e : Edit) → Sendable e → parse_edit (command_name e) (command_args e) ≡ some e
unfolding parse_edit text_eq
parse_edit-args (insert pos content) (r, ne) =
    ap at_content (size_and_content-decimal pos content r ne)
parse_edit-args (delete pos len) (ra, rb) = ap (at_two delete) (two_sizes-decimal pos len ra rb)
parse_edit-args (newline pos) r = ap (at_one newline) (one_size-decimal pos r)
parse_edit-args (blockquote pos) r = ap (at_one blockquote) (one_size-decimal pos r)
parse_edit-args (ordered_list pos) r = ap (at_one ordered_list) (one_size-decimal pos r)
parse_edit-args (unordered_list pos) r = ap (at_one unordered_list) (one_size-decimal pos r)
parse_edit-args (horizontal_rule pos) r = ap (at_one horizontal_rule) (one_size-decimal pos r)
parse_edit-args (heading level pos) (ra, rb) =
    ap (at_two heading) (two_sizes-decimal level pos ra rb)
parse_edit-args (bold start end) (ra, rb) = ap (at_two bold) (two_sizes-decimal start end ra rb)
parse_edit-args (italic start end) (ra, rb) = ap (at_two italic) (two_sizes-decimal start end ra rb)
parse_edit-args (code start end) (ra, rb) = ap (at_two code) (two_sizes-decimal start end ra rb)
parse_edit-args (link start end url) (ra, rb, ne, word) =
    ap at_url (sizes_and_url-decimal start end url ra rb ne word)

-- Space to tilde.
unfoldable pub are_printable : Text → Bool
are_printable [] = true
are_printable (c ∷ s) = (leb 32 c && leb c 126) && are_printable s

are_valid_bytes-line :
    (s : Text) → are_printable s ≡ true → are_valid_bytes (s ++ (b'\n' ∷ [])) ≡ true
unfolding are_valid_bytes are_printable
are_valid_bytes-line [] h = refl
are_valid_bytes-line (c ∷ s) h = ground (arith, are_valid_bytes-line s)

pub validate-line :
    (s : Text)
    → are_printable s ≡ true
    → length s < max_command_len
    → validate_raw_command_line (some (s ++ (b'\n' ∷ []))) ≡ true
unfolding validate_raw_command_line
validate-line s printable short =
    ground (arith, length-append s (b'\n' ∷ []), are_valid_bytes-line s)

pub copy-line : (s : Text) → copy_without_trailing_newline (s ++ (b'\n' ∷ [])) ≡ s
unfolding copy_without_trailing_newline
copy-line s =
    let n : length (s ++ (b'\n' ∷ [])) ≡ suc (length s) = length-append s _ ∙ omega arith in
    let last : suc (length s) - 1 ≡ length s = omega arith in
    rw (n, last, last_byte s b'\n', lt→ltb 0 (suc (length s)) (omega arith))
      (take-append (length s) s (b'\n' ∷ []) refl)

next_word-name : (e : Edit) → next_word (command_line e) ≡ (some (command_name e), command_args e)
unfolding next_word strtok
next_word-name (insert pos content) = refl
next_word-name (delete pos len) = refl
next_word-name _ = refl

pub writes-name :
    (e : Edit) → (is_write_command (command_name e) && not (is_writer role_write)) ≡ false
writes-name e = ground arith

pub IsCurrent-is_live :
    (doc version : ℕ) (h : Heap) → IsCurrent doc version h → is_live doc h ≡ true
unfolding check_version
IsCurrent-is_live doc version h current = ground arith

-- A writer's line for an edit whose values can be sent, of printable bytes and with its newline
-- no longer than 256 bytes, on a document that is there, makes exactly the call of that edit.
pub execute-line :
    (doc version : ℕ) (e : Edit) (h : Heap)
    → is_live doc h ≡ true
    → Sendable e
    → are_printable (command_line e) ≡ true
    → length (command_line e) < max_command_len
    → command_execute doc version role_write (some (command_line e ++ (b'\n' ∷ []))) h
      ≡ (map_markdown_result (markdown_edit doc version e h).0, (markdown_edit doc version e h).1)
unfolding command_execute
execute-line doc version e h live sendable printable short =
    rw
      (
        live,
        validate-line (command_line e) printable short,
        copy-line (command_line e),
        next_word-name e,
      )
      (unfold run_words in rw (writes-name e, parse_edit-args e sendable) (unfold run_edit in refl))
