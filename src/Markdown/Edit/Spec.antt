-- ===== src/Markdown/Edit/Spec.antt =====
-- What the edit commands promise, on a plain text: no document, no version, no pending operations.
pub mod Obeyed
use collab_markdown_server.Base.{
  ℕ, ◌+◌, ◌%◌, Bool, ◌&&◌, Option, none, some, ◌++◌, ltb, leb, if◌then◌else◌, length, replicate,
  take, drop, Text, codes, word_mod,
}
use collab_markdown_server.Markdown.Edit.{
  Edit, insert, delete, newline, blockquote, ordered_list, unordered_list, horizontal_rule, heading,
  bold, italic, code, link,
}
use collab_markdown_server.Markdown.Edit.Blocks.{with_block}
use collab_markdown_server.Markdown.Edit.Breaks.{at_space, without_space}
use collab_markdown_server.Markdown.Edit.Wrapped.{wrapped}

-- The new text if the position lies within the old one.
abbrev pub at_position : ℕ → Text → Text → Option Text
at_position pos text new = if leb pos (length text) then some new else none

-- The two texts around a range that is not empty and lies within the text.
abbrev pub around : ℕ → ℕ → Text → Text → Text → Option Text
around start end before after text =
    if ltb start end && leb end (length text)
    then some (wrapped start end before after text)
    else none

-- The text after an edit, or none where the edit is refused.
unfoldable pub edit_text : Edit → Text → Option Text
edit_text (insert pos content) text =
    at_position pos text (take pos text ++ (content ++ drop pos text))
edit_text (delete pos len) text =
    at_position pos text (take pos text ++ drop ((pos + len) % word_mod) text)
edit_text (newline pos) text =
    at_position pos text
      (take pos text ++ (codes "\n" ++ drop (if at_space pos text then pos + 1 else pos) text))
edit_text (blockquote pos) text = at_position pos text (with_block pos (codes "> ") text)
edit_text (ordered_list pos) text =
    at_position pos text (with_block pos (codes "1. ") (without_space pos text))
edit_text (unordered_list pos) text = at_position pos text (with_block pos (codes "- ") text)
edit_text (horizontal_rule pos) text = at_position pos text (with_block pos (codes "---\n") text)
edit_text (heading level pos) text =
    if leb 1 level && leb level 3
    then at_position pos text (with_block pos (replicate level b'#' ++ codes " ") text)
    else none
edit_text (bold start end) text = around start end (codes "**") (codes "**") text
edit_text (italic start end) text = around start end (codes "*") (codes "*") text
edit_text (code start end) text = around start end (codes "`") (codes "`") text
edit_text (link start end url) text =
    around start end (codes "[") (codes "](" ++ (url ++ codes ")")) text
