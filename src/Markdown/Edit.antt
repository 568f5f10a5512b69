-- ===== src/Markdown/Edit.antt =====
-- The edit and formatting commands of src/markdown.c.
pub mod Runs
pub mod Splice
pub mod Blocks
pub mod Breaks
pub mod Wrapped
pub mod Ranges
pub mod Atomic
pub mod Staged
pub mod Spec
use collab_markdown_server.Base.{
  ℕ, ◌+◌, ◌-◌, Bool, true, false, ◌&&◌, ◌||◌, not, Option, none, some, List, [], ◌∷◌, ◌++◌, ltb,
  leb, ◌==◌, if◌then◌else◌, length, replicate, Text, codes, byte_at, add64,
}
use collab_markdown_server.Markdown.Document.{Heap}
use collab_markdown_server.Markdown.Monad.{
  Outcome, ok, fail, invalid_cursor_pos, M, pure, lift, guard, ◌>>=◌, ◌>>◌,
}
use collab_markdown_server.Markdown.Stage.{
  validate_version_and_get_len, enqueue_insert, enqueue_delete, transform_range,
}

unfoldable pub markdown_insert : ℕ → ℕ → ℕ → Option Text → M (Unit {0})
markdown_insert doc version pos content = do
  working ← validate_version_and_get_len doc version
  guard (leb pos (length working)) invalid_cursor_pos
  enqueue_insert doc pos content

unfoldable pub markdown_delete : ℕ → ℕ → ℕ → ℕ → M (Unit {0})
markdown_delete doc version pos len = do
  working ← validate_version_and_get_len doc version
  let n = length working
  guard (leb pos n) invalid_cursor_pos
  if len == 0
      then pure tt
      else enqueue_delete doc pos (if ltb n (add64 pos len) then n - pos else len)

-- `*pos` comes back.
unfoldable pub ensure_block_prefix_position : ℕ → ℕ → ℕ → M ℕ
ensure_block_prefix_position doc version pos = do
  working ← validate_version_and_get_len doc version
  guard (leb pos (length working)) invalid_cursor_pos
  if ltb 0 pos && not (byte_at working (pos - 1) == b'\n')
      then (do markdown_insert doc version pos (some (codes "\n")); pure (add64 pos 1))
      else pure pos

unfoldable pub markdown_newline : ℕ → ℕ → ℕ → M (Unit {0})
markdown_newline doc version pos = do
  working ← validate_version_and_get_len doc version
  guard (leb pos (length working)) invalid_cursor_pos
  if ltb pos (length working) && byte_at working pos == b' '
      then (do
        markdown_delete doc version pos 1
        markdown_insert doc version pos (some (codes "\n")))
      else markdown_insert doc version pos (some (codes "\n"))

unfoldable pub markdown_heading : ℕ → ℕ → ℕ → ℕ → M (Unit {0})
markdown_heading doc version level pos = do
  guard (leb 1 level && leb level 3) invalid_cursor_pos
  block_pos ← ensure_block_prefix_position doc version pos
  markdown_insert doc version block_pos (some (replicate level b'#' ++ codes " "))

unfoldable pub markdown_bold : ℕ → ℕ → ℕ → ℕ → M (Unit {0})
markdown_bold doc version start end = do
  (adjusted_start, adjusted_end) ← transform_range doc version start end
  markdown_insert doc version adjusted_end (some (codes "**"))
  markdown_insert doc version adjusted_start (some (codes "**"))

unfoldable pub markdown_italic : ℕ → ℕ → ℕ → ℕ → M (Unit {0})
markdown_italic doc version start end = do
  (adjusted_start, adjusted_end) ← transform_range doc version start end
  markdown_insert doc version adjusted_end (some (codes "*"))
  markdown_insert doc version adjusted_start (some (codes "*"))

unfoldable pub markdown_blockquote : ℕ → ℕ → ℕ → M (Unit {0})
markdown_blockquote doc version pos = do
  block_pos ← ensure_block_prefix_position doc version pos
  markdown_insert doc version block_pos (some (codes "> "))

unfoldable pub markdown_ordered_list : ℕ → ℕ → ℕ → M (Unit {0})
markdown_ordered_list doc version pos = do
  working ← validate_version_and_get_len doc version
  guard (leb pos (length working)) invalid_cursor_pos
  if ltb pos (length working) && byte_at working pos == b' '
      then markdown_delete doc version pos 1
      else pure tt
  block_pos ← ensure_block_prefix_position doc version pos
  markdown_insert doc version block_pos (some (codes "1. "))

unfoldable pub markdown_unordered_list : ℕ → ℕ → ℕ → M (Unit {0})
markdown_unordered_list doc version pos = do
  block_pos ← ensure_block_prefix_position doc version pos
  markdown_insert doc version block_pos (some (codes "- "))

unfoldable pub markdown_code : ℕ → ℕ → ℕ → ℕ → M (Unit {0})
markdown_code doc version start end = do
  (adjusted_start, adjusted_end) ← transform_range doc version start end
  markdown_insert doc version adjusted_end (some (codes "`"))
  markdown_insert doc version adjusted_start (some (codes "`"))

unfoldable pub markdown_horizontal_rule : ℕ → ℕ → ℕ → M (Unit {0})
markdown_horizontal_rule doc version pos = do
  block_pos ← ensure_block_prefix_position doc version pos
  markdown_insert doc version block_pos (some (codes "---\n"))

unfoldable pub markdown_link : ℕ → ℕ → ℕ → ℕ → Option Text → M (Unit {0})
markdown_link doc version start end none = lift (fail invalid_cursor_pos)
markdown_link doc version start end (some url) = do
  (adjusted_start, adjusted_end) ← transform_range doc version start end
  markdown_insert doc version adjusted_end (some (codes "](" ++ (url ++ codes ")")))
  markdown_insert doc version adjusted_start (some (codes "["))

-- The calls that a command line can ask for, with the values that it gives.
pub data Edit : Type 0 where
  insert : ℕ → Text → Edit
  delete : ℕ → ℕ → Edit
  newline blockquote ordered_list unordered_list horizontal_rule : ℕ → Edit
  heading : ℕ → ℕ → Edit
  bold italic code : ℕ → ℕ → Edit
  link : ℕ → ℕ → Text → Edit

unfoldable pub markdown_edit : ℕ → ℕ → Edit → M (Unit {0})
markdown_edit doc version (insert pos content) = markdown_insert doc version pos (some content)
markdown_edit doc version (delete pos len) = markdown_delete doc version pos len
markdown_edit doc version (newline pos) = markdown_newline doc version pos
markdown_edit doc version (blockquote pos) = markdown_blockquote doc version pos
markdown_edit doc version (ordered_list pos) = markdown_ordered_list doc version pos
markdown_edit doc version (unordered_list pos) = markdown_unordered_list doc version pos
markdown_edit doc version (horizontal_rule pos) = markdown_horizontal_rule doc version pos
markdown_edit doc version (heading level pos) = markdown_heading doc version level pos
markdown_edit doc version (bold start end) = markdown_bold doc version start end
markdown_edit doc version (italic start end) = markdown_italic doc version start end
markdown_edit doc version (code start end) = markdown_code doc version start end
markdown_edit doc version (link start end url) = markdown_link doc version start end (some url)
