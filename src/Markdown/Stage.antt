-- ===== src/Markdown/Stage.antt =====
-- The common validation helpers of src/markdown.c, and the staging of an operation.
pub mod Fits
pub mod Cut
pub mod Monotone
use collab_markdown_server.Base.{
  ℕ, ◌≡◌, ◌+◌, ◌-◌, Bool, true, false, ◌&&◌, Option, none, some, List, [], ◌∷◌, ltb, leb, ◌==◌,
  if◌then◌else◌, length, Text, add64, sub64,
}
use collab_markdown_server.Markdown.Document.{
  Document, Op, op_insert, op_delete, OpList, Heap, find_ops, enqueue_op,
}
use collab_markdown_server.Markdown.Working.{get_committed_text, get_working_text}
use collab_markdown_server.Markdown.Monad.{
  Outcome, ok, fail, invalid_cursor_pos, deleted_position, outdated_version, M, pure, lift, guard,
  ◌>>=◌, ◌>>◌,
}

-- `!doc`, and the version test
unfoldable pub check_version : Option Document → ℕ → Outcome (Unit {0})
check_version none version = fail invalid_cursor_pos
check_version (some d) version =
    if version == d.current_version then ok tt else fail outdated_version

-- The document is there and the version is its own.
abbrev pub IsCurrent : ℕ → ℕ → Heap → Type 0
IsCurrent doc version h = check_version (h.documents doc) version ≡ ok tt

-- The working text comes back; `*len_out` is its length.
unfoldable pub validate_version_and_get_len : ℕ → ℕ → M Text
validate_version_and_get_len doc version h =
    (lift (check_version (h.documents doc) version) >>= λ _. pure (get_working_text doc h)) h

-- One round of the loop of `transform_position_after_pending_ops`.
unfoldable pub transform_position : ℕ → Op → Outcome ℕ
transform_position adjusted (op_insert pos inserted) =
    ok (if ltb pos adjusted then add64 adjusted (length inserted) else adjusted)
transform_position adjusted (op_delete del_start len) =
    let del_end = add64 del_start len in
    if ltb del_start adjusted && ltb adjusted del_end
    then fail deleted_position
    else if ltb del_start adjusted
    then ok (sub64 adjusted (if leb del_end adjusted then len else adjusted - del_start))
    else ok adjusted

unfoldable pub transform_positions : ℕ → List Op → Outcome ℕ
transform_positions adjusted [] = ok adjusted
transform_positions adjusted (op ∷ ops) = elim (transform_position adjusted op) [
  | ok next ↦ transform_positions next ops
  | fail s ↦ fail s
]

unfoldable pub transform_position_after_pending_ops : ℕ → ℕ → M ℕ
unfolding find_ops transform_positions transform_position
transform_position_after_pending_ops doc original_pos h = elim (h.documents doc) [
  | none ↦ (fail invalid_cursor_pos, h)
  | some d ↦ elim (find_ops doc h.op_lists) [
    | none ↦ (ok original_pos, h)
    | some lst ↦ (transform_positions original_pos lst.ops, h)
  ]
]

abbrev pub text_or_empty : Option Text → Text
text_or_empty none = []
text_or_empty (some content) = content

unfoldable pub enqueue_insert : ℕ → ℕ → Option Text → M (Unit {0})
unfolding enqueue_op
enqueue_insert doc pos content h = (ok tt, enqueue_op doc (op_insert pos (text_or_empty content)) h)

unfoldable pub enqueue_delete : ℕ → ℕ → ℕ → M (Unit {0})
unfolding enqueue_op
enqueue_delete doc pos len h = (ok tt, enqueue_op doc (op_delete pos len) h)

-- What BOLD, ITALIC, CODE and LINK begin with: the range must lie in the committed text, and its
-- ends are moved to where the pending operations have put them.
unfoldable pub transform_range : ℕ → ℕ → ℕ → ℕ → M (ℕ × ℕ)
transform_range doc version start end h =
    (do
      lift (check_version (h.documents doc) version)
      guard (ltb start end && leb end (length (get_committed_text (h.documents doc))))
          invalid_cursor_pos
      adjusted_start ← transform_position_after_pending_ops doc start
      adjusted_end ← transform_position_after_pending_ops doc end
      pure (adjusted_start, adjusted_end))
      h
