-- ===== src/Tests/Edits.antt =====
-- Examples for the edit commands.
use collab_markdown_server.Base.{
  ◌-◌, ◌≤◌, ◌≡◌, refl, List, ◌++◌, take, drop, length, Text, codes, arith, add64, word_mod,
}
use collab_markdown_server.Markdown.Document.{Op, pending}
use collab_markdown_server.Markdown.Working.{get_committed_text, get_working_text}
use collab_markdown_server.Markdown.Monad.{fail, deleted_position}
use collab_markdown_server.Markdown.Stage.{
  check_version, transform_range, transform_position_after_pending_ops,
}
use collab_markdown_server.Markdown.Edit.{markdown_delete, markdown_bold, bold, link, markdown_edit}
use collab_markdown_server.Markdown.Edit.Splice.{Writes, delete-wraps}
use collab_markdown_server.Markdown.Edit.Ranges.{RangeResult, is_link, range-writes}
use collab_markdown_server.Markdown.Edit.Staged.{edit-stages_only}
use collab_markdown_server.Markdown.Edit.Atomic.{edit_atomic}
use collab_markdown_server.Tests.Sample.{heap, current, fits, room, cut_heap, cut-Fits}

abbrev working : Text
working = get_working_text 1 heap

four_within : 4 ≤ length working
unfolding get_working_text get_committed_text
four_within = omega arith

delete-wraps_example :
    Writes 1 (markdown_delete 1 3 4 (word_mod - 2) heap) (take 4 working ++ drop (4 - 2) working)
delete-wraps_example =
    delete-wraps 1 3 4 2 heap current (omega arith) (omega arith) four_within (omega (arith, room))

range-writes_example :
    RangeResult 1 heap 3 5
      (codes "[")
      (codes "](" ++ (codes "u" ++ codes ")"))
      (markdown_edit 1 3 (link 3 5 (codes "u")) heap)
range-writes_example = range-writes 1 3 heap (is_link 3 5 (codes "u")) current fits

edit-stages_only_example :
    ((markdown_edit 1 3 (bold 0 2) heap).1.documents ≡ heap.documents)
    × (pending 2 (markdown_edit 1 3 (bold 0 2) heap).1.op_lists ≡ pending 2 heap.op_lists)
    × ((added : List Op) × (pending 1 (markdown_edit 1 3 (bold 0 2) heap).1.op_lists
          ≡ pending 1 heap.op_lists ++ added))
edit-stages_only_example = edit-stages_only 1 3 (bold 0 2) heap 2 (λ e. omega (arith, e))

-- The second byte of the range was deleted.
bold-fails : (markdown_edit 1 3 (bold 0 2) cut_heap).0 ≡ fail deleted_position
unfolding markdown_edit markdown_bold transform_range check_version get_committed_text
    transform_position_after_pending_ops add64
bold-fails = refl

edit_atomic_example : (markdown_edit 1 3 (bold 0 2) cut_heap).1 ≡ cut_heap
edit_atomic_example = edit_atomic 1 3 (bold 0 2) cut_heap deleted_position cut-Fits bold-fails
