-- ===== src/Tests/Document.antt =====
-- Examples for the document: the pending operations, the renumbering and the versions.
use collab_markdown_server.Base.{◌≡◌, refl, List, [], ◌∷◌, ◌++◌, length, Text, codes, arith, add64}
use collab_markdown_server.Markdown.Renumber.{renumber_ordered_lists}
use collab_markdown_server.Markdown.Renumber.Lines.{split_lines, join_lines, number_items}
use collab_markdown_server.Markdown.Renumber.Laws.{renumber-eq-lines}
use collab_markdown_server.Markdown.Document.{Op, op_insert, op_delete}
use collab_markdown_server.Markdown.Working.{apply_single_op, apply_ops, get_working_text}
use collab_markdown_server.Markdown.Stage.{transform_positions}
use collab_markdown_server.Markdown.Stage.Fits.{Fits}
use collab_markdown_server.Markdown.Stage.Cut.{cut_ops, Agrees, transform-cut}
use collab_markdown_server.Markdown.Version.{
  markdown_increment_version, markdown_init, markdown_free,
}
use collab_markdown_server.Markdown.Version.Laws.{
  Committed, increment-Committed, IsFresh, init-free-IsFresh,
}
use collab_markdown_server.Tests.Sample.{document, heap, unique}

abbrev lists : Text
lists = codes "4. a\n4. b\n\n7. c"

renumbers : renumber_ordered_lists lists ≡ codes "1. a\n2. b\n\n1. c"
unfolding renumber_ordered_lists
renumbers = refl

numbers_to_nine :
    renumber_ordered_lists (codes "1. \n1. \n1. \n1. \n1. \n1. \n1. \n1. \n1. \n1. x")
    ≡ codes "1. \n2. \n3. \n4. \n5. \n6. \n7. \n8. \n9. \n9. x"
unfolding renumber_ordered_lists
numbers_to_nine = refl

renumber-eq-lines_example :
    renumber_ordered_lists lists ≡ join_lines (number_items 0 (split_lines lists))
renumber-eq-lines_example = renumber-eq-lines lists

abbrev ops : List Op
ops = op_insert 0 (codes "x") ∷ op_delete 3 1 ∷ []

ops-fit : Fits (codes "ab" ++ codes " cd") ops
unfolding apply_single_op add64
ops-fit = (omega arith, omega arith, (omega arith, omega arith, omega arith))

transform-cut_example :
    Agrees
      (cut_ops (codes "ab") (codes " cd") ops)
      (transform_positions (length (codes "ab")) ops)
      (apply_ops (codes "ab" ++ codes " cd") ops)
transform-cut_example = transform-cut (codes "ab") (codes " cd") ops ops-fit

increment-Committed_example :
    Committed 1 document
      (renumber_ordered_lists (get_working_text 1 heap))
      heap
      (markdown_increment_version 1 heap)
increment-Committed_example = increment-Committed 1 heap document refl

init-free-IsFresh_example : IsFresh 1 (markdown_init 1 (markdown_free 1 heap))
init-free-IsFresh_example = init-free-IsFresh 1 heap document refl unique
