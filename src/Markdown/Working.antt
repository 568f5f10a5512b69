-- ===== src/Markdown/Working.antt =====
-- Text materialisation of src/markdown.c: the committed text, and the working text, which the
-- pending operations make of it.
pub mod Laws
use collab_markdown_server.Base.{
  ℕ, ◌+◌, ◌-◌, Option, none, some, List, [], ◌∷◌, ◌++◌, ltb, if◌then◌else◌, length, take, drop,
  Text, add64,
}
use collab_markdown_server.Markdown.Document.{
  Chunk, Document, Op, op_insert, op_delete, OpList, Heap, find_ops,
}

-- `md_strdup` of `data`, and of "" where there is none.
unfoldable pub get_committed_text : Option Document → Text
get_committed_text none = []
get_committed_text (some d) = elim d.committed [
  | [] ↦ []
  | head ∷ rest ↦ elim head.text [ none ↦ [] | some text ↦ text ]
]

-- `pos + len` is of type `size_t`. Where the sum wraps around, the code copies from
-- `text + pos + len`, which lies before `text + pos`.
unfoldable pub apply_single_op : Text → Op → Text
apply_single_op text (op_insert op_pos inserted) =
    let old_len = length text in
    let pos = if ltb old_len op_pos then old_len else op_pos in
    take pos text ++ (inserted ++ drop pos text)
apply_single_op text (op_delete op_pos op_len) =
    let old_len = length text in
    let pos = if ltb old_len op_pos then old_len else op_pos in
    let len = if ltb old_len (add64 pos op_len) then old_len - pos else op_len in
    take pos text ++ drop (add64 pos len) text

unfoldable pub apply_ops : Text → List Op → Text
apply_ops text [] = text
apply_ops text (op ∷ ops) = apply_ops (apply_single_op text op) ops

unfoldable pub get_working_text : ℕ → Heap → Text
unfolding find_ops apply_ops apply_single_op
get_working_text doc h =
    let text = get_committed_text (h.documents doc) in
    elim (find_ops doc h.op_lists) [ none ↦ text | some lst ↦ apply_ops text lst.ops ]
