-- ===== src/Tests/Sample.antt =====
-- The heap that the examples stand on: the document at 1 with the text "ab cd", version 3 and an
-- insertion pending.
use collab_markdown_server.Base.{
  ◌+◌, ◌<◌, refl, none, some, [], ◌∷◌, ◌==◌, if◌then◌else◌, length, Text, codes, arith, add64,
  word_mod,
}
use collab_markdown_server.Markdown.Document.{
  Document, op_insert, op_delete, Heap, find_ops, pending,
}
use collab_markdown_server.Markdown.Document.Pending.{IsUnique}
use collab_markdown_server.Markdown.Working.{get_committed_text, apply_single_op, get_working_text}
use collab_markdown_server.Markdown.Stage.{check_version, IsCurrent}
use collab_markdown_server.Markdown.Stage.Fits.{Fits}
use collab_markdown_server.Markdown.Edit.Wrapped.{committed}

abbrev pub text : Text
text = codes "ab cd"

abbrev pub document : Document
document = record {
  committed = record { text = some text; length = 5 } ∷ [];
  committed_chunks = 1;
  chunks = record { text = some text; length = 5 } ∷ [];
  n_chunks = 1;
  current_version = 3;
}

abbrev pub heap : Heap
heap = record {
  documents = λ a. if a == 1 then some document else none;
  op_lists = record { doc = 1; ops = op_insert 0 (codes "x") ∷ [] } ∷ [];
}

pub current : IsCurrent 1 3 heap
unfolding check_version
current = refl

pub fits : Fits (committed 1 heap) (pending 1 heap.op_lists)
unfolding get_committed_text apply_single_op find_ops
fits = (omega arith, omega arith, omega arith)

pub unique : IsUnique heap.op_lists
unfolding find_ops
unique = (refl, tt)

pub room : length (get_working_text 1 heap) + 1 < word_mod
unfolding get_working_text get_committed_text
room = omega arith

-- The same document with the deletion of "b c" pending.
abbrev pub cut_heap : Heap
cut_heap = record heap { op_lists = record { doc = 1; ops = op_delete 1 3 ∷ [] } ∷ [] }

pub cut-Fits : Fits (committed 1 cut_heap) (pending 1 cut_heap.op_lists)
unfolding get_committed_text apply_single_op find_ops add64
cut-Fits = (omega arith, omega arith, omega arith)
