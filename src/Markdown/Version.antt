-- ===== src/Markdown/Version.antt =====
-- Init, free, flatten and the commit of src/markdown.c.
pub mod Laws
use collab_markdown_server.Base.{ℕ, Option, none, some, List, [], ◌∷◌, length, Text, add64}
use collab_markdown_server.Markdown.Document.{
  Chunk, Document, Heap, store, find_ops, clear_ops, free_ops,
}
use collab_markdown_server.Markdown.Working.{get_committed_text, get_working_text}
use collab_markdown_server.Markdown.Renumber.{renumber_ordered_lists}

abbrev chunk_of : Text → Chunk
chunk_of text = record { text = some text; length = length text }

abbrev pub empty_document : Document
empty_document = record {
  committed = chunk_of [] ∷ [];
  committed_chunks = 1;
  chunks = [];
  n_chunks = 0;
  current_version = 0;
}

-- `doc` is the address that `calloc` returns.
unfoldable pub markdown_init : ℕ → Heap → Heap
markdown_init doc h = store doc (some empty_document) h

unfoldable pub markdown_free : ℕ → Heap → Heap
markdown_free doc h = elim (h.documents doc) [
  | none ↦ h
  | some d ↦ record (store doc none h) { op_lists = free_ops doc h.op_lists }
]

-- NULL for no document
unfoldable pub markdown_flatten : ℕ → Heap → Option Text
markdown_flatten doc h = elim (h.documents doc) [
  | none ↦ none
  | some d ↦ some (get_committed_text (some d))
]

-- What `markdown_print` hands to `fputs`, where it does.
unfoldable markdown_print : ℕ → Heap → Option Text
unfolding markdown_flatten
markdown_print doc h = markdown_flatten doc h

-- The text goes to the first chunk; one is made where there is none.
unfoldable pub commit_text : Text → Document → Document
commit_text text d = elim d.committed [
  | [] ↦ record d { committed = chunk_of text ∷ []; committed_chunks = 1 }
  | head ∷ rest ↦ record d { committed = chunk_of text ∷ rest }
]

unfoldable pub markdown_increment_version : ℕ → Heap → Heap
markdown_increment_version doc h = elim (h.documents doc) [
  | none ↦ h
  | some d ↦
      let renumbered = renumber_ordered_lists (get_working_text doc h) in
      let d' = commit_text renumbered d in
      record (store doc (some (record d' { current_version = add64 d.current_version 1 })) h) {
        op_lists = clear_ops doc h.op_lists;
      }
]
