-- ===== src/Markdown/Document.antt =====
-- include/document.h and the pending operations of src/markdown.c: the documents on the heap, and
-- the global list `op_lists`, which is keyed by the address of a document.
pub mod Pending
use collab_markdown_server.Base.{
  ℕ, ◌≡◌, Bool, Option, none, some, List, [], ◌∷◌, ◌++◌, ◌==◌, if◌then◌else◌, Text,
}

-- `data` may be NULL. `prev` and `next` are the places in a list.
pub record Chunk : Type 0 where
  pub text : Option Text
  pub length : ℕ

-- The lists from `committed_head` and from `head`; a tail pointer is the end of its list.
pub record Document : Type 0 where
  pub committed : List Chunk
  pub committed_chunks : ℕ
  pub chunks : List Chunk
  pub n_chunks : ℕ
  pub current_version : ℕ

-- `OP_INSERT` with `pos` and `data`, `OP_DELETE` with `pos` and `len`
pub data Op : Type 0 where
  op_insert : ℕ → Text → Op
  op_delete : ℕ → ℕ → Op

pub record OpList : Type 0 where
  pub doc : ℕ
  pub ops : List Op

-- Documents by address. There is none at NULL, nor where one was freed.
pub record Heap : Type 0 where
  pub documents : ℕ → Option Document
  pub op_lists : List OpList

-- `calloc` and the writes of `markdown_init` at an address
abbrev pub store : ℕ → Option Document → Heap → Heap
store doc d h = record h { documents = λ a. if a == doc then d else h.documents a }

unfoldable pub find_ops : ℕ → List OpList → Option OpList
find_ops doc [] = none
find_ops doc (p ∷ rest) = if p.doc == doc then some p else find_ops doc rest

-- The node is put in front where there was none.
unfoldable pub get_or_create_ops : ℕ → List OpList → List OpList
unfolding find_ops
get_or_create_ops doc lists = elim (find_ops doc lists) [
  | some existing ↦ lists
  | none ↦ record { doc = doc; ops = [] } ∷ lists
]

-- A write through the pointer that `find_ops` returns.
unfoldable pub update_ops : ℕ → (List Op → List Op) → List OpList → List OpList
update_ops doc f [] = []
update_ops doc f (p ∷ rest) =
    if p.doc == doc then record p { ops = f p.ops } ∷ rest else p ∷ update_ops doc f rest

unfoldable pub clear_ops : ℕ → List OpList → List OpList
unfolding update_ops
clear_ops doc lists = update_ops doc (λ ops. []) lists

-- The first node of the document is unlinked.
unfoldable pub free_ops : ℕ → List OpList → List OpList
free_ops doc [] = []
free_ops doc (p ∷ rest) = if p.doc == doc then rest else p ∷ free_ops doc rest

unfoldable pub enqueue_op : ℕ → Op → Heap → Heap
unfolding get_or_create_ops update_ops
enqueue_op doc op h = record h {
  op_lists = update_ops doc (λ ops. ops ++ (op ∷ [])) (get_or_create_ops doc h.op_lists);
}

-- The operations that a document has pending.
abbrev pub pending : ℕ → List OpList → List Op
pending doc lists = elim (find_ops doc lists) [ none ↦ [] | some lst ↦ lst.ops ]
