-- ===== src/Markdown/Version/Laws.antt =====
-- What a commit makes visible, and what becomes of an address that is freed and used again.
use collab_markdown_server.Base.{
  ℕ, ◌+◌, ◌%◌, ◌≡◌, ◌≢◌, refl, ap, ◌∙◌, inl, inr, Option-cases, Option, some, [], arith, Text,
  add64, word_mod,
}
use collab_markdown_server.Markdown.Renumber.{renumber_ordered_lists}
use collab_markdown_server.Markdown.Document.{Document, Heap, store, clear_ops, pending}
use collab_markdown_server.Markdown.Document.Pending.{
  pending-clear_ops_self, pending-clear_ops_ne, IsUnique, find_ops-free_ops_self,
  clear_ops-IsUnique, free_ops-IsUnique,
}
use collab_markdown_server.Markdown.Working.{get_committed_text, get_working_text, apply_ops}
use collab_markdown_server.Markdown.Working.Laws.{working-pending}
use collab_markdown_server.Markdown.Edit.{Edit, markdown_edit}
use collab_markdown_server.Markdown.Edit.Staged.{edit-IsUnique}
use collab_markdown_server.Markdown.Version.{
  empty_document, markdown_init, markdown_free, markdown_flatten, commit_text,
  markdown_increment_version,
}

store_self : (doc : ℕ) (d : Option Document) (h : Heap) → (store doc d h).documents doc ≡ d
store_self doc d h = ground arith

store-ne :
    (doc other : ℕ) (d : Option Document) (h : Heap)
    → other ≢ doc
    → (store doc d h).documents other ≡ h.documents other
store-ne doc other d h ne = ground arith

committed-commit_text :
    (text : Text) (d : Document) (v : ℕ)
    → get_committed_text (some (record (commit_text text d) { current_version = v })) ≡ text
unfolding get_committed_text commit_text
committed-commit_text text d v = ground arith

pub flatten-live :
    (doc : ℕ) (k : Heap) (d : Document)
    → k.documents doc ≡ some d
    → markdown_flatten doc k ≡ some (get_committed_text (some d))
unfolding markdown_flatten
flatten-live doc k d live = rw (live, markdown_flatten)

pub working-empty :
    (doc : ℕ) (k : Heap) (d : Document)
    → k.documents doc ≡ some d
    → pending doc k.op_lists ≡ []
    → get_working_text doc k ≡ get_committed_text (some d)
unfolding apply_ops
working-empty doc k d live clear =
    working-pending doc k ∙ ap (apply_ops _) clear ∙ ap get_committed_text live

-- What a commit leaves: the document's new version and text, no pending operations, and the rest of
-- the heap as it was.
pub record Committed (doc : ℕ) (d : Document) (text : Text) (h k : Heap) : Type 0 where
  pub document : Document
  pub live : k.documents doc ≡ some document
  pub version : document.current_version ≡ (d.current_version + 1) % word_mod
  pub visible : markdown_flatten doc k ≡ some text
  pub working : get_working_text doc k ≡ text
  pub nothing_pending : pending doc k.op_lists ≡ []
  pub other_documents : (other : ℕ) → other ≢ doc → k.documents other ≡ h.documents other
  pub other_pending :
      (other : ℕ) → other ≢ doc → pending other k.op_lists ≡ pending other h.op_lists

module _ (doc : ℕ) (h : Heap) (d : Document) (live : h.documents doc ≡ some d) where
  abbrev new_text : Text
  new_text = renumber_ordered_lists (get_working_text doc h)

  abbrev new_document : Document
  new_document = record (commit_text new_text d) { current_version = add64 d.current_version 1 }

  abbrev new_heap : Heap
  new_heap = record (store doc (some new_document) h) { op_lists = clear_ops doc h.op_lists }

  increment-runs : markdown_increment_version doc h ≡ new_heap
  unfolding markdown_increment_version
  increment-runs = rw (live, markdown_increment_version)

  new_heap-visible : markdown_flatten doc new_heap ≡ some new_text
  new_heap-visible =
      flatten-live doc new_heap new_document (store_self doc (some new_document) h)
      ∙ ap some (committed-commit_text new_text d _)

  new_heap-working : get_working_text doc new_heap ≡ new_text
  new_heap-working =
      working-empty doc new_heap new_document (store_self doc (some new_document) h)
        (pending-clear_ops_self doc h.op_lists)
      ∙ committed-commit_text new_text d _

-- A commit of a document makes its working text, with the ordered lists renumbered, the visible
-- text and the working text; its version goes up by one (modulo 2^64), nothing stays pending, and
-- the other documents and their pending operations are as they were.
pub increment-Committed :
    (doc : ℕ) (h : Heap) (d : Document)
    → h.documents doc ≡ some d
    → Committed doc d
        (renumber_ordered_lists (get_working_text doc h))
        h
        (markdown_increment_version doc h)
increment-Committed doc h d live = rw (increment-runs doc h d live) (record {
  document = new_document doc h d live;
  live = store_self doc _ h;
  version = unfold add64 in refl;
  visible = new_heap-visible doc h d live;
  working = new_heap-working doc h d live;
  nothing_pending = pending-clear_ops_self doc h.op_lists;
  other_documents = λ other ne. store-ne doc other _ h ne;
  other_pending = λ other ne. pending-clear_ops_ne doc other h.op_lists ne;
})

-- The document at an address that was just given to `markdown_init`: empty text, version 0.
pub record IsFresh (doc : ℕ) (k : Heap) : Type 0 where
  pub visible : markdown_flatten doc k ≡ some []
  pub working : get_working_text doc k ≡ []
  pub version : (d : Document) × (k.documents doc ≡ some d) × (d.current_version ≡ 0)
  pub nothing_pending : pending doc k.op_lists ≡ []

pub init-IsFresh :
    (doc : ℕ) (h : Heap) → pending doc h.op_lists ≡ [] → IsFresh doc (markdown_init doc h)
unfolding markdown_init get_committed_text
init-IsFresh doc h clear =
    let live = store_self doc (some empty_document) h in
    let k = store doc (some empty_document) h in
    record {
      visible = flatten-live doc k empty_document live;
      working = working-empty doc k empty_document live clear;
      version = (empty_document, live, refl);
      nothing_pending = clear;
    }

pending-free :
    (doc : ℕ) (h : Heap) (d : Document)
    → h.documents doc ≡ some d
    → IsUnique h.op_lists
    → pending doc (markdown_free doc h).op_lists ≡ []
unfolding markdown_free
pending-free doc h d live unique =
    rw (live, markdown_free) (ground (arith, find_ops-free_ops_self doc h.op_lists unique))

-- A document that is freed with operations still pending leaves none of them behind: the next
-- document at its address is empty.
pub init-free-IsFresh :
    (doc : ℕ) (h : Heap) (d : Document)
    → h.documents doc ≡ some d
    → IsUnique h.op_lists
    → IsFresh doc (markdown_init doc (markdown_free doc h))
init-free-IsFresh doc h d live unique =
    init-IsFresh doc (markdown_free doc h) (pending-free doc h d live unique)

increment-IsUnique :
    (doc : ℕ) (h : Heap)
    → IsUnique h.op_lists
    → IsUnique (markdown_increment_version doc h).op_lists
unfolding markdown_increment_version
increment-IsUnique doc h unique = elim (Option-cases (h.documents doc)) [
  | inl e ↦ rw (e, markdown_increment_version) unique
  | inr (d, e) ↦ rw (e, markdown_increment_version) (clear_ops-IsUnique doc h.op_lists unique)
]

free-IsUnique : (doc : ℕ) (h : Heap) → IsUnique h.op_lists → IsUnique (markdown_free doc h).op_lists
unfolding markdown_free
free-IsUnique doc h unique = elim (Option-cases (h.documents doc)) [
  | inl e ↦ rw (e, markdown_free) unique
  | inr (d, e) ↦ rw (e, markdown_free) (free_ops-IsUnique doc h.op_lists unique)
]

-- Every edit command, a commit, and the freeing and making of a document keep at most one list of
-- pending operations for each document.
op_lists-IsUnique :
    (doc version : ℕ) (e : Edit) (h : Heap)
    → IsUnique h.op_lists
    → IsUnique (markdown_edit doc version e h).1.op_lists
      × IsUnique (markdown_increment_version doc h).op_lists
      × IsUnique (markdown_free doc h).op_lists
      × IsUnique (markdown_init doc h).op_lists
unfolding markdown_init
op_lists-IsUnique doc version e h unique = (
  edit-IsUnique doc version e h unique,
  increment-IsUnique doc h unique,
  free-IsUnique doc h unique,
  unique,
)
