-- ===== src/Markdown/Edit/Staged.antt =====
-- Every edit command only stages operations for its own document.
use mathlib.Core.Path.{subst}
use collab_markdown_server.Base.{
  ℕ, ◌≡◌, ◌≢◌, refl, sym, ◌∙◌, Bool, true, false, Option, some, List, [], ◌∷◌, ◌++◌, Text,
  if◌then◌else◌, arith, append_assoc, append-nil,
}
use collab_markdown_server.Markdown.Document.{Op, Heap, enqueue_op, pending}
use collab_markdown_server.Markdown.Document.Pending.{
  pending-enqueue_op_self, pending-enqueue_op_ne, IsUnique, enqueue_op-IsUnique,
}
use collab_markdown_server.Markdown.Working.Laws.{documents-enqueue_op}
use collab_markdown_server.Markdown.Monad.{Status, Outcome, ok, fail, M, pure, lift, guard, ◌>>=◌}
use collab_markdown_server.Markdown.Stage.{
  validate_version_and_get_len, enqueue_insert, enqueue_delete, transform_range,
  transform_position_after_pending_ops,
}
use collab_markdown_server.Markdown.Edit.{
  markdown_insert, markdown_delete, ensure_block_prefix_position, markdown_newline,
  markdown_heading, markdown_bold, markdown_italic, markdown_blockquote, markdown_ordered_list,
  markdown_unordered_list, markdown_code, markdown_horizontal_rule, markdown_link, Edit, insert,
  delete, ordered_list, markdown_edit,
}

-- `Staged doc h k`: operations were staged for `doc`, from `h` to `k`.
pub data Staged (doc : ℕ) (h : Heap) : Heap → Type 0 where
  none_staged : Staged doc h h
  one_more : {k : Heap} (op : Op) → Staged doc h k → Staged doc h (enqueue_op doc op k)

Staged-trans : {doc : ℕ} {h k l : Heap} → Staged doc h k → Staged doc k l → Staged doc h l
Staged-trans s none_staged = s
Staged-trans s (one_more op t) = one_more op (Staged-trans s t)

record Stages {A : Type 0} (doc : ℕ) (m : M A) : Type 0 where
  at : (h : Heap) → Staged doc h (m h).1

module _ {A : Type 0} (doc : ℕ) where
  Stages-pure : (a : A) → Stages doc (pure a)
  Stages-pure a = record { at = λ h. none_staged }

  Stages-lift : (r : Outcome A) → Stages doc (lift r)
  Stages-lift r = record { at = λ h. none_staged }

  Stages-if : (b : Bool) (m n : M A) → Stages doc m → Stages doc n → Stages doc (if b then m else n)
  Stages-if true m n p q = p
  Stages-if false m n p q = q

Stages-guard : (doc : ℕ) (b : Bool) (s : Status) → Stages doc (guard b s)
Stages-guard doc true s = record { at = λ h. none_staged }
Stages-guard doc false s = record { at = λ h. none_staged }

Staged-continue :
    {A B : Type 0} (doc : ℕ) (r : Outcome A) (f : A → M B) (h k : Heap)
    → Staged doc h k
    → ((a : A) → Stages doc (f a))
    → Staged doc h (((λ (g : Heap). (r, k)) >>= f) h).1
Staged-continue doc (ok a) f h k s q = Staged-trans s ((q a).at k)
Staged-continue doc (fail e) f h k s q = s

Stages-bind :
    {A B : Type 0} (doc : ℕ) (m : M A) (f : A → M B)
    → Stages doc m
    → ((a : A) → Stages doc (f a))
    → Stages doc (m >>= f)
Stages-bind doc m f p q = record { at = λ h. Staged-continue doc (m h).0 f h (m h).1 (p.at h) q }

Stages-still : {A : Type 0} (doc : ℕ) (m : M A) → ((h : Heap) → (m h).1 ≡ h) → Stages doc m
Stages-still doc m same = record { at = λ h. subst (Staged doc h) (sym (same h)) none_staged }

Stages-transform : (doc pos : ℕ) → Stages doc (transform_position_after_pending_ops doc pos)
unfolding transform_position_after_pending_ops
Stages-transform doc pos = Stages-still doc _ λ h. ground arith

Stages-validate : (doc version : ℕ) → Stages doc (validate_version_and_get_len doc version)
unfolding validate_version_and_get_len
Stages-validate doc version = Stages-still doc _ λ h. ground arith

transform_range-still :
    (doc version start end : ℕ) (h : Heap) → (transform_range doc version start end h).1 ≡ h
unfolding transform_range transform_position_after_pending_ops
transform_range-still doc version start end h = ground arith

Stages-transform_range :
    (doc version start end : ℕ) → Stages doc (transform_range doc version start end)
Stages-transform_range doc version start end =
    Stages-still doc _ (transform_range-still doc version start end)

Stages-enqueue_insert :
    (doc pos : ℕ) (content : Option Text) → Stages doc (enqueue_insert doc pos content)
unfolding enqueue_insert
Stages-enqueue_insert doc pos content = record { at = λ h. one_more _ none_staged }

Stages-enqueue_delete : (doc pos len : ℕ) → Stages doc (enqueue_delete doc pos len)
unfolding enqueue_delete
Stages-enqueue_delete doc pos len = record { at = λ h. one_more _ none_staged }

ruleset staging = (
  Stages-pure, Stages-lift, Stages-if, Stages-guard, Stages-bind, Stages-validate,
  Stages-transform_range, Stages-enqueue_insert, Stages-enqueue_delete,
)

module _ (doc version : ℕ) where
  Stages-insert :
      (pos : ℕ) (content : Option Text) → Stages doc (markdown_insert doc version pos content)
  unfolding markdown_insert
  Stages-insert pos content = search staging

  Stages-delete : (pos len : ℕ) → Stages doc (markdown_delete doc version pos len)
  unfolding markdown_delete
  Stages-delete pos len = search staging

  Stages-block : (pos : ℕ) → Stages doc (ensure_block_prefix_position doc version pos)
  unfolding ensure_block_prefix_position
  Stages-block pos = search (staging, Stages-insert) depth 7

ruleset staging_calls = (staging, Stages-insert, Stages-delete, Stages-block)

Stages-edit : (doc version : ℕ) (e : Edit) → Stages doc (markdown_edit doc version e)
unfolding markdown_edit markdown_newline markdown_heading markdown_bold markdown_italic
    markdown_blockquote markdown_ordered_list markdown_unordered_list markdown_code
    markdown_horizontal_rule markdown_link
Stages-edit doc version (insert pos content) = Stages-insert doc version pos (some content)
Stages-edit doc version (delete pos len) = Stages-delete doc version pos len
Stages-edit doc version (ordered_list pos) = search staging_calls depth 8
Stages-edit doc version _ = search staging_calls depth 7

-- What staging leaves alone, and what it adds.
Staged-documents : {doc : ℕ} {h k : Heap} → Staged doc h k → k.documents ≡ h.documents
Staged-documents none_staged = refl
Staged-documents (one_more {k} op s) = documents-enqueue_op _ op k ∙ Staged-documents s

Staged-pending_ne :
    {doc : ℕ} {h k : Heap} (other : ℕ)
    → other ≢ doc
    → Staged doc h k
    → pending other k.op_lists ≡ pending other h.op_lists
Staged-pending_ne other ne none_staged = refl
Staged-pending_ne other ne (one_more {k} op s) =
    pending-enqueue_op_ne _ other op k ne ∙ Staged-pending_ne other ne s

Staged-pending_self :
    {doc : ℕ} {h k : Heap}
    → Staged doc h k
    → (added : List Op) × (pending doc k.op_lists ≡ pending doc h.op_lists ++ added)
Staged-pending_self {doc} {h} none_staged = ([], sym (append-nil _))
Staged-pending_self (one_more {k} op s) =
    let (added, e) = Staged-pending_self s in
    (added ++ (op ∷ []), pending-enqueue_op_self _ op k ∙ rw (e, append_assoc))

Staged-IsUnique :
    {doc : ℕ} {h k : Heap} → Staged doc h k → IsUnique h.op_lists → IsUnique k.op_lists
Staged-IsUnique none_staged u = u
Staged-IsUnique (one_more {k} op s) u = enqueue_op-IsUnique _ op k (Staged-IsUnique s u)

pub edit-IsUnique :
    (doc version : ℕ) (e : Edit) (h : Heap)
    → IsUnique h.op_lists
    → IsUnique (markdown_edit doc version e h).1.op_lists
edit-IsUnique doc version e h = Staged-IsUnique ((Stages-edit doc version e).at h)

pub documents-edit :
    (doc version : ℕ) (e : Edit) (h : Heap)
    → (markdown_edit doc version e h).1.documents ≡ h.documents
documents-edit doc version e h = Staged-documents ((Stages-edit doc version e).at h)

-- Whatever an edit command returns, the documents on the heap (their committed text and their
-- version among them) and what any other document has pending are as before, and the document's own
-- pending operations are the old ones with some more behind them.
pub edit-stages_only :
    (doc version : ℕ) (e : Edit) (h : Heap) (other : ℕ)
    → other ≢ doc
    → ((markdown_edit doc version e h).1.documents ≡ h.documents)
      × (pending other (markdown_edit doc version e h).1.op_lists ≡ pending other h.op_lists)
      × ((added : List Op) × (pending doc (markdown_edit doc version e h).1.op_lists
            ≡ pending doc h.op_lists ++ added))
edit-stages_only doc version e h other ne =
    let s = (Stages-edit doc version e).at h in
    (Staged-documents s, Staged-pending_ne other ne s, Staged-pending_self s)
