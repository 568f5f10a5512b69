-- ===== src/Markdown/Working/Laws.antt =====
-- The working text follows the operations one by one.
use collab_markdown_server.Base.{
  ℕ, ◌+◌, ◌-◌, ◌≤◌, ◌<◌, ◌≡◌, refl, ◌∙◌, List, [], ◌∷◌, ◌++◌, arith, length, length-append,
  length-take, length-drop, take, drop, Text, add64_small, word_mod, le→ltb,
}
use collab_markdown_server.Markdown.Document.{Op, op_insert, op_delete, Heap, enqueue_op, pending}
use collab_markdown_server.Markdown.Document.Pending.{pending-enqueue_op_self}
use collab_markdown_server.Markdown.Working.{
  get_committed_text, apply_single_op, apply_ops, get_working_text,
}

apply_ops-append :
    (text : Text) (ops : List Op) (op : Op)
    → apply_ops text (ops ++ (op ∷ [])) ≡ apply_single_op (apply_ops text ops) op
unfolding apply_ops
apply_ops-append text [] op = refl
apply_ops-append text (first ∷ ops) op = apply_ops-append (apply_single_op text first) ops op

pub working-pending :
    (doc : ℕ) (h : Heap)
    → get_working_text doc h
      ≡ apply_ops (get_committed_text (h.documents doc)) (pending doc h.op_lists)
unfolding get_working_text
working-pending doc h = ground arith

pub documents-enqueue_op :
    (doc : ℕ) (op : Op) (h : Heap) → (enqueue_op doc op h).documents ≡ h.documents
unfolding enqueue_op
documents-enqueue_op doc op h = refl

pub working-enqueue_op :
    (doc : ℕ) (op : Op) (h : Heap)
    → get_working_text doc (enqueue_op doc op h) ≡ apply_single_op (get_working_text doc h) op
working-enqueue_op doc op h = rw (
  working-pending doc (enqueue_op doc op h),
  pending-enqueue_op_self,
  documents-enqueue_op,
  apply_ops-append,
  working-pending doc h,
)

pub apply-insert :
    (text : Text) (pos : ℕ) (s : Text)
    → pos ≤ length text
    → apply_single_op text (op_insert pos s) ≡ take pos text ++ (s ++ drop pos text)
unfolding apply_single_op
apply-insert text pos s h = rw (le→ltb (length text) pos h)

pub apply-delete :
    (text : Text) (pos len : ℕ)
    → pos + len ≤ length text
    → length text < word_mod
    → apply_single_op text (op_delete pos len) ≡ take pos text ++ drop (pos + len) text
unfolding apply_single_op
apply-delete text pos len h small =
    let start : pos ≤ length text = omega arith in
    rw (
      le→ltb (length text) pos start,
      add64_small pos len (omega arith),
      le→ltb (length text) (pos + len) h,
      add64_small pos len (omega arith),
    )

pub working-enqueue_insert :
    (doc pos : ℕ) (s : Text) (h : Heap)
    → pos ≤ length (get_working_text doc h)
    → get_working_text doc (enqueue_op doc (op_insert pos s) h)
      ≡ take pos (get_working_text doc h) ++ (s ++ drop pos (get_working_text doc h))
working-enqueue_insert doc pos s h fits =
    working-enqueue_op doc (op_insert pos s) h ∙ apply-insert (get_working_text doc h) pos s fits

pub working-enqueue_delete :
    (doc pos len : ℕ) (h : Heap)
    → pos + len ≤ length (get_working_text doc h)
    → length (get_working_text doc h) < word_mod
    → get_working_text doc (enqueue_op doc (op_delete pos len) h)
      ≡ take pos (get_working_text doc h) ++ drop (pos + len) (get_working_text doc h)
working-enqueue_delete doc pos len h fits space =
    working-enqueue_op doc (op_delete pos len) h
    ∙ apply-delete (get_working_text doc h) pos len fits space

-- A splice is as long as its parts.
pub length-splice :
    (pos : ℕ) (s w : Text)
    → pos ≤ length w
    → length (take pos w ++ (s ++ drop pos w)) ≡ length w + length s
length-splice pos s w fits = omega (
  arith,
  length-append (take pos w) (s ++ drop pos w),
  length-append s (drop pos w),
  length-take pos w,
  length-drop pos w,
)

pub length-cut :
    (pos len : ℕ) (w : Text)
    → pos + len ≤ length w
    → length (take pos w ++ drop (pos + len) w) ≡ length w - len
length-cut pos len w fits = omega (
  arith,
  length-append (take pos w) (drop (pos + len) w),
  length-take pos w,
  length-drop (pos + len) w,
)
