-- ===== src/Markdown/Edit/Wrapped.antt =====
-- The range of BOLD, ITALIC, CODE and LINK, moved to the working text, and the two insertions there.
use collab_markdown_server.Base.{
  ℕ, ◌≤◌, ◌≡◌, refl, ◌∙◌, ap, true, false, ◌&&◌, some, ◌++◌, arith, ltb, leb, length, length-take,
  take, drop, Text, take-append_left, drop-append_left, take-take,
}
use collab_markdown_server.Markdown.Document.{op_insert, Heap, enqueue_op, pending}
use collab_markdown_server.Markdown.Working.{get_committed_text, get_working_text}
use collab_markdown_server.Markdown.Working.Laws.{working-enqueue_insert, length-splice}
use collab_markdown_server.Markdown.Monad.{Status, ok, fail, invalid_cursor_pos, ◌>>◌}
use collab_markdown_server.Markdown.Stage.{
  IsCurrent, check_version, transform_positions, transform_position_after_pending_ops,
  transform_range,
}
use collab_markdown_server.Markdown.Edit.{markdown_insert}
use collab_markdown_server.Markdown.Edit.Runs.{insert-runs, enqueue-IsCurrent}
use collab_markdown_server.Markdown.Edit.Splice.{Writes}

-- The text with `before` at `start` and `after` at `end`.
abbrev pub wrapped : ℕ → ℕ → Text → Text → Text → Text
wrapped start end before after w =
    take start w ++ (before ++ (drop start (take end w) ++ (after ++ drop end w)))

take-of_splice :
    (s e : ℕ) (after w : Text)
    → s ≤ e
    → e ≤ length w
    → take s (take e w ++ (after ++ drop e w)) ≡ take s w
take-of_splice s e after w se ew =
    take-append_left s (take e w) _ (omega (arith, length-take e w)) ∙ take-take s e w se

drop-of_splice :
    (s e : ℕ) (after w : Text)
    → s ≤ e
    → e ≤ length w
    → drop s (take e w ++ (after ++ drop e w)) ≡ drop s (take e w) ++ (after ++ drop e w)
drop-of_splice s e after w se ew = drop-append_left s (take e w) _ (omega (arith, length-take e w))

abbrev pub committed : ℕ → Heap → Text
committed doc h = get_committed_text (h.documents doc)

module _ (doc version : ℕ) (h : Heap) (current : IsCurrent doc version h) where
  transform-pending :
      (p : ℕ)
      → transform_position_after_pending_ops doc p h
        ≡ (transform_positions p (pending doc h.op_lists), h)
  unfolding transform_position_after_pending_ops check_version
  transform-pending p = ground arith

  pub range-bad :
      (start end : ℕ)
      → (ltb start end && leb end (length (committed doc h))) ≡ false
      → transform_range doc version start end h ≡ (fail invalid_cursor_pos, h)
  unfolding transform_range
  range-bad start end e = rw (current, e)

  module _ (start end : ℕ)
      (good : (ltb start end && leb end (length (committed doc h))) ≡ true) where
    pub range-start_fails :
        (s : Status)
        → transform_positions start (pending doc h.op_lists) ≡ fail s
        → transform_range doc version start end h ≡ (fail s, h)
    unfolding transform_range
    range-start_fails s e = rw (current, good, transform-pending start, e)

    pub range-end_fails :
        (a : ℕ) (s : Status)
        → transform_positions start (pending doc h.op_lists) ≡ ok a
        → transform_positions end (pending doc h.op_lists) ≡ fail s
        → transform_range doc version start end h ≡ (fail s, h)
    unfolding transform_range
    range-end_fails a s ea e =
        rw (current, good, transform-pending start, ea, transform-pending end, e)

    pub range-moves :
        (a b : ℕ)
        → transform_positions start (pending doc h.op_lists) ≡ ok a
        → transform_positions end (pending doc h.op_lists) ≡ ok b
        → transform_range doc version start end h ≡ (ok (a, b), h)
    unfolding transform_range
    range-moves a b ea eb =
        rw (current, good, transform-pending start, ea, transform-pending end, eb)

  pub insert_both-Writes :
      (a b : ℕ) (before after : Text)
      → a ≤ b
      → b ≤ length (get_working_text doc h)
      → Writes doc
          ((markdown_insert doc version b (some after)
              >> markdown_insert doc version a (some before))
            h)
          (wrapped a b before after (get_working_text doc h))
  insert_both-Writes a b before after ab bw =
      let w = get_working_text doc h in
      let k = enqueue_op doc (op_insert b after) h in
      let first : get_working_text doc k ≡ take b w ++ (after ++ drop b w) =
        working-enqueue_insert doc b after h bw in
      let fits : a ≤ length (get_working_text doc k) =
        omega (arith, ap length first, length-splice b after w bw) in
      rw
        (
          insert-runs doc version h current b (some after) bw,
          insert-runs doc version k (enqueue-IsCurrent doc version h current _) a (some before)
              fits,
        )
        (
          refl,
          working-enqueue_insert doc a before k fits
              ∙ rw (first, take-of_splice a b after w ab bw, drop-of_splice a b after w ab bw),
        )
