-- ===== src/Markdown/Edit/Atomic.antt =====
-- An edit command that is rejected changes nothing, for an outdated version or for another reason.
use collab_markdown_server.Base.{
  ℕ, ◌+◌, ◌<◌, ◌≡◌, ◌≢◌, refl, ap, ◌⊎◌, inl, inr, ◌&&◌, Option, some, arith, leb, leb→le, leb→lt,
  if◌then◌else◌, Bool-cases, length, Text, word_mod,
}
use collab_markdown_server.Markdown.Document.{Document, Heap, pending}
use collab_markdown_server.Markdown.Working.{get_working_text}
use collab_markdown_server.Markdown.Working.Laws.{working-pending}
use collab_markdown_server.Markdown.Monad.{
  Status, Outcome, ok, fail, invalid_cursor_pos, outdated_version, Outcome-cases,
}
use collab_markdown_server.Markdown.Stage.{
  IsCurrent, check_version, validate_version_and_get_len, transform_range,
}
use collab_markdown_server.Markdown.Stage.Fits.{Fits, Fits-room_after}
use collab_markdown_server.Markdown.Edit.{
  markdown_insert, markdown_delete, ensure_block_prefix_position, markdown_newline,
  markdown_heading, markdown_bold, markdown_italic, markdown_blockquote, markdown_ordered_list,
  markdown_unordered_list, markdown_code, markdown_horizontal_rule, markdown_link, Edit, insert,
  delete, newline, blockquote, ordered_list, unordered_list, horizontal_rule, heading, bold, italic,
  code, link, markdown_edit,
}
use collab_markdown_server.Markdown.Edit.Runs.{
  insert-runs, insert-rejected, delete-rejected, delete-runs, delete-none,
}
use collab_markdown_server.Markdown.Edit.Blocks.{
  is_blockquote, is_unordered_list, is_horizontal_rule, is_heading, block-Writes,
}
use collab_markdown_server.Markdown.Edit.Breaks.{newline-Writes, ordered_list-Writes}
use collab_markdown_server.Markdown.Edit.Ranges.{
  RangeEdit, is_bold, is_italic, is_code, is_link, RangeResult, range-writes,
}
use collab_markdown_server.Markdown.Edit.Wrapped.{committed}

-- HEADING looks at its level first.
abbrev stale_status : Edit → Status → Status
stale_status (heading level pos) s = if leb 1 level && leb level 3 then s else invalid_cursor_pos
stale_status _ s = s

module _ (doc version : ℕ) (h : Heap) (s : Status)
    (stale : check_version (h.documents doc) version ≡ fail s) where
  validate-stale : validate_version_and_get_len doc version h ≡ (fail s, h)
  unfolding validate_version_and_get_len
  validate-stale = rw stale

  range-stale : (start end : ℕ) → transform_range doc version start end h ≡ (fail s, h)
  unfolding transform_range
  range-stale start end = rw stale

  block-stale : (pos : ℕ) → ensure_block_prefix_position doc version pos h ≡ (fail s, h)
  unfolding ensure_block_prefix_position
  block-stale pos = rw validate-stale

  edit-stale : (e : Edit) → markdown_edit doc version e h ≡ (fail (stale_status e s), h)
  unfolding markdown_edit markdown_insert markdown_delete markdown_newline markdown_heading
      markdown_bold markdown_italic markdown_blockquote markdown_ordered_list
      markdown_unordered_list markdown_code markdown_horizontal_rule markdown_link
  edit-stale (insert pos content) = rw validate-stale
  edit-stale (delete pos len) = rw validate-stale
  edit-stale (newline pos) = rw validate-stale
  edit-stale (blockquote pos) = rw (block-stale pos)
  edit-stale (ordered_list pos) = rw validate-stale
  edit-stale (unordered_list pos) = rw (block-stale pos)
  edit-stale (horizontal_rule pos) = rw (block-stale pos)
  edit-stale (heading level pos) = elim (Bool-cases (leb 1 level && leb level 3)) [
    | inl e ↦ rw (e, block-stale pos)
    | inr e ↦ rw e
  ]
  edit-stale (bold start end) = rw (range-stale start end)
  edit-stale (italic start end) = rw (range-stale start end)
  edit-stale (code start end) = rw (range-stale start end)
  edit-stale (link start end url) = rw (range-stale start end)

version-differs :
    (doc version : ℕ) (h : Heap) (d : Document)
    → h.documents doc ≡ some d
    → version ≢ d.current_version
    → check_version (h.documents doc) version ≡ fail outdated_version
unfolding check_version
version-differs doc version h d live differs = rw live (ground arith)

-- An edit command with another version than the document's is rejected as outdated, or for its
-- level where it is a HEADING whose level is not 1 to 3, and changes nothing.
edit-outdated :
    (doc version : ℕ) (e : Edit) (h : Heap) (d : Document)
    → h.documents doc ≡ some d
    → version ≢ d.current_version
    → markdown_edit doc version e h ≡ (fail (stale_status e outdated_version), h)
edit-outdated doc version e h d live differs =
    edit-stale doc version h outdated_version (version-differs doc version h d live differs) e

-- Either it returned SUCCESS, or it left the heap alone.
abbrev Whole : Heap → Outcome (Unit {0}) × Heap → Type 0
Whole h r = (r.0 ≡ ok tt) ⊎ (r.1 ≡ h)

Whole-or :
    {P Q W : Type 0} {h : Heap} {s : Status} (r : Outcome (Unit {0}) × Heap)
    → (P × ((r.0 ≡ ok tt) × W)) ⊎ (Q × (r ≡ (fail s, h)))
    → Whole h r
Whole-or r (inl (p, w)) = inl w.0
Whole-or r (inr (q, e)) = inr (ap (λ (x : Outcome (Unit {0}) × Heap). x.1) e)

Whole-range :
    (doc : ℕ) (h : Heap) (start end : ℕ) (before after : Text) (r : Outcome (Unit {0}) × Heap)
    → RangeResult doc h start end before after r
    → Whole h r
Whole-range doc h start end before after r (inl (a, b, moved, good, w)) = inl w.0
Whole-range doc h start end before after r (inr (inl (bad, e))) =
    inr (ap (λ (x : Outcome (Unit {0}) × Heap). x.1) e)
Whole-range doc h start end before after r (inr (inr (gone, e))) =
    inr (ap (λ (x : Outcome (Unit {0}) × Heap). x.1) e)

module _ (doc version : ℕ) (h : Heap) (current : IsCurrent doc version h)
    (fits : Fits (committed doc h) (pending doc h.op_lists)) where
  room : length (get_working_text doc h) + 1 < word_mod
  room =
      rw (working-pending doc h) (Fits-room_after (committed doc h) (pending doc h.op_lists) fits)

  insert-Whole :
      (pos : ℕ) (content : Option Text) → Whole h (markdown_insert doc version pos content h)
  insert-Whole pos content = elim (Bool-cases (leb pos (length (get_working_text doc h)))) [
    | inl e ↦ rw (insert-runs doc version h current pos content (leb→le pos _ e)) (inl refl)
    | inr e ↦ rw (insert-rejected doc version h current pos content (leb→lt pos _ e)) (inr refl)
  ]

  delete-Whole : (pos len : ℕ) → Whole h (markdown_delete doc version pos len h)
  delete-Whole pos len = elim (Bool-cases (leb pos (length (get_working_text doc h)))) [
    | inr e ↦ rw (delete-rejected doc version h current pos len (leb→lt pos _ e)) (inr refl)
    | inl e ↦ elim (Bool-cases (leb 1 len)) [
      | inl some_len ↦
          rw (delete-runs doc version h current pos len (leb→le pos _ e) (leb→le 1 len some_len))
            (inl refl)
      | inr no_len ↦
          let is_zero : len ≡ 0 = omega (arith, leb→lt 1 len no_len) in
          rw (is_zero, delete-none doc version h current pos (leb→le pos _ e)) (inl refl)
    ]
  ]

  heading-Whole : (level pos : ℕ) → Whole h (markdown_edit doc version (heading level pos) h)
  heading-Whole level pos = elim (Bool-cases (leb 1 level && leb level 3)) [
    | inl e ↦ Whole-or _ (
        block-Writes doc version h (is_heading level pos (ground arith) (ground arith)) current
          room)
    | inr e ↦ unfold markdown_edit markdown_heading in rw e (inr refl)
  ]

  range-Whole :
      {e : Edit} {start end : ℕ} {before after : Text}
      → RangeEdit e start end before after
      → Whole h (markdown_edit doc version e h)
  range-Whole {start} {end} {before} {after} range =
      Whole-range doc h start end before after _ (range-writes doc version h range current fits)

  edit-Whole : (e : Edit) → Whole h (markdown_edit doc version e h)
  edit-Whole (insert pos content) = unfold markdown_edit in insert-Whole pos (some content)
  edit-Whole (delete pos len) = unfold markdown_edit in delete-Whole pos len
  edit-Whole (newline pos) =
      unfold markdown_edit in
      Whole-or _ (newline-Writes doc version pos h current (omega (arith, room)))
  edit-Whole (ordered_list pos) =
      unfold markdown_edit in Whole-or _ (ordered_list-Writes doc version pos h current room)
  edit-Whole (blockquote pos) =
      Whole-or _ (block-Writes doc version h (is_blockquote pos) current room)
  edit-Whole (unordered_list pos) =
      Whole-or _ (block-Writes doc version h (is_unordered_list pos) current room)
  edit-Whole (horizontal_rule pos) =
      Whole-or _ (block-Writes doc version h (is_horizontal_rule pos) current room)
  edit-Whole (heading level pos) = heading-Whole level pos
  edit-Whole (bold start end) = range-Whole (is_bold start end)
  edit-Whole (italic start end) = range-Whole (is_italic start end)
  edit-Whole (code start end) = range-Whole (is_code start end)
  edit-Whole (link start end url) = range-Whole (is_link start end url)

Whole-failure :
    {h : Heap} (s : Status) (r : Outcome (Unit {0}) × Heap) → r.0 ≡ fail s → Whole h r → r.1 ≡ h
Whole-failure s r failed (inl done) = cc
Whole-failure s r failed (inr same) = same

-- An edit command that does not return SUCCESS, over pending operations that fit, has changed
-- nothing: no part of it stays staged.
pub edit_atomic :
    (doc version : ℕ) (e : Edit) (h : Heap) (s : Status)
    → Fits (committed doc h) (pending doc h.op_lists)
    → (markdown_edit doc version e h).0 ≡ fail s
    → (markdown_edit doc version e h).1 ≡ h
edit_atomic doc version e h s fits failed =
    elim (Outcome-cases (check_version (h.documents doc) version)) [
      | inl (done, current) ↦ Whole-failure s _ failed (edit-Whole doc version h current fits e)
      | inr (t, stale) ↦
          ap (λ (x : Outcome (Unit {0}) × Heap). x.1) (edit-stale doc version h t stale e)
    ]
