-- ===== src/Markdown/Edit/Ranges.antt =====
-- BOLD, ITALIC, CODE and LINK: their range is given in the committed text, and is moved to the
-- working text.
use collab_markdown_server.Base.{
  ℕ, ◌≤◌, ◌<◌, ◌≡◌, refl, ◌∙◌, ap, ◌⊎◌, inl, inr, true, false, ◌&&◌, some, List, ◌++◌, arith, ltb,
  leb, Bool-cases, length, Text, codes,
}
use collab_markdown_server.Markdown.Document.{Op, Heap, pending}
use collab_markdown_server.Markdown.Working.{get_working_text}
use collab_markdown_server.Markdown.Working.Laws.{working-pending}
use collab_markdown_server.Markdown.Monad.{
  Status, Outcome, ok, fail, invalid_cursor_pos, deleted_position, M, ◌>>=◌, ◌>>◌, Outcome-cases,
}
use collab_markdown_server.Markdown.Stage.{IsCurrent, transform_positions, transform_range}
use collab_markdown_server.Markdown.Stage.Fits.{Fits}
use collab_markdown_server.Markdown.Stage.Monotone.{transform_mono, transform_positions-fail}
use collab_markdown_server.Markdown.Edit.{
  markdown_insert, markdown_bold, markdown_italic, markdown_code, markdown_link, markdown_edit,
  Edit, bold, italic, code, link,
}
use collab_markdown_server.Markdown.Edit.Splice.{Writes}
use collab_markdown_server.Markdown.Edit.Wrapped.{
  wrapped, committed, range-bad, range-start_fails, range-end_fails, range-moves,
  insert_both-Writes,
}

insert_range : ℕ → ℕ → ℕ → ℕ → Text → Text → M (Unit {0})
insert_range doc version start end before after = do
  (adjusted_start, adjusted_end) ← transform_range doc version start end
  markdown_insert doc version adjusted_end (some after)
  markdown_insert doc version adjusted_start (some before)

-- The commands that put a text before and one after a range.
pub data RangeEdit : Edit → ℕ → ℕ → Text → Text → Type 0 where
  is_bold : (start end : ℕ) → RangeEdit (bold start end) start end (codes "**") (codes "**")
  is_italic : (start end : ℕ) → RangeEdit (italic start end) start end (codes "*") (codes "*")
  is_code : (start end : ℕ) → RangeEdit (code start end) start end (codes "`") (codes "`")
  is_link :
      (start end : ℕ) (url : Text)
      → RangeEdit (link start end url) start end (codes "[") (codes "](" ++ (url ++ codes ")"))

RangeEdit-insert_range :
    {e : Edit} {start end : ℕ} {before after : Text}
    → RangeEdit e start end before after
    → (doc version : ℕ) (h : Heap)
    → markdown_edit doc version e h ≡ insert_range doc version start end before after h
unfolding markdown_edit insert_range markdown_bold markdown_italic markdown_code markdown_link
RangeEdit-insert_range (is_bold start end) doc version h = refl
RangeEdit-insert_range (is_italic start end) doc version h = refl
RangeEdit-insert_range (is_code start end) doc version h = refl
RangeEdit-insert_range (is_link start end url) doc version h = refl

-- The range is empty, or goes beyond the committed text.
abbrev pub BadRange : ℕ → ℕ → Text → Type 0
BadRange start end text = (end ≤ start) ⊎ (length text < end)

-- Where the pending operations have put the ends of the range.
abbrev pub Moved : ℕ → ℕ → List Op → ℕ → ℕ → Type 0
Moved start end ops a b =
    (transform_positions start ops ≡ ok a) × (transform_positions end ops ≡ ok b)

abbrev EndDeleted : ℕ → ℕ → List Op → Type 0
EndDeleted start end ops =
    (transform_positions start ops ≡ fail deleted_position)
    ⊎ (transform_positions end ops ≡ fail deleted_position)

bad_range :
    (start end : ℕ) (text : Text)
    → (ltb start end && leb end (length text)) ≡ false
    → BadRange start end text
bad_range start end text e = ground arith

good_range :
    (start end : ℕ) (text : Text)
    → (ltb start end && leb end (length text)) ≡ true
    → (start < end) × (end ≤ length text)
good_range start end text e = ground arith

-- How such a command ends: its range was moved to `a`, `b` and the two texts are in place; the range
-- was bad and nothing changed; or one of its ends was deleted and nothing changed.
abbrev pub RangeResult : ℕ → Heap → ℕ → ℕ → Text → Text → Outcome (Unit {0}) × Heap → Type 0
RangeResult doc h start end before after r =
    ((a : ℕ) × (b : ℕ) × Moved start end (pending doc h.op_lists) a b
      × ((start < end) × (end ≤ length (committed doc h)))
      × Writes doc r (wrapped a b before after (get_working_text doc h)))
    ⊎ ((BadRange start end (committed doc h) × (r ≡ (fail invalid_cursor_pos, h)))
        ⊎ (EndDeleted start end (pending doc h.op_lists) × (r ≡ (fail deleted_position, h))))

module _ (doc version : ℕ) (h : Heap) (current : IsCurrent doc version h)
    (fits : Fits (committed doc h) (pending doc h.op_lists)) (start end : ℕ)
    (before after : Text) where
  insert_range-Moved :
      (a b : ℕ)
      → (ltb start end && leb end (length (committed doc h))) ≡ true
      → Moved start end (pending doc h.op_lists) a b
      → Writes doc
          (insert_range doc version start end before after h)
          (wrapped a b before after (get_working_text doc h))
  unfolding insert_range
  insert_range-Moved a b good (ea, eb) =
      let range = good_range start end (committed doc h) good in
      let order =
        transform_mono (committed doc h) (pending doc h.op_lists) start end a b (omega arith)
          range.1 fits ea eb in
      rw (range-moves doc version h current start end good a b ea eb) (
        insert_both-Writes doc version h current a b before after order.0
          (rw (working-pending doc h) order.1))

  insert_range-stops :
      (s : Status)
      → transform_range doc version start end h ≡ (fail s, h)
      → insert_range doc version start end before after h ≡ (fail s, h)
  unfolding insert_range
  insert_range-stops s e = rw e

  insert_range-result :
      RangeResult doc h start end before after (insert_range doc version start end before after h)
  insert_range-result = elim (Bool-cases (ltb start end && leb end (length (committed doc h)))) [
    | inr bad ↦ inr (
        inl (
          bad_range start end _ bad,
          insert_range-stops _ (range-bad doc version h current start end bad),
        ))
    | inl good ↦ elim (Outcome-cases (transform_positions start (pending doc h.op_lists))) [
      | inr (s, e) ↦
          let is = transform_positions-fail start _ s e in
          inr (
            inr (
              inl (e ∙ ap fail is),
              rw (← is) (
                  insert_range-stops s
                    (range-start_fails doc version h current start end good s e)),
            ))
      | inl (a, ea) ↦ elim (Outcome-cases (transform_positions end (pending doc h.op_lists))) [
        | inr (s, e) ↦
            let is = transform_positions-fail end _ s e in
            inr (
              inr (
                inr (e ∙ ap fail is),
                rw (← is) (
                    insert_range-stops s
                      (range-end_fails doc version h current start end good a s ea e)),
              ))
        | inl (b, eb) ↦
            inl (a, b, (ea, eb), good_range start end _ good, insert_range-Moved a b good (ea, eb))
      ]
    ]
  ]

-- BOLD, ITALIC, CODE and LINK, with the current version and pending operations that fit: either the
-- range is not empty and lies in the committed text, its ends were moved to where the pending
-- operations have put them, and the working text has the two texts of the command there; or the
-- range is empty or goes beyond the committed text, the command is rejected and nothing changes; or
-- a pending operation has deleted an end, the command is rejected so and nothing changes.
pub range-writes :
    {e : Edit} {start end : ℕ} {before after : Text} (doc version : ℕ) (h : Heap)
    → RangeEdit e start end before after
    → IsCurrent doc version h
    → Fits (committed doc h) (pending doc h.op_lists)
    → RangeResult doc h start end before after (markdown_edit doc version e h)
range-writes {start} {end} {before} {after} doc version h range current fits =
    rw (RangeEdit-insert_range range doc version h)
      (insert_range-result doc version h current fits start end before after)
