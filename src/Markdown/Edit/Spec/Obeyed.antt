-- ===== src/Markdown/Edit/Spec/Obeyed.antt =====
-- The edit commands do what is promised, where nothing is pending.
use collab_markdown_server.Base.{
  ℕ, zero, suc, ◌+◌, ◌-◌, ◌%◌, ◌≤◌, ◌<◌, ◌≡◌, refl, ap, sym, ◌∙◌, ◌⊎◌, inl, inr, true, false, ◌&&◌,
  Option, none, some, List, [], ◌∷◌, ◌++◌, subst, take-append-drop, arith, ltb, leb, leb→le, leb→lt,
  le→leb, lt→leb, ltb→lt, le→ltb, Bool-cases, if◌then◌else◌, length, take, drop, drop-length_le,
  Text, add64, add64_small, word_mod,
}
use collab_markdown_server.Markdown.Document.{Op, op_delete, Heap, pending}
use collab_markdown_server.Markdown.Working.{get_working_text, apply_single_op, apply_ops}
use collab_markdown_server.Markdown.Working.Laws.{working-pending, working-enqueue_op}
use collab_markdown_server.Markdown.Monad.{Outcome, ok, fail, invalid_cursor_pos, deleted_position}
use collab_markdown_server.Markdown.Stage.{IsCurrent, transform_positions}
use collab_markdown_server.Markdown.Stage.Fits.{Fits}
use collab_markdown_server.Markdown.Edit.{
  Edit, insert, delete, newline, blockquote, ordered_list, unordered_list, horizontal_rule, heading,
  bold, italic, code, link, markdown_delete, markdown_edit, markdown_heading,
}
use collab_markdown_server.Markdown.Edit.Runs.{delete-runs, delete-none, delete-rejected}
use collab_markdown_server.Markdown.Edit.Splice.{Writes, insert-writes}
use collab_markdown_server.Markdown.Edit.Blocks.{
  BlockEdit, is_blockquote, is_unordered_list, is_horizontal_rule, is_heading, with_block,
  block-Writes,
}
use collab_markdown_server.Markdown.Edit.Breaks.{newline-Writes, ordered_list-Writes}
use collab_markdown_server.Markdown.Edit.Ranges.{
  RangeEdit, is_bold, is_italic, is_code, is_link, BadRange, range-writes,
}
use collab_markdown_server.Markdown.Edit.Wrapped.{committed}
use collab_markdown_server.Markdown.Edit.Spec.{at_position, around, edit_text}

-- The call returned SUCCESS and left the promised working text, or was refused.
abbrev pub Obeys : ℕ → Option Text → Outcome (Unit {0}) × Heap → Type 0
Obeys doc none r = r.0 ≡ fail invalid_cursor_pos
Obeys doc (some text) r = Writes doc r text

-- From the two cases of the lemmas about the commands with one position.
position-Obeys :
    (doc pos : ℕ) (text new : Text) (h : Heap) (r : Outcome (Unit {0}) × Heap)
    → (((pos ≤ length text) × Writes doc r new)
        ⊎ ((length text < pos) × (r ≡ (fail invalid_cursor_pos, h))))
    → Obeys doc (at_position pos text new) r
position-Obeys doc pos text new h r (inl (fits, done)) = rw (le→leb pos (length text) fits) done
position-Obeys doc pos text new h r (inr (beyond, e)) =
    rw (lt→leb pos (length text) beyond) (ap (λ (x : Outcome (Unit {0}) × Heap). x.0) e)

apply-delete_any :
    (w : Text) (pos len : ℕ)
    → pos ≤ length w
    → length w < word_mod
    → apply_single_op w
        (op_delete pos (if ltb (length w) (add64 pos len) then length w - pos else len))
      ≡ take pos w ++ drop (add64 pos len) w
unfolding apply_single_op
apply-delete_any w pos len fits space = elim (Bool-cases (ltb (length w) (add64 pos len))) [
  | inl over ↦
      let whole : add64 pos (length w - pos) ≡ length w =
        add64_small pos (length w - pos) (omega arith) ∙ omega arith in
      rw (
        over,
        le→ltb (length w) pos fits,
        whole,
        le→ltb (length w) (length w) (omega arith),
        whole,
        drop-length_le (length w) w (omega arith),
        drop-length_le (add64 pos len) w (omega (arith, ltb→lt (length w) (add64 pos len) over)),
      )
  | inr within ↦ rw (within, le→ltb (length w) pos fits, within)
]

unmoved : (p a : ℕ) (ops : List Op) → ops ≡ [] → transform_positions p ops ≡ ok a → a ≡ p
unfolding transform_positions
unmoved p a [] e moved = cc
unmoved p a (op ∷ ops) e moved = cc

not_gone :
    (p : ℕ) (ops : List Op) → ops ≡ [] → transform_positions p ops ≡ fail deleted_position → ⊥
unfolding transform_positions
not_gone p [] e gone = cc
not_gone p (op ∷ ops) e gone = cc

in_range :
    (start end : ℕ) (text : Text)
    → start < end
    → end ≤ length text
    → (ltb start end && leb end (length text)) ≡ true
in_range start end text order within = ground arith

out_of_range :
    (start end : ℕ) (text : Text)
    → BadRange start end text
    → (ltb start end && leb end (length text)) ≡ false
out_of_range start end text (inl empty) = ground arith
out_of_range start end text (inr beyond) = ground arith

module _ (doc version : ℕ) (h : Heap) (current : IsCurrent doc version h)
    (clear : pending doc h.op_lists ≡ [])
    (room : length (get_working_text doc h) + 1 < word_mod) where
  abbrev working : Text
  working = get_working_text doc h

  insert-Obeys :
      (pos : ℕ) (content : Text)
      → Obeys doc
          (edit_text (insert pos content) working)
          (markdown_edit doc version (insert pos content) h)
  unfolding edit_text markdown_edit
  insert-Obeys pos content =
      let (result, text) = insert-writes doc version pos content h current in
      elim (Bool-cases (leb pos (length working))) [
        | inl fits ↦ rw fits ((rw fits at result), (rw fits at text))
        | inr beyond ↦ rw beyond (rw beyond at result)
      ]

  delete_within-Writes :
      (pos len : ℕ)
      → pos ≤ length working
      → Writes doc
          (markdown_delete doc version pos len h)
          (take pos working ++ drop ((pos + len) % word_mod) working)
  delete_within-Writes pos zero fits =
      let same : (pos + 0) % word_mod ≡ pos = omega (arith, room) in
      rw (delete-none doc version h current pos fits, same)
        (refl, sym (take-append-drop pos working))
  delete_within-Writes pos (suc len) fits =
      rw (delete-runs doc version h current pos (suc len) fits (omega arith)) (
        refl,
        working-enqueue_op doc _ h
            ∙ (apply-delete_any working pos (suc len) fits (omega (arith, room))
                ∙ unfold add64 in refl),
      )

  delete-Obeys :
      (pos len : ℕ)
      → Obeys doc
          (edit_text (delete pos len) working)
          (markdown_edit doc version (delete pos len) h)
  unfolding edit_text markdown_edit
  delete-Obeys pos len = elim (Bool-cases (leb pos (length working))) [
    | inl fits ↦ rw fits (delete_within-Writes pos len (leb→le pos _ fits))
    | inr beyond ↦ rw beyond (
        ap (λ (x : Outcome (Unit {0}) × Heap). x.0)
          (delete-rejected doc version h current pos len (leb→lt pos _ beyond)))
  ]

  newline-Obeys :
      (pos : ℕ)
      → Obeys doc (edit_text (newline pos) working) (markdown_edit doc version (newline pos) h)
  unfolding edit_text markdown_edit
  newline-Obeys pos =
      position-Obeys doc pos working _ h _
        (newline-Writes doc version pos h current (omega (arith, room)))

  ordered_list-Obeys :
      (pos : ℕ)
      → Obeys doc
          (edit_text (ordered_list pos) working)
          (markdown_edit doc version (ordered_list pos) h)
  unfolding edit_text markdown_edit
  ordered_list-Obeys pos =
      position-Obeys doc pos working _ h _ (ordered_list-Writes doc version pos h current room)

  block-Obeys :
      {e : Edit} {pos : ℕ} {tag : Text}
      → BlockEdit e pos tag
      → Obeys doc
          (at_position pos working (with_block pos tag working))
          (markdown_edit doc version e h)
  block-Obeys {e} {pos} {tag} block =
      position-Obeys doc pos working _ h _ (block-Writes doc version h block current room)

  heading-Obeys :
      (level pos : ℕ)
      → Obeys doc
          (edit_text (heading level pos) working)
          (markdown_edit doc version (heading level pos) h)
  unfolding edit_text
  heading-Obeys level pos = elim (Bool-cases (leb 1 level && leb level 3)) [
    | inl good ↦ rw good (block-Obeys (is_heading level pos (ground arith) (ground arith)))
    | inr bad ↦ rw bad (unfold markdown_edit markdown_heading in rw bad refl)
  ]

  committed-working : committed doc h ≡ working
  unfolding apply_ops
  committed-working = sym (working-pending doc h ∙ ap (apply_ops (committed doc h)) clear)

  clear-Fits : Fits (committed doc h) (pending doc h.op_lists)
  clear-Fits = rw clear (omega (arith, ap length committed-working, room))

  range-Obeys :
      {e : Edit} {start end : ℕ} {before after : Text}
      → RangeEdit e start end before after
      → Obeys doc (around start end before after working) (markdown_edit doc version e h)
  range-Obeys {e} {start} {end} {before} {after} range =
      elim (range-writes doc version h range current clear-Fits) [
        | inl (a, b, (ea, eb), within, done) ↦
            let same_start = unmoved start a (pending doc h.op_lists) clear ea in
            let same_end = unmoved end b (pending doc h.op_lists) clear eb in
            rw
              (in_range start end working within.0
                (omega (arith, within.1, ap length committed-working)))
              (rw (same_start, same_end) at done)
        | inr (inl (bad, refused)) ↦
            rw
              (
                out_of_range start end working (subst (BadRange start end) committed-working bad),
                refused,
              )
              refl
        | inr (inr (inl gone, refused)) ↦ absurd (not_gone start _ clear gone)
        | inr (inr (inr gone, refused)) ↦ absurd (not_gone end _ clear gone)
      ]

-- Every edit command with the current version, on a document with nothing pending and a text shorter
-- than 2^64 - 1 bytes, does what is promised of it on the plain text: it succeeds and leaves the
-- promised working text, or it is refused where the promise has no text.
pub edit-Obeys :
    (doc version : ℕ) (e : Edit) (h : Heap)
    → IsCurrent doc version h
    → pending doc h.op_lists ≡ []
    → length (get_working_text doc h) + 1 < word_mod
    → Obeys doc (edit_text e (get_working_text doc h)) (markdown_edit doc version e h)
unfolding edit_text
edit-Obeys doc version (insert pos content) h current clear room =
    insert-Obeys doc version h current clear room pos content
edit-Obeys doc version (delete pos len) h current clear room =
    delete-Obeys doc version h current clear room pos len
edit-Obeys doc version (newline pos) h current clear room =
    newline-Obeys doc version h current clear room pos
edit-Obeys doc version (blockquote pos) h current clear room =
    block-Obeys doc version h current clear room (is_blockquote pos)
edit-Obeys doc version (ordered_list pos) h current clear room =
    ordered_list-Obeys doc version h current clear room pos
edit-Obeys doc version (unordered_list pos) h current clear room =
    block-Obeys doc version h current clear room (is_unordered_list pos)
edit-Obeys doc version (horizontal_rule pos) h current clear room =
    block-Obeys doc version h current clear room (is_horizontal_rule pos)
edit-Obeys doc version (heading level pos) h current clear room =
    heading-Obeys doc version h current clear room level pos
edit-Obeys doc version (bold start end) h current clear room =
    range-Obeys doc version h current clear room (is_bold start end)
edit-Obeys doc version (italic start end) h current clear room =
    range-Obeys doc version h current clear room (is_italic start end)
edit-Obeys doc version (code start end) h current clear room =
    range-Obeys doc version h current clear room (is_code start end)
edit-Obeys doc version (link start end url) h current clear room =
    range-Obeys doc version h current clear room (is_link start end url)
