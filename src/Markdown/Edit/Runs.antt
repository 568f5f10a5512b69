-- ===== src/Markdown/Edit/Runs.antt =====
-- What INSERT, DEL, NEWLINE and the commands that put a prefix before a block make of the working
-- text, and when they are rejected.
use collab_markdown_server.Base.{
  ℕ, ◌-◌, ◌≤◌, ◌<◌, ◌≡◌, Option, ltb, if◌then◌else◌, le→leb, lt→leb, lt→==, length, Text, add64,
}
use collab_markdown_server.Markdown.Document.{Op, op_insert, op_delete, Heap, enqueue_op}
use collab_markdown_server.Markdown.Working.{get_working_text}
use collab_markdown_server.Markdown.Working.Laws.{documents-enqueue_op}
use collab_markdown_server.Markdown.Monad.{ok, fail, invalid_cursor_pos}
use collab_markdown_server.Markdown.Stage.{
  validate_version_and_get_len, IsCurrent, enqueue_insert, enqueue_delete, text_or_empty,
}
use collab_markdown_server.Markdown.Edit.{markdown_insert, markdown_delete}

module _ (doc version : ℕ) (h : Heap) (current : IsCurrent doc version h) where
  pub validate-current :
      validate_version_and_get_len doc version h ≡ (ok (get_working_text doc h), h)
  unfolding validate_version_and_get_len
  validate-current = rw current

  pub insert-runs :
      (pos : ℕ) (content : Option Text)
      → pos ≤ length (get_working_text doc h)
      → markdown_insert doc version pos content h
        ≡ (ok tt, enqueue_op doc (op_insert pos (text_or_empty content)) h)
  unfolding markdown_insert enqueue_insert
  insert-runs pos content fits = rw (validate-current, le→leb pos _ fits)

  pub insert-rejected :
      (pos : ℕ) (content : Option Text)
      → length (get_working_text doc h) < pos
      → markdown_insert doc version pos content h ≡ (fail invalid_cursor_pos, h)
  unfolding markdown_insert
  insert-rejected pos content beyond = rw (validate-current, lt→leb _ _ beyond)

  pub delete-rejected :
      (pos len : ℕ)
      → length (get_working_text doc h) < pos
      → markdown_delete doc version pos len h ≡ (fail invalid_cursor_pos, h)
  unfolding markdown_delete
  delete-rejected pos len beyond = rw (validate-current, lt→leb _ _ beyond)

  pub delete-runs :
      (pos len : ℕ)
      → pos ≤ length (get_working_text doc h)
      → 0 < len
      → markdown_delete doc version pos len h ≡ (
        ok tt,
        enqueue_op doc
            (op_delete pos (
              if ltb (length (get_working_text doc h)) (add64 pos len)
              then length (get_working_text doc h) - pos
              else len))
            h,
      )
  unfolding markdown_delete enqueue_delete
  delete-runs pos len fits positive = rw (validate-current, le→leb pos _ fits, lt→== 0 len positive)

  pub delete-none :
      (pos : ℕ)
      → pos ≤ length (get_working_text doc h)
      → markdown_delete doc version pos 0 h ≡ (ok tt, h)
  unfolding markdown_delete
  delete-none pos fits = rw (validate-current, le→leb pos _ fits)

  pub enqueue-IsCurrent : (op : Op) → IsCurrent doc version (enqueue_op doc op h)
  enqueue-IsCurrent op = rw documents-enqueue_op current
