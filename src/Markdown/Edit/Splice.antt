-- ===== src/Markdown/Edit/Splice.antt =====
-- INSERT and DEL as cuts of the working text, and the delete whose end wraps around.
use native.Mathlib.Nat.{add-zero}
use collab_markdown_server.Base.{
  ℕ, zero, suc, ◌+◌, ◌-◌, ◌≤◌, ◌<◌, ◌≡◌, refl, sym, inl, inr, some, ◌++◌, ◌∙◌, arith, ltb, leb,
  leb→le, leb→lt, if◌then◌else◌, Bool-cases, ltb→lt, ltb→le, le→ltb, length, take, drop, Text,
  add64, add64_small, word_mod, drop-length_le, take-append-drop,
}
use collab_markdown_server.Markdown.Document.{op_delete, Heap}
use collab_markdown_server.Markdown.Working.{get_working_text, apply_single_op}
use collab_markdown_server.Markdown.Working.Laws.{working-enqueue_op, apply-insert, apply-delete}
use collab_markdown_server.Markdown.Monad.{Outcome, ok, fail, invalid_cursor_pos}
use collab_markdown_server.Markdown.Stage.{IsCurrent}
use collab_markdown_server.Markdown.Edit.{markdown_insert, markdown_delete}
use collab_markdown_server.Markdown.Edit.Runs.{
  insert-runs, insert-rejected, delete-rejected, delete-runs, delete-none,
}

-- The call returned SUCCESS, and the working text of `doc` is `w` now.
abbrev pub Writes : ℕ → Outcome (Unit {0}) × Heap → Text → Type 0
Writes doc (r, h) w = (r ≡ ok tt) × (get_working_text doc h ≡ w)

apply-delete_clipped :
    (w : Text) (pos len : ℕ)
    → pos ≤ length w
    → pos + len < word_mod
    → length w < word_mod
    → apply_single_op w
        (op_delete pos (if ltb (length w) (add64 pos len) then length w - pos else len))
      ≡ take pos w ++ drop (pos + len) w
apply-delete_clipped w pos len fits small space = elim (Bool-cases (ltb (length w) (pos + len))) [
  | inl over ↦ rw (
    add64_small pos len small,
    over,
    apply-delete w pos (length w - pos) (omega arith) space,
    drop-length_le (pos + (length w - pos)) w (omega arith),
    drop-length_le (pos + len) w (omega (arith, ltb→lt (length w) (pos + len) over)),
  )
  | inr within ↦ rw (
    add64_small pos len small,
    within,
    apply-delete w pos len (ltb→le (length w) (pos + len) within) space,
  )
]

wrapped_end : (pos k : ℕ) → 0 < k → k ≤ pos → pos < word_mod → add64 pos (word_mod - k) ≡ pos - k
unfolding add64
wrapped_end pos k positive back space = omega arith

apply-delete_wrapped :
    (w : Text) (pos k : ℕ)
    → 0 < k
    → k ≤ pos
    → pos ≤ length w
    → length w < word_mod
    → apply_single_op w (op_delete pos (word_mod - k)) ≡ take pos w ++ drop (pos - k) w
unfolding apply_single_op
apply-delete_wrapped w pos k positive back fits space =
    let e = wrapped_end pos k positive back (omega arith) in
    rw (le→ltb (length w) pos fits, e, le→ltb (length w) (pos - k) (omega arith), e)

module _ (doc version : ℕ) (h : Heap) (current : IsCurrent doc version h) where
  insert-result :
      (pos : ℕ) (content : Text)
      → ((markdown_insert doc version pos (some content) h).0
          ≡ (if leb pos (length (get_working_text doc h)) then ok tt else fail invalid_cursor_pos))
        × (get_working_text doc (markdown_insert doc version pos (some content) h).1 ≡ (
            if leb pos (length (get_working_text doc h))
            then take pos (get_working_text doc h) ++ (content ++ drop pos (get_working_text doc h))
            else get_working_text doc h))
  insert-result pos content = elim (Bool-cases (leb pos (length (get_working_text doc h)))) [
    | inl fits ↦
        rw (fits, insert-runs doc version h current pos (some content) (leb→le pos _ fits))
          (
            refl,
            rw (
              working-enqueue_op,
              apply-insert (get_working_text doc h) pos content (leb→le pos _ fits),
            ),
          )
    | inr beyond ↦
        rw (beyond, insert-rejected doc version h current pos (some content) (leb→lt pos _ beyond))
          (refl, refl)
  ]

  delete-result :
      (pos len : ℕ)
      → pos + len < word_mod
      → length (get_working_text doc h) < word_mod
      → ((markdown_delete doc version pos len h).0
          ≡ (if leb pos (length (get_working_text doc h)) then ok tt else fail invalid_cursor_pos))
        × (get_working_text doc (markdown_delete doc version pos len h).1 ≡ (
            if leb pos (length (get_working_text doc h))
            then take pos (get_working_text doc h) ++ drop (pos + len) (get_working_text doc h)
            else get_working_text doc h))
  delete-result pos zero small space =
      elim (Bool-cases (leb pos (length (get_working_text doc h)))) [
        | inl fits ↦
            rw (fits, delete-none doc version h current pos (leb→le pos _ fits))
              (refl, rw add-zero (sym (take-append-drop pos (get_working_text doc h))))
        | inr beyond ↦
            rw (beyond, delete-rejected doc version h current pos 0 (leb→lt pos _ beyond))
              (refl, refl)
      ]
  delete-result pos (suc len) small space =
      elim (Bool-cases (leb pos (length (get_working_text doc h)))) [
        | inl fits ↦
            rw
              (
                fits,
                delete-runs doc version h current pos (suc len) (leb→le pos _ fits) (omega arith),
              )
              (
                refl,
                working-enqueue_op doc _ h
                    ∙ apply-delete_clipped (get_working_text doc h) pos (suc len)
                        (leb→le pos _ fits) small space,
              )
        | inr beyond ↦
            rw (beyond, delete-rejected doc version h current pos (suc len) (leb→lt pos _ beyond))
              (refl, refl)
      ]

  wrapped-result :
      (pos k : ℕ)
      → 0 < k
      → k ≤ pos
      → pos ≤ length (get_working_text doc h)
      → length (get_working_text doc h) < word_mod
      → Writes doc
          (markdown_delete doc version pos (word_mod - k) h)
          (take pos (get_working_text doc h) ++ drop (pos - k) (get_working_text doc h))
  wrapped-result pos k positive back fits space =
      rw
        (
          delete-runs doc version h current pos (word_mod - k) fits (omega arith),
          wrapped_end pos k positive back (omega arith),
          le→ltb (length (get_working_text doc h)) (pos - k) (omega arith),
        )
        (
          refl,
          working-enqueue_op doc _ h
              ∙ apply-delete_wrapped (get_working_text doc h) pos k positive back fits space,
        )

-- With the current version, INSERT at a position within the working text succeeds and puts the
-- content there; at any other position it is rejected and the working text stays.
pub insert-writes :
    (doc version pos : ℕ) (content : Text) (h : Heap)
    → IsCurrent doc version h
    → ((markdown_insert doc version pos (some content) h).0
        ≡ (if leb pos (length (get_working_text doc h)) then ok tt else fail invalid_cursor_pos))
      × (get_working_text doc (markdown_insert doc version pos (some content) h).1 ≡ (
          if leb pos (length (get_working_text doc h))
          then take pos (get_working_text doc h) ++ (content ++ drop pos (get_working_text doc h))
          else get_working_text doc h))
insert-writes doc version pos content h current = insert-result doc version h current pos content

-- With the current version and a working text shorter than 2^64 bytes, a delete whose end does
-- not wrap around succeeds from a position within the working text, and removes `len` bytes from
-- there, or as many as there are; from any other position it is rejected and the working text
-- stays.
delete-writes :
    (doc version pos len : ℕ) (h : Heap)
    → IsCurrent doc version h
    → pos + len < word_mod
    → length (get_working_text doc h) < word_mod
    → ((markdown_delete doc version pos len h).0
        ≡ (if leb pos (length (get_working_text doc h)) then ok tt else fail invalid_cursor_pos))
      × (get_working_text doc (markdown_delete doc version pos len h).1 ≡ (
          if leb pos (length (get_working_text doc h))
          then take pos (get_working_text doc h) ++ drop (pos + len) (get_working_text doc h)
          else get_working_text doc h))
delete-writes doc version pos len h current = delete-result doc version h current pos len

-- A delete with the current version whose end wraps around to `pos - k`, before a `pos` within a
-- working text shorter than 2^64 bytes, succeeds and removes nothing: the k bytes before `pos`
-- then stand in the working text twice.
pub delete-wraps :
    (doc version pos k : ℕ) (h : Heap)
    → IsCurrent doc version h
    → 0 < k
    → k ≤ pos
    → pos ≤ length (get_working_text doc h)
    → length (get_working_text doc h) < word_mod
    → Writes doc
        (markdown_delete doc version pos (word_mod - k) h)
        (take pos (get_working_text doc h) ++ drop (pos - k) (get_working_text doc h))
delete-wraps doc version pos k h current = wrapped-result doc version h current pos k
