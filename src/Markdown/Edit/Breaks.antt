-- ===== src/Markdown/Edit/Breaks.antt =====
-- NEWLINE and ORDERED_LIST, which replace a space at the position.
use collab_markdown_server.Base.{
  ℕ, ◌+◌, ◌≤◌, ◌<◌, ◌≡◌, refl, ◌∙◌, ap, ◌⊎◌, inl, inr, Bool, true, false, ◌&&◌, some, ◌++◌, arith,
  ltb, leb, leb→le, leb→lt, le→leb, lt→leb, le→ltb, ◌==◌, if◌then◌else◌, Bool-cases, length, take,
  drop, Text, codes, byte_at, add64_small, word_mod, take-append, drop-append, length-take,
}
use collab_markdown_server.Markdown.Document.{op_delete, Heap, enqueue_op}
use collab_markdown_server.Markdown.Working.{get_working_text}
use collab_markdown_server.Markdown.Working.Laws.{
  working-enqueue_insert, working-enqueue_delete, length-cut,
}
use collab_markdown_server.Markdown.Monad.{ok, fail, invalid_cursor_pos}
use collab_markdown_server.Markdown.Stage.{IsCurrent}
use collab_markdown_server.Markdown.Edit.{markdown_delete, markdown_newline, markdown_ordered_list}
use collab_markdown_server.Markdown.Edit.Runs.{
  validate-current, insert-runs, delete-runs, enqueue-IsCurrent,
}
use collab_markdown_server.Markdown.Edit.Splice.{Writes}
use collab_markdown_server.Markdown.Edit.Blocks.{insert_block, insert_block-Writes, with_block}

-- The position stands before a space.
abbrev pub at_space : ℕ → Text → Bool
at_space pos w = ltb pos (length w) && byte_at w pos == b' '

abbrev pub without_space : ℕ → Text → Text
without_space pos w = if at_space pos w then take pos w ++ drop (pos + 1) w else w

at_space-lt : (pos : ℕ) (w : Text) → at_space pos w ≡ true → pos < length w
at_space-lt pos w e = ground arith

take-cut :
    (pos : ℕ) (w : Text) → pos ≤ length w → take pos (take pos w ++ drop (pos + 1) w) ≡ take pos w
take-cut pos w fits = take-append pos (take pos w) _ (omega (arith, length-take pos w))

drop-cut :
    (pos : ℕ) (w : Text)
    → pos ≤ length w
    → drop pos (take pos w ++ drop (pos + 1) w) ≡ drop (pos + 1) w
drop-cut pos w fits = drop-append pos (take pos w) _ (omega (arith, length-take pos w))

module _ (doc version : ℕ) (h : Heap) (current : IsCurrent doc version h) where
  delete_one-runs :
      (pos : ℕ)
      → pos < length (get_working_text doc h)
      → length (get_working_text doc h) < word_mod
      → markdown_delete doc version pos 1 h ≡ (ok tt, enqueue_op doc (op_delete pos 1) h)
  delete_one-runs pos within space = rw (
    delete-runs doc version h current pos 1 (omega arith) (omega arith),
    add64_small pos 1 (omega arith),
    le→ltb (length (get_working_text doc h)) (pos + 1) (omega arith),
  )

  newline-before_space :
      (pos : ℕ)
      → length (get_working_text doc h) < word_mod
      → at_space pos (get_working_text doc h) ≡ true
      → Writes doc (markdown_newline doc version pos h) (
          take pos (get_working_text doc h)
          ++ (codes "\n" ++ drop (pos + 1) (get_working_text doc h)))
  unfolding markdown_newline
  newline-before_space pos space e =
      let w = get_working_text doc h in
      let k = enqueue_op doc (op_delete pos 1) h in
      let within : pos < length w = at_space-lt pos w e in
      let cut : get_working_text doc k ≡ take pos w ++ drop (pos + 1) w =
        working-enqueue_delete doc pos 1 h (omega arith) space in
      let fits : pos ≤ length (get_working_text doc k) =
        omega (arith, ap length cut, length-cut pos 1 w (omega arith)) in
      rw
        (
          validate-current doc version h current,
          le→leb pos (length w) (omega arith),
          e,
          delete_one-runs pos within space,
          insert-runs doc version k (enqueue-IsCurrent doc version h current _) pos
              (some (codes "\n")) fits,
        )
        (
          refl,
          working-enqueue_insert doc pos (codes "\n") k fits
              ∙ rw (cut, take-cut pos w (omega arith), drop-cut pos w (omega arith)),
        )

  newline-elsewhere :
      (pos : ℕ)
      → pos ≤ length (get_working_text doc h)
      → at_space pos (get_working_text doc h) ≡ false
      → Writes doc
          (markdown_newline doc version pos h)
          (take pos (get_working_text doc h) ++ (codes "\n" ++ drop pos (get_working_text doc h)))
  unfolding markdown_newline
  newline-elsewhere pos fits e =
      rw
        (
          validate-current doc version h current,
          le→leb pos _ fits,
          e,
          insert-runs doc version h current pos (some (codes "\n")) fits,
        )
        (refl, working-enqueue_insert doc pos (codes "\n") h fits)

  newline-rejected :
      (pos : ℕ)
      → length (get_working_text doc h) < pos
      → markdown_newline doc version pos h ≡ (fail invalid_cursor_pos, h)
  unfolding markdown_newline
  newline-rejected pos beyond = rw (validate-current doc version h current, lt→leb _ _ beyond)

  ordered_list-before_space :
      (pos : ℕ)
      → length (get_working_text doc h) < word_mod
      → at_space pos (get_working_text doc h) ≡ true
      → Writes doc (markdown_ordered_list doc version pos h) (
          with_block pos
            (codes "1. ")
            (take pos (get_working_text doc h) ++ drop (pos + 1) (get_working_text doc h)))
  unfolding markdown_ordered_list
  ordered_list-before_space pos space e =
      let w = get_working_text doc h in
      let k = enqueue_op doc (op_delete pos 1) h in
      let within : pos < length w = at_space-lt pos w e in
      let cut : get_working_text doc k ≡ take pos w ++ drop (pos + 1) w =
        working-enqueue_delete doc pos 1 h (omega arith) space in
      let fits : pos ≤ length (get_working_text doc k) =
        omega (arith, ap length cut, length-cut pos 1 w (omega arith)) in
      rw
        (
          validate-current doc version h current,
          le→leb pos (length w) (omega arith),
          e,
          delete_one-runs pos within space,
          ← cut,
        )
        (unfold insert_block in
          insert_block-Writes doc version k (enqueue-IsCurrent doc version h current _) pos
            (codes "1. ") fits (omega (arith, ap length cut, length-cut pos 1 w (omega arith))))

  ordered_list-elsewhere :
      (pos : ℕ)
      → pos ≤ length (get_working_text doc h)
      → length (get_working_text doc h) + 1 < word_mod
      → at_space pos (get_working_text doc h) ≡ false
      → Writes doc
          (markdown_ordered_list doc version pos h)
          (with_block pos (codes "1. ") (get_working_text doc h))
  unfolding markdown_ordered_list
  ordered_list-elsewhere pos fits space e =
      rw (validate-current doc version h current, le→leb pos _ fits, e)
        (unfold insert_block in
          insert_block-Writes doc version h current pos (codes "1. ") fits space)

  ordered_list-rejected :
      (pos : ℕ)
      → length (get_working_text doc h) < pos
      → markdown_ordered_list doc version pos h ≡ (fail invalid_cursor_pos, h)
  unfolding markdown_ordered_list
  ordered_list-rejected pos beyond = rw (validate-current doc version h current, lt→leb _ _ beyond)

-- NEWLINE with the current version, a working text shorter than 2^64 bytes and a position within
-- it succeeds and puts a newline there, in place of a space if one follows the position; at any
-- other position it is rejected and nothing changes.
pub newline-Writes :
    (doc version pos : ℕ) (h : Heap)
    → IsCurrent doc version h
    → length (get_working_text doc h) < word_mod
    → ((pos ≤ length (get_working_text doc h))
        × Writes doc (markdown_newline doc version pos h) (
            take pos (get_working_text doc h)
            ++ (codes "\n"
                ++ drop
                    (if at_space pos (get_working_text doc h) then pos + 1 else pos)
                    (get_working_text doc h))))
      ⊎ ((length (get_working_text doc h) < pos)
          × (markdown_newline doc version pos h ≡ (fail invalid_cursor_pos, h)))
newline-Writes doc version pos h current space =
    elim (Bool-cases (leb pos (length (get_working_text doc h)))) [
      | inl fits ↦ elim (Bool-cases (at_space pos (get_working_text doc h))) [
        | inl e ↦
            inl (leb→le pos _ fits, rw e (newline-before_space doc version h current pos space e))
        | inr e ↦ inl (
          leb→le pos _ fits,
          rw e (newline-elsewhere doc version h current pos (leb→le pos _ fits) e),
        )
      ]
      | inr beyond ↦
          inr
            (leb→lt pos _ beyond, newline-rejected doc version h current pos (leb→lt pos _ beyond))
    ]

-- ORDERED_LIST with the current version, a working text shorter than 2^64 - 1 bytes and a
-- position within it succeeds: it takes a space that follows the position away, and puts "1. "
-- there, behind a newline where the position stands in the middle of a line. At any other
-- position it is rejected and nothing changes.
pub ordered_list-Writes :
    (doc version pos : ℕ) (h : Heap)
    → IsCurrent doc version h
    → length (get_working_text doc h) + 1 < word_mod
    → ((pos ≤ length (get_working_text doc h))
        × Writes doc
            (markdown_ordered_list doc version pos h)
            (with_block pos (codes "1. ") (without_space pos (get_working_text doc h))))
      ⊎ ((length (get_working_text doc h) < pos)
          × (markdown_ordered_list doc version pos h ≡ (fail invalid_cursor_pos, h)))
ordered_list-Writes doc version pos h current space =
    elim (Bool-cases (leb pos (length (get_working_text doc h)))) [
      | inl fits ↦ elim (Bool-cases (at_space pos (get_working_text doc h))) [
        | inl e ↦ inl (
          leb→le pos _ fits,
          rw e (ordered_list-before_space doc version h current pos (omega arith) e),
        )
        | inr e ↦ inl (
          leb→le pos _ fits,
          rw e (ordered_list-elsewhere doc version h current pos (leb→le pos _ fits) space e),
        )
      ]
      | inr beyond ↦ inr (
        leb→lt pos _ beyond,
        ordered_list-rejected doc version h current pos (leb→lt pos _ beyond),
      )
    ]
