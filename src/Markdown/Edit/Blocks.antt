-- ===== src/Markdown/Edit/Blocks.antt =====
-- NEWLINE, and the commands that put a tag before a block: HEADING, BLOCKQUOTE, ORDERED_LIST,
-- UNORDERED_LIST and HORIZONTAL_RULE.
use collab_markdown_server.Base.{
  ℕ, ◌+◌, ◌-◌, ◌≤◌, ◌<◌, ◌≡◌, refl, ◌∙◌, ap, ◌⊎◌, inl, inr, Bool, true, false, ◌&&◌, not, some,
  ◌++◌, arith, ltb, leb, leb→le, leb→lt, le→leb, lt→leb, ◌==◌, if◌then◌else◌, Bool-cases, length,
  take, drop, replicate, Text, codes, byte_at, add64_small, word_mod, take-splice, drop-splice,
  append_assoc,
}
use collab_markdown_server.Markdown.Document.{op_insert, Heap, enqueue_op}
use collab_markdown_server.Markdown.Working.{get_working_text, apply_single_op}
use collab_markdown_server.Markdown.Working.Laws.{
  working-enqueue_op, apply-insert, working-enqueue_insert, length-splice,
}
use collab_markdown_server.Markdown.Monad.{ok, fail, invalid_cursor_pos, M, ◌>>=◌}
use collab_markdown_server.Markdown.Stage.{IsCurrent}
use collab_markdown_server.Markdown.Edit.{
  markdown_insert, ensure_block_prefix_position, markdown_heading, markdown_blockquote,
  markdown_unordered_list, markdown_horizontal_rule, markdown_edit, Edit, blockquote,
  unordered_list, horizontal_rule, heading,
}
use collab_markdown_server.Markdown.Edit.Runs.{validate-current, insert-runs, enqueue-IsCurrent}
use collab_markdown_server.Markdown.Edit.Splice.{Writes}

-- The position stands in the middle of a line.
abbrev in_line : ℕ → Text → Bool
in_line pos w = ltb 0 pos && not (byte_at w (pos - 1) == b'\n')

abbrev block_tag : ℕ → Text → Text → Text
block_tag pos tag w = if in_line pos w then codes "\n" ++ tag else tag

-- The tag at `pos`, on a line of its own.
abbrev pub with_block : ℕ → Text → Text → Text
with_block pos tag w = take pos w ++ (block_tag pos tag w ++ drop pos w)

unfoldable pub insert_block : ℕ → ℕ → ℕ → Text → M (Unit {0})
insert_block doc version pos tag = do
  block_pos ← ensure_block_prefix_position doc version pos
  markdown_insert doc version block_pos (some tag)

splice-twice :
    (pos : ℕ) (s tag w : Text)
    → pos ≤ length w
    → length w + length s < word_mod
    → apply_single_op (take pos w ++ (s ++ drop pos w)) (op_insert (pos + length s) tag)
      ≡ take pos w ++ ((s ++ tag) ++ drop pos w)
splice-twice pos s tag w fits space =
    rw
      (
        apply-insert (take pos w ++ (s ++ drop pos w)) (pos + length s) tag
            (omega (arith, length-splice pos s w fits)),
        take-splice pos (pos + length s) s w fits refl,
        drop-splice pos (pos + length s) s w fits refl,
      )
      (simp append_assoc)

module _ (doc version : ℕ) (h : Heap) (current : IsCurrent doc version h) where
  ensure-in_line :
      (pos : ℕ)
      → pos ≤ length (get_working_text doc h)
      → length (get_working_text doc h) + 1 < word_mod
      → in_line pos (get_working_text doc h) ≡ true
      → ensure_block_prefix_position doc version pos h
        ≡ (ok (pos + 1), enqueue_op doc (op_insert pos (codes "\n")) h)
  unfolding ensure_block_prefix_position
  ensure-in_line pos fits space e = rw (
    validate-current doc version h current,
    le→leb pos _ fits,
    e,
    insert-runs doc version h current pos (some (codes "\n")) fits,
    add64_small pos 1 (omega arith),
  )

  ensure-at_start :
      (pos : ℕ)
      → pos ≤ length (get_working_text doc h)
      → in_line pos (get_working_text doc h) ≡ false
      → ensure_block_prefix_position doc version pos h ≡ (ok pos, h)
  unfolding ensure_block_prefix_position
  ensure-at_start pos fits e = rw (validate-current doc version h current, le→leb pos _ fits, e)

  ensure-rejected :
      (pos : ℕ)
      → length (get_working_text doc h) < pos
      → ensure_block_prefix_position doc version pos h ≡ (fail invalid_cursor_pos, h)
  unfolding ensure_block_prefix_position
  ensure-rejected pos beyond = rw (validate-current doc version h current, lt→leb _ _ beyond)

  line_break_room :
      (pos : ℕ)
      → pos ≤ length (get_working_text doc h)
      → pos + 1 ≤ length (get_working_text doc (enqueue_op doc (op_insert pos (codes "\n")) h))
  line_break_room pos fits = omega (
    arith,
    ap length (working-enqueue_insert doc pos (codes "\n") h fits),
    length-splice pos (codes "\n") (get_working_text doc h) fits,
  )

  pub insert_block-Writes :
      (pos : ℕ) (tag : Text)
      → pos ≤ length (get_working_text doc h)
      → length (get_working_text doc h) + 1 < word_mod
      → Writes doc
          (insert_block doc version pos tag h)
          (with_block pos tag (get_working_text doc h))
  unfolding insert_block
  insert_block-Writes pos tag fits space =
      elim (Bool-cases (in_line pos (get_working_text doc h))) [
        | inl e ↦
            let k = enqueue_op doc (op_insert pos (codes "\n")) h in
            rw
              (
                ensure-in_line pos fits space e,
                e,
                insert-runs doc version k (enqueue-IsCurrent doc version h current _) (pos + 1)
                    (some tag) (line_break_room pos fits),
              )
              (
                refl,
                working-enqueue_op doc (op_insert (pos + 1) tag) k
                    ∙ rw (working-enqueue_insert doc pos (codes "\n") h fits) (
                        splice-twice pos (codes "\n") tag (get_working_text doc h) fits
                          (omega arith)),
              )
        | inr e ↦
            rw
              (ensure-at_start pos fits e, e, insert-runs doc version h current pos (some tag) fits)
              (refl, working-enqueue_insert doc pos tag h fits)
      ]

  insert_block-rejected :
      (pos : ℕ) (tag : Text)
      → length (get_working_text doc h) < pos
      → insert_block doc version pos tag h ≡ (fail invalid_cursor_pos, h)
  unfolding insert_block
  insert_block-rejected pos tag beyond = rw (ensure-rejected pos beyond)

-- The commands that put a tag before a block, with their position and their tag.
pub data BlockEdit : Edit → ℕ → Text → Type 0 where
  is_blockquote : (pos : ℕ) → BlockEdit (blockquote pos) pos (codes "> ")
  is_unordered_list : (pos : ℕ) → BlockEdit (unordered_list pos) pos (codes "- ")
  is_horizontal_rule : (pos : ℕ) → BlockEdit (horizontal_rule pos) pos (codes "---\n")
  is_heading :
      (level pos : ℕ)
      → 1 ≤ level
      → level ≤ 3
      → BlockEdit (heading level pos) pos (replicate level b'#' ++ codes " ")

BlockEdit-insert_block :
    {e : Edit} {pos : ℕ} {tag : Text}
    → BlockEdit e pos tag
    → (doc version : ℕ) (h : Heap)
    → markdown_edit doc version e h ≡ insert_block doc version pos tag h
unfolding markdown_edit insert_block markdown_blockquote markdown_unordered_list
    markdown_horizontal_rule markdown_heading
BlockEdit-insert_block (is_blockquote pos) doc version h = refl
BlockEdit-insert_block (is_unordered_list pos) doc version h = refl
BlockEdit-insert_block (is_horizontal_rule pos) doc version h = refl
BlockEdit-insert_block (is_heading level pos low high) doc version h =
    rw (le→leb 1 level low, le→leb level 3 high)

-- BLOCKQUOTE, UNORDERED_LIST, HORIZONTAL_RULE and HEADING of level 1 to 3, with the current
-- version, a working text shorter than 2^64 - 1 bytes and a position within it, succeed and put
-- their tag there, behind a newline where the position stands in the middle of a line. At any
-- other position they are rejected and nothing changes.
pub block-Writes :
    {e : Edit} {pos : ℕ} {tag : Text} (doc version : ℕ) (h : Heap)
    → BlockEdit e pos tag
    → IsCurrent doc version h
    → length (get_working_text doc h) + 1 < word_mod
    → ((pos ≤ length (get_working_text doc h))
        × Writes doc (markdown_edit doc version e h) (with_block pos tag (get_working_text doc h)))
      ⊎ ((length (get_working_text doc h) < pos)
          × (markdown_edit doc version e h ≡ (fail invalid_cursor_pos, h)))
block-Writes {pos} {tag} doc version h block current space =
    rw (BlockEdit-insert_block block doc version h)
      (elim (Bool-cases (leb pos (length (get_working_text doc h)))) [
        | inl fits ↦ inl (
          leb→le pos _ fits,
          insert_block-Writes doc version h current pos tag (leb→le pos _ fits) space,
        )
        | inr beyond ↦ inr (
          leb→lt pos _ beyond,
          insert_block-rejected doc version h current pos tag (leb→lt pos _ beyond),
        )
      ])
