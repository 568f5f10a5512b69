-- ===== src/ServerCore/Spec/Executed.antt =====
-- A command executed where nothing is pending does to the text what is promised.
use collab_markdown_server.Base.{
  ℕ, ◌+◌, ◌<◌, ◌≡◌, ◌≢◌, refl, ◌⊎◌, inl, inr, true, ◌&&◌, not, Bool-cases, Option, none, some, [],
  length, Text, word_mod,
}
use collab_markdown_server.Markdown.Renumber.{renumber_ordered_lists}
use collab_markdown_server.Markdown.Renumber.Laws.{renumber-eq-lines}
use collab_markdown_server.Markdown.Document.{Heap, pending}
use collab_markdown_server.Markdown.Working.{get_working_text}
use collab_markdown_server.Markdown.Monad.{Outcome}
use collab_markdown_server.Markdown.Stage.{IsCurrent}
use collab_markdown_server.Markdown.Edit.{Edit, markdown_edit}
use collab_markdown_server.Markdown.Edit.Spec.Obeyed.{Obeys, edit-Obeys}
use collab_markdown_server.Command.{
  UserRole, CommandResult, cmd_success, is_write_command, is_writer, map_markdown_result,
  parse_edit, run_edit, run_words, next_word, copy_without_trailing_newline,
  validate_raw_command_line, is_live, command_execute,
}
use collab_markdown_server.ServerCore.Spec.{edited, edit_result, words_result, command_text}

-- The answer is the promised one. After a success the working text, renumbered, is the promised
-- text; otherwise the promised text is the old one.
abbrev pub Executes : ℕ → Text → CommandResult × Text → CommandResult × Heap → Type 0
Executes doc text (result, promised) (answer, h) =
    (answer ≡ result)
    × (((result ≡ cmd_success) × (renumber_ordered_lists (get_working_text doc h) ≡ promised))
        ⊎ ((result ≢ cmd_success) × (promised ≡ text)))

edited-Executes :
    (doc : ℕ) (text : Text) (new : Option Text) (r : Outcome (Unit {0}) × Heap)
    → Obeys doc new r
    → Executes doc text (edited text new) (map_markdown_result r.0, r.1)
unfolding map_markdown_result
edited-Executes doc text none (r, h) refused = rw refused (refl, inr ((λ e. cc), refl))
edited-Executes doc text (some new) (r, h) (done, left) =
    rw (done, left) (refl, inl (refl, renumber-eq-lines new))

module _ (doc version : ℕ) (h : Heap) (current : IsCurrent doc version h)
    (clear : pending doc h.op_lists ≡ [])
    (room : length (get_working_text doc h) + 1 < word_mod) where
  abbrev working : Text
  working = get_working_text doc h

  edit-Executes :
      (e : Option Edit) → Executes doc working (edit_result e working) (run_edit doc version e h)
  unfolding run_edit
  edit-Executes none = (refl, inr ((λ e. cc), refl))
  edit-Executes (some e) =
      edited-Executes doc working _ (markdown_edit doc version e h)
        (edit-Obeys doc version e h current clear room)

  words-Executes :
      (role : UserRole) (words : Option Text × Text)
      → Executes doc working (words_result role words working) (run_words doc version role words h)
  unfolding run_words
  words-Executes role (none, save) = (refl, inr ((λ e. cc), refl))
  words-Executes role (some cmd, save) =
      elim (Bool-cases (is_write_command cmd && not (is_writer role))) [
        | inl barred ↦ rw barred (refl, inr ((λ e. cc), refl))
        | inr allowed ↦ rw allowed (edit-Executes (parse_edit cmd save))
      ]

  pub execute-Executes :
      (role : UserRole) (line : Text)
      → is_live doc h ≡ true
      → Executes doc working
          (command_text role line working)
          (command_execute doc version role (some line) h)
  unfolding command_text command_execute
  execute-Executes role line live = elim (Bool-cases (validate_raw_command_line (some line))) [
    | inl valid ↦
        rw (live, valid) (words-Executes role (next_word (copy_without_trailing_newline line)))
    | inr invalid ↦ rw (live, invalid) (refl, inr ((λ e. cc), refl))
  ]
