-- ===== src/Command/Rejections.antt =====
-- Who may change the document, and what a rejected command leaves behind.
use collab_markdown_server.Base.{
  ℕ, ◌≡◌, ◌≢◌, refl, ◌⊎◌, inl, inr, false, ◌&&◌, not, Bool-cases, Option, none, some, arith, Text,
  Option-cases,
}
use collab_markdown_server.Markdown.Document.{Heap, pending}
use collab_markdown_server.Markdown.Monad.{Status, Outcome, ok, fail}
use collab_markdown_server.Markdown.Edit.{Edit, markdown_edit}
use collab_markdown_server.Markdown.Edit.Atomic.{edit_atomic}
use collab_markdown_server.Markdown.Edit.Staged.{documents-edit}
use collab_markdown_server.Markdown.Edit.Wrapped.{committed}
use collab_markdown_server.Markdown.Stage.Fits.{Fits}
use collab_markdown_server.Command.{
  UserRole, role_read, CommandResult, cmd_success, reject_unauthorised, reject_invalid_command,
  is_write_command, map_markdown_result, parse_edit, run_edit, run_words, command_execute,
  validate_raw_command_line, next_word, copy_without_trailing_newline, is_live, is_writer,
}

-- Every command that the ladder knows is a write command.
parse_edit-writes : (cmd save : Text) → is_write_command cmd ≡ false → parse_edit cmd save ≡ none
unfolding is_write_command parse_edit
parse_edit-writes cmd save h = ground arith

-- The heap is as it was, and the result is one of the two.
abbrev Refused : Heap → CommandResult × Heap → Type 0
Refused h r = (r.1 ≡ h) × ((r.0 ≡ reject_unauthorised) ⊎ (r.0 ≡ reject_invalid_command))

run_words-Refused :
    (doc version : ℕ) (words : Option Text × Text) (h : Heap)
    → Refused h (run_words doc version role_read words h)
unfolding run_words run_edit
run_words-Refused doc version (none, save) h = (refl, inr refl)
run_words-Refused doc version (some cmd, save) h = elim (Bool-cases (is_write_command cmd)) [
  | inl e ↦ rw e (refl, inl refl)
  | inr e ↦ rw (e, parse_edit-writes cmd save e) (refl, inr refl)
]

-- A reader's command is rejected, as unauthorised or as invalid, and changes nothing.
pub reader-changes_nothing :
    (doc version : ℕ) (line : Option Text) (h : Heap)
    → ((command_execute doc version role_read line h).1 ≡ h)
      × (((command_execute doc version role_read line h).0 ≡ reject_unauthorised)
          ⊎ ((command_execute doc version role_read line h).0 ≡ reject_invalid_command))
unfolding command_execute
reader-changes_nothing doc version none h = (refl, inr refl)
reader-changes_nothing doc version (some line) h =
    elim (Bool-cases (is_live doc h && validate_raw_command_line (some line))) [
      | inl e ↦
          rw e (run_words-Refused doc version (next_word (copy_without_trailing_newline line)) h)
      | inr e ↦ rw e (refl, inr refl)
    ]

map-success :
    (r : Outcome (Unit {0})) → map_markdown_result r ≢ cmd_success → (s : Status) × (r ≡ fail s)
unfolding map_markdown_result
map-success (ok a) ne = absurd (ne refl)
map-success (fail s) ne = (s, refl)

module _ (doc version : ℕ) (h : Heap) (fits : Fits (committed doc h) (pending doc h.op_lists)) where
  run_edit-rejected :
      (e : Option Edit)
      → (run_edit doc version e h).0 ≢ cmd_success
      → (run_edit doc version e h).1 ≡ h
  unfolding run_edit
  run_edit-rejected none ne = refl
  run_edit-rejected (some e) ne =
      let (s, failed) = map-success (markdown_edit doc version e h).0 ne in
      edit_atomic doc version e h s fits failed

  run_words-rejected :
      (role : UserRole) (words : Option Text × Text)
      → (run_words doc version role words h).0 ≢ cmd_success
      → (run_words doc version role words h).1 ≡ h
  unfolding run_words
  run_words-rejected role (none, save) ne = refl
  run_words-rejected role (some cmd, save) ne =
      elim (Bool-cases (is_write_command cmd && not (is_writer role))) [
        | inl e ↦ rw e refl
        | inr e ↦ rw e (run_edit-rejected (parse_edit cmd save) (rw e at ne))
      ]

  execute-rejected :
      (role : UserRole) (line : Option Text)
      → (command_execute doc version role line h).0 ≢ cmd_success
      → (command_execute doc version role line h).1 ≡ h
  unfolding command_execute
  execute-rejected role none ne = refl
  execute-rejected role (some line) ne =
      elim (Bool-cases (is_live doc h && validate_raw_command_line (some line))) [
        | inl e ↦ rw e (run_words-rejected role _ (rw e at ne))
        | inr e ↦ rw e refl
      ]

-- Over pending operations that fit, a command that is not successful has changed nothing.
pub rejected-changes_nothing :
    (doc version : ℕ) (role : UserRole) (line : Option Text) (h : Heap)
    → Fits (committed doc h) (pending doc h.op_lists)
    → (command_execute doc version role line h).0 ≢ cmd_success
    → (command_execute doc version role line h).1 ≡ h
rejected-changes_nothing doc version role line h fits =
    execute-rejected doc version h fits role line

run_words-documents :
    (doc version : ℕ) (role : UserRole) (words : Option Text × Text) (h : Heap)
    → (run_words doc version role words h).1.documents ≡ h.documents
unfolding run_words run_edit
run_words-documents doc version role (none, save) h = refl
run_words-documents doc version role (some cmd, save) h =
    elim (Bool-cases (is_write_command cmd && not (is_writer role))) [
      | inl e ↦ rw e refl
      | inr e ↦ elim (Option-cases (parse_edit cmd save)) [
        | inl p ↦ rw (e, p) refl
        | inr (edit, p) ↦ rw (e, p) (documents-edit doc version edit h)
      ]
    ]

-- No command changes a document on the heap: what is visible, and its version, wait for a commit.
pub documents-execute :
    (doc version : ℕ) (role : UserRole) (line : Option Text) (h : Heap)
    → (command_execute doc version role line h).1.documents ≡ h.documents
unfolding command_execute
documents-execute doc version role none h = refl
documents-execute doc version role (some line) h =
    elim (Bool-cases (is_live doc h && validate_raw_command_line (some line))) [
      | inl e ↦ rw e (run_words-documents doc version role _ h)
      | inr e ↦ rw e refl
    ]
