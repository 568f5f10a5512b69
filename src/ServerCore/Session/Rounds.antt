-- ===== src/ServerCore/Session/Rounds.antt =====
-- What one round does to the server and to the visible text.
use collab_markdown_server.Base.{
  ℕ, ◌+◌, ◌%◌, ◌<◌, ◌≡◌, ◌≢◌, refl, ap, sym, ◌∙◌, ◌⊎◌, inl, inr, Option, some, [], ◌∷◌, arith,
  length, Text, add64, word_mod,
}
use collab_markdown_server.Markdown.Renumber.{renumber_ordered_lists}
use collab_markdown_server.Markdown.Renumber.Idempotent.{renumber_idem}
use collab_markdown_server.Markdown.Document.{Document, Heap, pending}
use collab_markdown_server.Markdown.Working.{get_committed_text, get_working_text}
use collab_markdown_server.Markdown.Version.{markdown_flatten, markdown_increment_version}
use collab_markdown_server.Markdown.Version.Laws.{
  Committed, increment-Committed, flatten-live, working-empty,
}
use collab_markdown_server.Command.{
  CommandResult, cmd_success, reject_unauthorised, reject_invalid_position, reject_deleted_position,
  reject_outdated_version, reject_invalid_command, command_execute,
}
use collab_markdown_server.Markdown.Edit.Wrapped.{committed}
use collab_markdown_server.Markdown.Stage.Fits.{Fits}
use collab_markdown_server.Command.Rejections.{documents-execute, rejected-changes_nothing}
use collab_markdown_server.ServerCore.{
  EditLogEntry, ServerCore, copy_without_trailing_newline, append_log_entry, server_core_submit,
  document_version, commit_pending, server_core_commit, build_payload,
}
use collab_markdown_server.ServerCore.Session.{Request, round, IsReady, Advanced}

module _ (core : ServerCore) (q : Request) (h : Heap) (ready : IsReady core h) where
  abbrev executed : CommandResult × Heap
  executed = command_execute core.doc core.current_version q.role (some q.line) h

  abbrev pub entry : EditLogEntry
  entry = record {
    user = q.user;
    command = copy_without_trailing_newline q.line;
    result = executed.0;
  }

  abbrev pub after : Heap
  after = markdown_increment_version core.doc executed.1

  abbrev core_after : ServerCore
  core_after = record core {
    current_version = document_version core.doc after;
    entries = [];
    pending_count = 0;
  }

  -- What the round is, computed.
  pub round-runs : round core q h ≡ record {
    result = executed.0;
    payload = build_payload (entry ∷ []) (document_version core.doc after);
    core = core_after;
    heap = after;
  }
  unfolding round server_core_submit append_log_entry server_core_commit commit_pending add64
  round-runs = rw (ready.no_count, ready.no_entries)

  executed-live : executed.1.documents core.doc ≡ some ready.document
  executed-live =
      ap (λ (f : ℕ → Option Document). f core.doc)
        (documents-execute core.doc core.current_version q.role (some q.line) h)
      ∙ ready.live

  round-Committed :
      Committed core.doc ready.document
        (renumber_ordered_lists (get_working_text core.doc executed.1))
        executed.1
        after
  round-Committed = increment-Committed core.doc executed.1 ready.document executed-live

document_version-live :
    (doc : ℕ) (h : Heap) (d : Document)
    → h.documents doc ≡ some d
    → document_version doc h ≡ d.current_version
document_version-live doc h d live = ground (arith, live)

pub same_text : (a b : Text) → ◌≡◌ {A = Option Text} (some a) (some b) → b ≡ a
same_text a b e = cc

-- A round of a server that is ready, whatever the command and its result, leaves it ready for the
-- next one, on the same document and with the next version (modulo 2^64), and its broadcast is
-- the one of that version and of this command with its user and its result.
pub round-Advanced :
    (core : ServerCore) (q : Request) (h : Heap) → IsReady core h → Advanced core q (round core q h)
round-Advanced core q h ready =
    let c = round-Committed core q h ready in
    let v = document_version-live core.doc (after core q h ready) c.document c.live in
    rw (round-runs core q h ready) (record {
      ready = record {
        document = c.document;
        live = c.live;
        version = v;
        no_entries = refl;
        no_count = refl;
        no_pending = c.nothing_pending;
        numbered = λ text shown.
            let e = same_text _ text (sym c.visible ∙ shown) in
            ap renumber_ordered_lists e ∙ (renumber_idem _ ∙ sym e);
      };
      same_document = refl;
      version = v ∙ (c.version ∙ ap (λ (k : ℕ). (k + 1) % word_mod) (sym ready.version));
      broadcast = refl;
    })

success-cases : (r : CommandResult) → (r ≡ cmd_success) ⊎ (r ≢ cmd_success)
success-cases cmd_success = inl refl
success-cases reject_unauthorised = inr (λ e. cc)
success-cases reject_invalid_position = inr (λ e. cc)
success-cases reject_deleted_position = inr (λ e. cc)
success-cases reject_outdated_version = inr (λ e. cc)
success-cases reject_invalid_command = inr (λ e. cc)

module _ (core : ServerCore) (q : Request) (h : Heap) (ready : IsReady core h) (text : Text)
    (shown : markdown_flatten core.doc h ≡ some text) (room : length text + 1 < word_mod) where
  committed-shown : get_committed_text (some ready.document) ≡ text
  committed-shown = same_text text _ (sym shown ∙ flatten-live core.doc h ready.document ready.live)

  pub working-shown : get_working_text core.doc h ≡ text
  working-shown =
      working-empty core.doc h ready.document ready.live ready.no_pending ∙ committed-shown

  room-committed : length (committed core.doc h) + 1 < word_mod
  room-committed = rw (ap get_committed_text ready.live ∙ committed-shown) room

  ready-Fits : Fits (committed core.doc h) (pending core.doc h.op_lists)
  ready-Fits = rw ready.no_pending room-committed

  visible-rejected :
      (executed core q h ready).0 ≢ cmd_success
      → markdown_flatten core.doc (after core q h ready) ≡ some text
  visible-rejected rejected =
      let same =
        rejected-changes_nothing core.doc core.current_version q.role (some q.line) h ready-Fits
          rejected in
      (round-Committed core q h ready).visible
      ∙ (ap (λ (k : Heap). some (renumber_ordered_lists (get_working_text core.doc k))) same
          ∙ (ap (λ (t : Text). some (renumber_ordered_lists t)) working-shown
              ∙ ap some (ready.numbered text shown)))

-- What a round of a ready server with a visible text shorter than 2^64 - 1 bytes shows: after a
-- successful command the working text with the command applied, its ordered lists renumbered;
-- after any other one the text that was visible before it.
pub round-visible :
    (core : ServerCore) (q : Request) (h : Heap) (text : Text)
    → IsReady core h
    → markdown_flatten core.doc h ≡ some text
    → length text + 1 < word_mod
    → (((round core q h).result ≡ cmd_success)
        × (markdown_flatten core.doc (round core q h).heap
            ≡ some (
                renumber_ordered_lists (
                  get_working_text core.doc
                    (command_execute core.doc core.current_version q.role (some q.line) h).1))))
      ⊎ (((round core q h).result ≢ cmd_success)
          × (markdown_flatten core.doc (round core q h).heap ≡ some text))
round-visible core q h text ready shown room = elim (success-cases (executed core q h ready).0) [
  | inl e ↦ inl (rw (round-runs core q h ready) (e, (round-Committed core q h ready).visible))
  | inr ne ↦
      inr (rw (round-runs core q h ready) (ne, visible-rejected core q h ready text shown room ne))
]
