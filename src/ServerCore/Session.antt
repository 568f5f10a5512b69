-- ===== src/ServerCore/Session.antt =====
-- The server submits one command and commits at once (src/server.c, in the loop of
-- `client_thread_main`, and src/server_demo.c), under the mutex. A session is a list of such rounds.
pub mod Rounds
pub mod Runs
use collab_markdown_server.Base.{
  ℕ, ◌+◌, ◌%◌, ◌<◌, ◌≡◌, ◌≢◌, refl, ap, sym, ◌∙◌, ◌⊎◌, inl, inr, Option, some, List, [], ◌∷◌, arith,
  length, Text, add64, word_mod,
}
use collab_markdown_server.Markdown.Renumber.{renumber_ordered_lists}
use collab_markdown_server.Markdown.Renumber.Idempotent.{renumber_idem}
use collab_markdown_server.Markdown.Document.{Document, Heap, pending}
use collab_markdown_server.Markdown.Working.{get_committed_text, get_working_text}
use collab_markdown_server.Markdown.Version.{markdown_flatten, markdown_increment_version}
use collab_markdown_server.Markdown.Version.Laws.{
  Committed, increment-Committed, init-IsFresh, flatten-live, working-empty,
}
use collab_markdown_server.Command.{
  UserRole, role_read, CommandResult, cmd_success, reject_unauthorised, reject_invalid_position,
  reject_deleted_position, reject_outdated_version, reject_invalid_command, command_execute,
}
use collab_markdown_server.Markdown.Edit.Wrapped.{committed}
use collab_markdown_server.Markdown.Stage.Fits.{Fits}
use collab_markdown_server.Command.Rejections.{
  reader-changes_nothing, documents-execute, rejected-changes_nothing,
}
use collab_markdown_server.ServerCore.{
  EditLogEntry, ServerCore, copy_without_trailing_newline, append_log_entry, server_core_init,
  server_core_submit, document_version, commit_pending, server_core_commit, build_payload,
  server_core_flatten_doc,
}

pub record Request : Type 0 where
  pub user : Text
  pub role : UserRole
  pub line : Text

pub record Answer : Type 0 where
  pub result : CommandResult
  pub payload : Text
  pub core : ServerCore
  pub heap : Heap

-- `server_core_submit` and `server_core_commit`
unfoldable pub round : ServerCore → Request → Heap → Answer
round core q h =
    let (result, core1, h1) = server_core_submit core (some q.user) q.role (some q.line) h in
    let (payload, core2, h2) = server_core_commit core1 h1 in
    record { result = result; payload = payload; core = core2; heap = h2 }

-- Between two rounds: the document is there at the server's version, nothing is staged or logged,
-- and the ordered lists of the visible text are numbered.
pub record IsReady (core : ServerCore) (h : Heap) : Type 0 where
  pub document : Document
  pub live : h.documents core.doc ≡ some document
  pub version : core.current_version ≡ document.current_version
  pub no_entries : core.entries ≡ []
  pub no_count : core.pending_count ≡ 0
  pub no_pending : pending core.doc h.op_lists ≡ []
  pub numbered :
      (text : Text) → markdown_flatten core.doc h ≡ some text → renumber_ordered_lists text ≡ text

-- What every round does to the server: it is ready for the next one with the next version (modulo
-- 2^64), and the broadcast holds that version and the one command with its user and its result.
pub record Advanced (core : ServerCore) (q : Request) (a : Answer) : Type 0 where
  pub ready : IsReady a.core a.heap
  pub same_document : a.core.doc ≡ core.doc
  pub version : a.core.current_version ≡ (core.current_version + 1) % word_mod
  pub broadcast :
      a.payload
      ≡ build_payload
          (record {
            user = q.user;
            command = copy_without_trailing_newline q.line;
            result = a.result;
          }
            ∷ [])
          a.core.current_version

-- The rounds of a list of requests, one after the other.
unfoldable pub serve : ServerCore → List Request → Heap → ServerCore × Heap
serve core [] h = (core, h)
serve core (q ∷ qs) h = let a = round core q h in serve a.core qs a.heap

-- The visible text of the server's document.
abbrev pub shown_text : ServerCore × Heap → Option Text
shown_text s = server_core_flatten_doc s.0 s.1

-- The requests all come from readers.
abbrev pub AreReaders : List Request → Type 0
AreReaders [] = Unit
AreReaders (q ∷ qs) = (q.role ≡ role_read) × AreReaders qs

-- What the requests of a list are answered.
unfoldable pub answers : ServerCore → List Request → Heap → List CommandResult
answers core [] h = []
answers core (q ∷ qs) h = let a = round core q h in a.result ∷ answers a.core qs a.heap
