-- ===== src/ServerCore.antt =====
-- src/server_core.c and include/server_core.h: one document, the version that the server counts, and
-- the log of the edits since the last commit.
pub mod Payload
pub mod Session
pub mod Spec
use collab_markdown_server.Base.{
  ◌^◌, sub64, word_mod, ℕ, ◌+◌, ◌-◌, ◌&&◌, Bool, true, false, Option, none, some, List, [], ◌∷◌,
  ◌++◌, ltb, ◌==◌, if◌then◌else◌, length, take, Text, codes, byte_at, add64,
}
use collab_markdown_server.Libc.Numbers.{decimal}
use collab_markdown_server.Markdown.Document.{Document, Heap}
use collab_markdown_server.Markdown.Version.{
  markdown_free, markdown_init, markdown_flatten, markdown_increment_version,
}
use collab_markdown_server.Command.{
  UserRole, CommandResult, reject_invalid_command, command_execute, command_result_to_string,
}

pub record EditLogEntry : Type 0 where
  pub user : Text
  pub command : Text
  pub result : CommandResult

-- The list from `pending_head` to `pending_tail`; `doc` is the address of the document.
pub record ServerCore : Type 0 where
  pub doc : ℕ
  pub current_version : ℕ
  pub entries : List EditLogEntry
  pub pending_count : ℕ

unfoldable pub copy_without_trailing_newline : Text → Text
copy_without_trailing_newline s =
    let n = length s in take (if ltb 0 n && byte_at s (n - 1) == b'\n' then n - 1 else n) s

unfoldable pub append_log_entry : ServerCore → Text → Text → CommandResult → ServerCore
append_log_entry core user line result = record core {
  entries =
      core.entries
      ++ (record { user = user; command = copy_without_trailing_newline line; result = result }
          ∷ []);
  pending_count = add64 core.pending_count 1;
}

-- `doc` is the address that `calloc` returns for the document.
unfoldable pub server_core_init : ℕ → Heap → ServerCore × Heap
server_core_init doc h = (
  record { doc = doc; current_version = 0; entries = []; pending_count = 0 },
  markdown_init doc h,
)

unfoldable pub server_core_submit :
    ServerCore → Option Text → UserRole → Option Text → Heap → CommandResult × ServerCore × Heap
server_core_submit core none role line h = (reject_invalid_command, core, h)
server_core_submit core (some user) role none h = (reject_invalid_command, core, h)
server_core_submit core (some user) role (some line) h =
    let (result, h') = command_execute core.doc core.current_version role (some line) h in
    (result, append_log_entry core user line result, h')

-- "VERSION %llu\n"
unfoldable pub version_line : ℕ → Text
version_line version = codes "VERSION " ++ (decimal version ++ codes "\n")

-- "EDIT %s %s %s\n"
unfoldable pub edit_line : EditLogEntry → Text
edit_line e =
    codes "EDIT "
    ++ (e.user
        ++ (b' ' ∷ (e.command ++ (b' ' ∷ (command_result_to_string e.result ++ codes "\n")))))

abbrev pub end_line : Text
end_line = codes "END\n"

-- (size_t)snprintf(…) for the text of the format: the int that it returns, which is -1 where the text
-- is longer than INT_MAX.
unfoldable pub printed_size : Text → ℕ
printed_size text = if ltb (length text) (2 ^ 31) then length text else word_mod - 1

-- The loop that adds up the results for the EDIT lines.
unfoldable pub entries_size : ℕ → List EditLogEntry → ℕ
entries_size total [] = total
entries_size total (e ∷ rest) = entries_size (add64 total (printed_size (edit_line e))) rest

unfoldable pub broadcast_payload_size : List EditLogEntry → ℕ → ℕ
broadcast_payload_size entries next_version =
    add64 (entries_size (add64 0 (printed_size (version_line next_version))) entries)
      (length end_line)

-- snprintf(payload + off, size + 1 - off, …): what it writes of the text, without the NUL. For a text
-- longer than INT_MAX that is not specified; it is taken to be as much as fits.
abbrev snprintf_at : ℕ → ℕ → Text → Text
snprintf_at size off text = take (sub64 (add64 size 1) off - 1) text

-- The loop that writes the EDIT lines, and the END line behind them.
unfoldable pub write_entries : ℕ → ℕ → List EditLogEntry → Text
write_entries size off [] = snprintf_at size off end_line
write_entries size off (e ∷ rest) =
    snprintf_at size off (edit_line e)
    ++ write_entries size (add64 off (printed_size (edit_line e))) rest

unfoldable pub build_payload : List EditLogEntry → ℕ → Text
build_payload entries next_version =
    let size = broadcast_payload_size entries next_version in
    snprintf_at size 0 (version_line next_version)
    ++ write_entries size (add64 0 (printed_size (version_line next_version))) entries

-- `core->doc->current_version`
abbrev pub document_version : ℕ → Heap → ℕ
document_version doc h = elim (h.documents doc) [ none ↦ 0 | some d ↦ d.current_version ]

-- The branch on `pending_count`.
unfoldable pub commit_pending : ServerCore → Heap → ServerCore × Heap
commit_pending core h =
    if ltb 0 core.pending_count
    then (let h' = markdown_increment_version core.doc h in
        (record core { current_version = document_version core.doc h' }, h'))
    else (core, h)

unfoldable pub server_core_commit : ServerCore → Heap → Text × ServerCore × Heap
server_core_commit core h =
    let (core', h') = commit_pending core h in
    (
      build_payload core'.entries core'.current_version,
      record core' { entries = []; pending_count = 0 },
      h',
    )

unfoldable pub server_core_flatten_doc : ServerCore → Heap → Option Text
server_core_flatten_doc core h = markdown_flatten core.doc h

-- The log and the core itself are memory that is released.
unfoldable pub server_core_free : ServerCore → Heap → Heap
server_core_free core h = markdown_free core.doc h
