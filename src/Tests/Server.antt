-- ===== src/Tests/Server.antt =====
-- Examples for the commands and the server.
use collab_markdown_server.Base.{
  ◌+◌, ◌≤◌, ◌<◌, ◌≡◌, ◌≢◌, ◌⊎◌, refl, sym, ◌∙◌, true, none, some, [], ◌∷◌, ◌++◌, length, codes,
  arith, word_mod,
}
use collab_markdown_server.Libc.Numbers.{strtoul, decimal}
use collab_markdown_server.Libc.Strings.{text_eq, strtok}
use collab_markdown_server.Markdown.Document.{Heap, find_ops}
use collab_markdown_server.Markdown.Working.{get_committed_text, get_working_text}
use collab_markdown_server.Markdown.Edit.{Edit, insert, markdown_delete, markdown_edit}
use collab_markdown_server.Markdown.Version.{markdown_init, markdown_free, markdown_flatten}
use collab_markdown_server.Markdown.Stage.{check_version, validate_version_and_get_len}
use collab_markdown_server.Command.{
  role_read, role_write, cmd_success, reject_unauthorised, reject_invalid_command,
  reject_invalid_position, is_write_command, map_markdown_result, are_valid_bytes,
  validate_raw_command_line, copy_without_trailing_newline, two_sizes, parse_size, next_word,
  parse_edit, run_edit, run_words, command_execute, command_result_to_string, max_command_len,
}
use collab_markdown_server.Command.Rejections.{reader-changes_nothing, rejected-changes_nothing}
use collab_markdown_server.Command.Lines.{command_line, execute-line, are_printable}
use collab_markdown_server.Command.Negative.{delete_minus}
use collab_markdown_server.ServerCore.{
  EditLogEntry, ServerCore, server_core_init, server_core_free, version_line, edit_line,
  broadcast_payload_size, build_payload,
}
use collab_markdown_server.ServerCore.Payload.{AreInts, edit_lines, payload_text, payload-whole}
use collab_markdown_server.ServerCore.Session.{Request, round, IsReady, Advanced, serve}
use collab_markdown_server.ServerCore.Session.Rounds.{round-Advanced}
use collab_markdown_server.ServerCore.Session.Runs.{serve-version}
use collab_markdown_server.Tests.Sample.{heap, fits}

abbrev pub empty_heap : Heap
empty_heap = record { documents = λ a. none; op_lists = [] }

abbrev pub start : ServerCore × Heap
start = server_core_init 1 empty_heap

abbrev pub core : ServerCore
core = start.0

abbrev pub server_heap : Heap
server_heap = start.1

abbrev pub hello : Request
hello = record { user = codes "daniel"; role = role_write; line = codes "INSERT 0 Hello\n" }

abbrev by_reader : Request
by_reader = record { user = codes "yao"; role = role_read; line = codes "DEL 0 3\n" }

pub ready : IsReady core server_heap
unfolding find_ops server_core_init serve
ready = (serve-version 1 empty_heap [] refl).0

round-Advanced_example : Advanced core hello (round core hello server_heap)
round-Advanced_example = round-Advanced core hello server_heap ready

shows_nothing : markdown_flatten core.doc server_heap ≡ some []
unfolding markdown_flatten server_core_init markdown_init get_committed_text
shows_nothing = refl

abbrev edit : Edit
edit = insert 6 (codes "end of it")

edit-are_printable : are_printable (command_line edit) ≡ true
unfolding are_printable decimal
edit-are_printable = refl

edit-short : length (command_line edit) < max_command_len
unfolding decimal
edit-short = omega arith

execute-line_example :
    command_execute 1 3 role_write (some (command_line edit ++ (b'\n' ∷ []))) heap
    ≡ (map_markdown_result (markdown_edit 1 3 edit heap).0, (markdown_edit 1 3 edit heap).1)
execute-line_example =
    execute-line 1 3 edit heap refl (omega arith, λ e. cc) edit-are_printable edit-short

reader-changes_nothing_example :
    ((command_execute 1 3 role_read (some (codes "DEL 0 3\n")) heap).1 ≡ heap)
    × (((command_execute 1 3 role_read (some (codes "DEL 0 3\n")) heap).0 ≡ reject_unauthorised)
        ⊎ ((command_execute 1 3 role_read (some (codes "DEL 0 3\n")) heap).0
            ≡ reject_invalid_command))
reader-changes_nothing_example = reader-changes_nothing 1 3 (some (codes "DEL 0 3\n")) heap

beyond_end :
    (command_execute 1 3 role_write (some (codes "DEL 9 1\n")) heap).0 ≡ reject_invalid_position
unfolding command_execute validate_raw_command_line next_word run_words is_write_command parse_edit
    parse_size strtoul run_edit markdown_edit map_markdown_result are_valid_bytes strtok
    copy_without_trailing_newline text_eq two_sizes markdown_delete validate_version_and_get_len
    check_version get_working_text get_committed_text
beyond_end = refl

rejected : (command_execute 1 3 role_write (some (codes "DEL 9 1\n")) heap).0 ≢ cmd_success
rejected success = let e : reject_invalid_position ≡ cmd_success = sym beyond_end ∙ success in cc

rejected-changes_nothing_example :
    (command_execute 1 3 role_write (some (codes "DEL 9 1\n")) heap).1 ≡ heap
rejected-changes_nothing_example =
    rejected-changes_nothing 1 3 role_write (some (codes "DEL 9 1\n")) heap fits rejected

four_within : 4 ≤ length (get_working_text 1 heap)
unfolding get_working_text get_committed_text
four_within = omega arith

minus-are_printable : are_printable (delete_minus 4 2) ≡ true
unfolding are_printable decimal
minus-are_printable = refl

minus-short : length (delete_minus 4 2) < max_command_len
unfolding decimal
minus-short = omega arith

abbrev pub entry : EditLogEntry
entry = record { user = codes "daniel"; command = codes "INSERT 0 Hello"; result = cmd_success }

short_payload : length (payload_text (entry ∷ []) 1) + 1 < word_mod
unfolding edit_lines edit_line version_line decimal command_result_to_string
short_payload = omega arith

short_line : AreInts (entry ∷ [])
unfolding AreInts edit_line command_result_to_string
short_line = (omega arith, tt)

payload-whole_example :
    (broadcast_payload_size (entry ∷ []) 1 ≡ length (payload_text (entry ∷ []) 1))
    × (build_payload (entry ∷ []) 1 ≡ payload_text (entry ∷ []) 1)
payload-whole_example = payload-whole (entry ∷ []) 1 (omega arith) short_line short_payload

-- Freeing the core takes its document away.
freed : (server_core_free core server_heap).documents core.doc ≡ none
unfolding server_core_free server_core_init markdown_init markdown_free
freed = refl
