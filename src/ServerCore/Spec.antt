-- ===== src/ServerCore/Spec.antt =====
-- What the server promises, with neither a heap nor pending operations: one shared text and its
-- version, and each command a function of the text.
pub mod Executed
pub mod Refinement
pub mod Broadcasts
use collab_markdown_server.Base.{
  ℕ, ◌+◌, ◌%◌, ◌<◌, ◌≡◌, Bool, ◌&&◌, not, Option, none, some, List, [], ◌∷◌, if◌then◌else◌, length,
  Text, word_mod,
}
use collab_markdown_server.Markdown.Renumber.Lines.{split_lines, join_lines, number_items}
use collab_markdown_server.Markdown.Edit.{Edit}
use collab_markdown_server.Markdown.Edit.Spec.{edit_text}
use collab_markdown_server.Command.{
  UserRole, CommandResult, cmd_success, reject_unauthorised, reject_invalid_position,
  reject_invalid_command, is_write_command, is_writer, parse_edit, next_word,
  copy_without_trailing_newline, validate_raw_command_line,
}
use collab_markdown_server.ServerCore.Session.{Request}

-- The text with the items of each ordered list numbered from 1.
abbrev pub numbered : Text → Text
numbered text = join_lines (number_items 0 (split_lines text))

-- A refused edit keeps the old text.
abbrev pub edited : Text → Option Text → CommandResult × Text
edited text none = (reject_invalid_position, text)
edited text (some new) = (cmd_success, numbered new)

abbrev pub edit_result : Option Edit → Text → CommandResult × Text
edit_result none text = (reject_invalid_command, text)
edit_result (some e) text = edited text (edit_text e text)

abbrev pub words_result : UserRole → Option Text × Text → Text → CommandResult × Text
words_result role (none, save) text = (reject_invalid_command, text)
words_result role (some cmd, save) text =
    if is_write_command cmd && not (is_writer role)
    then (reject_unauthorised, text)
    else edit_result (parse_edit cmd save) text

-- The answer to a command line, and the text that everybody sees after it.
unfoldable pub command_text : UserRole → Text → Text → CommandResult × Text
command_text role line text =
    if validate_raw_command_line (some line)
    then words_result role (next_word (copy_without_trailing_newline line)) text
    else (reject_invalid_command, text)

pub record Shared : Type 0 where
  pub text : Text
  pub version : ℕ

abbrev pub nothing_shared : Shared
nothing_shared = record { text = []; version = 0 }

-- Every command makes a version, also one that is refused.
unfoldable pub spec_round : Shared → Request → CommandResult × Shared
spec_round s q =
    let (result, text) = command_text q.role q.line s.text in
    (result, record { text = text; version = (s.version + 1) % word_mod })

-- The answers to a list of requests, and what is shared after them.
unfoldable pub spec_serve : Shared → List Request → List CommandResult × Shared
spec_serve s [] = ([], s)
spec_serve s (q ∷ qs) =
    let (result, s1) = spec_round s q in
    let (results, s2) = spec_serve s1 qs in (result ∷ results, s2)

-- All the texts before the requests leave room for two more bytes in memory.
unfoldable pub HasRoom : Shared → List Request → Type 0
HasRoom s [] = Unit
HasRoom s (q ∷ qs) = (length s.text + 1 < word_mod) × HasRoom (spec_round s q).1 qs
