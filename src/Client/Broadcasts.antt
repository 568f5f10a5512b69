-- ===== src/Client/Broadcasts.antt =====
-- A broadcast is read whole, the pieces of its long lines included, and nothing behind it.
pub mod Pieces
pub mod Rounds
use collab_markdown_server.Base.{
  ℕ, zero, suc, ◌+◌, ◌-◌, ◌≤◌, ◌<◌, ◌≡◌, ◌≢◌, refl, ap, sym, ◌∙◌, subst, Bool, Bool-cases, inl, inr,
  true, false, ◌&&◌, List, [], ◌∷◌, ◌++◌, append_assoc, arith, length, length-append, length-take,
  length-drop, take, drop, take-append-drop, take-append, drop-length_le, drop-append_right, get_or,
  Text, codes, word_mod, ltb, ltb→lt, ltb→le,
}
use collab_markdown_server.Libc.Strings.{text_eq, text_eq_sound, starts_with}
use collab_markdown_server.Libc.Strings.Tokens.{is_token}
use collab_markdown_server.Libc.Numbers.{decimal}
use collab_markdown_server.Libc.Streams.{fgets, fgets-line, fgets_long, is_line}
use collab_markdown_server.Command.{
  CommandResult, command_result_to_string, cmd_success, reject_unauthorised,
  reject_invalid_position, reject_deleted_position, reject_outdated_version, reject_invalid_command,
}
use collab_markdown_server.ServerCore.{
  EditLogEntry, version_line, edit_line, end_line, build_payload,
}
use collab_markdown_server.ServerCore.Payload.{AreInts, edit_lines, payload_text, payload-whole}
use collab_markdown_server.Client.{broadcast_pieces, receive}
use collab_markdown_server.Client.Welcome.{decimal-is_line}
use collab_markdown_server.Libc.Numbers.RoundTrip.{decimal-length}
use collab_markdown_server.Client.Broadcasts.Pieces.{
  join, result-NotEnd, Reads, Reads-end, Reads-line,
}

-- No newline in the users and commands of the log.
unfoldable pub are_lines : List EditLogEntry → Bool
are_lines [] = true
are_lines (e ∷ rest) = is_line e.user && (is_line e.command && are_lines rest)

are_lines-cons :
    (e : EditLogEntry) (rest : List EditLogEntry)
    → are_lines (e ∷ rest) ≡ true
    → (is_line e.user ≡ true) × (is_line e.command ≡ true) × (are_lines rest ≡ true)
unfolding are_lines
are_lines-cons e rest h = (ground arith, ground arith, ground arith)

append-is_line : (a b : Text) → is_line a ≡ true → is_line b ≡ true → is_line (a ++ b) ≡ true
unfolding is_token
append-is_line [] b h h' = h'
append-is_line (c ∷ a) b h h' = ground (arith, append-is_line a b)

result-is_line : (r : CommandResult) → is_line (command_result_to_string r) ≡ true
unfolding command_result_to_string is_token
result-is_line cmd_success = refl
result-is_line reject_unauthorised = refl
result-is_line reject_invalid_position = refl
result-is_line reject_deleted_position = refl
result-is_line reject_outdated_version = refl
result-is_line reject_invalid_command = refl

-- An EDIT line without its newline: what stands before the result, and the result.
abbrev edit_front : EditLogEntry → Text
edit_front e = (codes "EDIT " ++ (e.user ++ (b' ' ∷ e.command))) ++ (b' ' ∷ [])

edit_line-append :
    (e : EditLogEntry) (s : Text)
    → edit_line e ++ s ≡ (edit_front e ++ command_result_to_string e.result) ++ (b'\n' ∷ s)
unfolding edit_line
edit_line-append e s = simp (append_assoc)

edit_front-is_line :
    (e : EditLogEntry)
    → is_line e.user ≡ true
    → is_line e.command ≡ true
    → is_line (edit_front e) ≡ true
edit_front-is_line e user command =
    append-is_line (codes "EDIT " ++ (e.user ++ (b' ' ∷ e.command))) (b' ' ∷ [])
      (append-is_line (codes "EDIT ") (e.user ++ (b' ' ∷ e.command)) (unfold is_token in refl) (
        append-is_line e.user (b' ' ∷ e.command) user
          (append-is_line (b' ' ∷ []) e.command (unfold is_token in refl) command)))
      (unfold is_token in refl)

Reads-edit_line :
    (e : EditLogEntry) (s text later : Text)
    → is_line e.user ≡ true
    → is_line e.command ≡ true
    → Reads s text later
    → Reads (edit_line e ++ s) (edit_line e ++ text) later
Reads-edit_line e s text later user command next =
    let l = edit_front e ++ command_result_to_string e.result in
    rw (edit_line-append e s, edit_line-append e text)
      (Reads-line (length l) l s text later (omega arith)
        (append-is_line (edit_front e) (command_result_to_string e.result)
          (edit_front-is_line e user command) (result-is_line e.result))
        (result-NotEnd (edit_front e) e.result) next)

Reads-edit_lines :
    (entries : List EditLogEntry) (later : Text)
    → are_lines entries ≡ true
    → Reads (edit_lines entries ++ later) (edit_lines entries) later
unfolding edit_lines
Reads-edit_lines [] later h = Reads-end later
Reads-edit_lines (e ∷ rest) later h =
    let (user, command, others) = are_lines-cons e rest h in
    rw (append_assoc (edit_line e) (edit_lines rest) later) (
      Reads-edit_line e (edit_lines rest ++ later) (edit_lines rest) later user command
        (Reads-edit_lines rest later others))

payload_text-append :
    (entries : List EditLogEntry) (version : ℕ) (later : Text)
    → payload_text entries version ++ later
      ≡ codes "VERSION " ++ (decimal version ++ (b'\n' ∷ (edit_lines entries ++ later)))
unfolding version_line
payload_text-append entries version later = simp (append_assoc)

receive-version :
    (number rest later : Text) (pieces : List Text)
    → is_line number ≡ true
    → length number ≤ 21
    → broadcast_pieces (length rest) rest ≡ (pieces, later)
    → receive (codes "VERSION " ++ (number ++ (b'\n' ∷ rest)))
      ≡ ((codes "VERSION " ++ (number ++ codes "\n")) ∷ pieces, later)
unfolding receive starts_with
receive-version number rest later pieces h short run =
    rw
      (
        fgets-line 511 (codes "VERSION " ++ number) rest
            (append-is_line (codes "VERSION ") number (unfold is_token in refl) h)
            (omega (arith, length-append (codes "VERSION ") number)),
        run,
      )
      refl

-- The broadcast of a commit is read whole by the client that receives it, in pieces that put
-- together are its text, and nothing of what the server writes later is: for a broadcast of less
-- than 2^64 - 1 bytes whose lines are of less than 2^31 bytes and whose users and commands have no
-- newline.
pub receive-build_payload :
    (entries : List EditLogEntry) (version : ℕ) (later : Text)
    → version < word_mod
    → AreInts entries
    → length (payload_text entries version) + 1 < word_mod
    → are_lines entries ≡ true
    → (pieces : List Text) × (receive (build_payload entries version ++ later) ≡ (pieces, later))
      × (join pieces ≡ build_payload entries version)
unfolding version_line
receive-build_payload entries version later fits ints room h =
    let (pieces, run, whole) =
      Reads-edit_lines entries later h (length (edit_lines entries ++ later)) (omega arith) in
    (
      version_line version ∷ pieces,
      rw
          (
            (payload-whole entries version fits ints room).1,
            payload_text-append entries version later,
          )
          (receive-version (decimal version) (edit_lines entries ++ later) later pieces
            (decimal-is_line version) (decimal-length version fits) run),
      rw ((payload-whole entries version fits ints room).1) (ap (version_line version ++◌) whole),
    )
