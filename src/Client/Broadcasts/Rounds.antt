-- ===== src/Client/Broadcasts/Rounds.antt =====
-- Every broadcast of the server is read whole by the clients.
use collab_markdown_server.Base.{
  ◌^◌, last_byte, ℕ, zero, suc, ◌+◌, ◌-◌, ◌%◌, ◌≤◌, ◌<◌, ◌≡◌, refl, ap, sym, ◌∙◌, subst, ◌⊎◌, inl,
  inr, Bool-cases, true, false, ◌&&◌, List, [], ◌∷◌, ◌++◌, arith, length, length-append,
  length-take, take, take-append, Text, codes, byte_at, ltb, lt→ltb, ◌==◌, if◌then◌else◌, word_mod,
}
use collab_markdown_server.Libc.Strings.Tokens.{is_token}
use collab_markdown_server.Libc.Numbers.{decimal}
use collab_markdown_server.Libc.Streams.{fgets, is_line}
use collab_markdown_server.Markdown.Document.{Heap}
use collab_markdown_server.Command.{
  CommandResult, command_result_to_string, cmd_success, reject_unauthorised,
  reject_invalid_position, reject_deleted_position, reject_outdated_version, reject_invalid_command,
}
use collab_markdown_server.ServerCore.{
  EditLogEntry, ServerCore, copy_without_trailing_newline, build_payload, version_line, edit_line,
  end_line,
}
use collab_markdown_server.ServerCore.Payload.{AreInts, edit_lines, payload_text, payload-whole}
use collab_markdown_server.ServerCore.Session.{Request, round, IsReady}
use collab_markdown_server.ServerCore.Session.Rounds.{round-Advanced}
use collab_markdown_server.Client.{receive}
use collab_markdown_server.Libc.Numbers.RoundTrip.{decimal-length}
use collab_markdown_server.Client.Broadcasts.{are_lines, receive-build_payload}
use collab_markdown_server.Client.Broadcasts.Pieces.{join}

take-is_line : (n : ℕ) (l : Text) → is_line l ≡ true → is_line (take n l) ≡ true
unfolding is_token
take-is_line zero l h = refl
take-is_line (suc n) [] h = refl
take-is_line (suc n) (c ∷ l) h = ground (arith, take-is_line n l)

-- fgets reads a line with its newline, or a text without one.
pub IsRead : Text → Type 0
IsRead s = ((l : Text) × (s ≡ l ++ (b'\n' ∷ [])) × (is_line l ≡ true)) ⊎ (is_line s ≡ true)

cons-IsRead : (c : ℕ) (s : Text) → (c == b'\n') ≡ false → IsRead s → IsRead (c ∷ s)
unfolding IsRead is_token
cons-IsRead c s other (inl (l, e, h)) = inl (c ∷ l, ap (c ∷◌) e, rw (other, h) refl)
cons-IsRead c s other (inr h) = inr (rw (other, h) refl)

pub fgets-IsRead : (n : ℕ) (s : Text) → IsRead (fgets n s).0
unfolding IsRead fgets is_token
fgets-IsRead zero s = inr refl
fgets-IsRead (suc n) [] = inr refl
fgets-IsRead (suc n) (c ∷ s) = elim (Bool-cases (c == b'\n')) [
  | inl end ↦
      let newline : c ≡ b'\n' = ground arith in
      rw end (inl ([], ap (λ (k : ℕ). k ∷ []) newline, refl))
  | inr other ↦ rw other (cons-IsRead c (fgets n s).0 other (fgets-IsRead n s))
]

pub fgets-length : (n : ℕ) (s : Text) → length (fgets n s).0 ≤ n
unfolding fgets
fgets-length zero s = omega arith
fgets-length (suc n) [] = omega arith
fgets-length (suc n) (c ∷ s) = elim (Bool-cases (c == b'\n')) [
  | inl end ↦ rw end (omega arith)
  | inr other ↦ rw other (omega (arith, fgets-length n s))
]

copy-line : (l : Text) → copy_without_trailing_newline (l ++ (b'\n' ∷ [])) ≡ l
unfolding copy_without_trailing_newline
copy-line l =
    let n : length (l ++ (b'\n' ∷ [])) ≡ suc (length l) =
      omega (arith, length-append l (b'\n' ∷ [])) in
    let m : suc (length l) - 1 ≡ length l = omega arith in
    rw (n, lt→ltb 0 (suc (length l)) (omega arith), m, last_byte l b'\n')
      (take-append (length l) l (b'\n' ∷ []) refl)

pub copy-is_line : (s : Text) → IsRead s → is_line (copy_without_trailing_newline s) ≡ true
unfolding IsRead
copy-is_line s (inl (l, e, h)) = rw (e, copy-line l) h
copy-is_line s (inr h) = unfold copy_without_trailing_newline in take-is_line _ s h

pub copy-length : (s : Text) → length (copy_without_trailing_newline s) ≤ length s
unfolding copy_without_trailing_newline
copy-length s = omega (
  arith,
  length-take
      (if ltb 0 (length s) && byte_at s (length s - 1) == b'\n' then length s - 1 else length s) s,
)

result-short : (r : CommandResult) → length (command_result_to_string r) ≤ 23
unfolding command_result_to_string
result-short cmd_success = omega arith
result-short reject_unauthorised = omega arith
result-short reject_invalid_position = omega arith
result-short reject_deleted_position = omega arith
result-short reject_outdated_version = omega arith
result-short reject_invalid_command = omega arith

payload-short :
    (e : EditLogEntry) (version : ℕ)
    → version < word_mod
    → length (payload_text (e ∷ []) version) ≤ length e.user + length e.command + 70
unfolding edit_lines edit_line version_line
payload-short e version fits =
    let r = command_result_to_string e.result in
    omega (
      arith,
      decimal-length version fits,
      result-short e.result,
      length-append (codes "VERSION " ++ (decimal version ++ codes "\n")) (
          (codes "EDIT " ++ (e.user ++ (b' ' ∷ (e.command ++ (b' ' ∷ (r ++ codes "\n"))))))
          ++ end_line),
      length-append
          (codes "EDIT " ++ (e.user ++ (b' ' ∷ (e.command ++ (b' ' ∷ (r ++ codes "\n"))))))
          end_line,
      length-append e.user (b' ' ∷ (e.command ++ (b' ' ∷ (r ++ codes "\n")))),
      length-append e.command (b' ' ∷ (r ++ codes "\n")),
      length-append r (codes "\n"),
      length-append (decimal version) (codes "\n"),
    )

-- The broadcast of one command, whatever the server has done with it.
pub receive-command :
    (q : Request) (result : CommandResult) (version : ℕ) (input later : Text)
    → version < word_mod
    → q.line ≡ (fgets 511 input).0
    → is_line q.user ≡ true
    → length q.user < 128
    → let e : EditLogEntry = record {
      user = q.user;
      command = copy_without_trailing_newline q.line;
      result = result;
    } in
      (pieces : List Text) × (receive (build_payload (e ∷ []) version ++ later) ≡ (pieces, later))
      × (join pieces ≡ build_payload (e ∷ []) version)
      × (build_payload (e ∷ []) version ≡ payload_text (e ∷ []) version)
receive-command q result version input later fits read user short =
    let e : EditLogEntry = record {
      user = q.user;
      command = copy_without_trailing_newline q.line;
      result = result;
    } in
    let line =
      subst (λ (t : Text). is_line (copy_without_trailing_newline t) ≡ true) (sym read)
        (copy-is_line (fgets 511 input).0 (fgets-IsRead 511 input)) in
    let size = payload-short e version fits in
    let bound : length (payload_text (e ∷ []) version) + 1 < word_mod =
      omega (arith, size, copy-length q.line, ap length read, fgets-length 511 input) in
    let int : length (edit_line e) < 2 ^ 31 =
      unfold edit_lines in
      omega (
        arith,
        size,
        copy-length q.line,
        ap length read,
        fgets-length 511 input,
        length-append (version_line version) (edit_line e ++ end_line),
        length-append (edit_line e) end_line,
      ) in
    let ints : AreInts (e ∷ []) = unfold AreInts in (int, tt) in
    let whole = (payload-whole (e ∷ []) version fits ints bound).1 in
    let (pieces, run, together) =
      receive-build_payload (e ∷ []) version later fits ints bound
        (unfold are_lines in rw (user, line) refl) in
    (pieces, run, together, whole)

-- The broadcast that a ready server makes for a command is read whole by a client that gets it, in
-- pieces that put together are the line of the new version, the one line of the command with its
-- user and its result, and the line END; what the server writes later is left: for a command line as
-- the server's loop reads it, whatever it holds, and a user whose name is a line of less than 128
-- bytes.
pub receive-round :
    (core : ServerCore) (q : Request) (h : Heap) (input later : Text)
    → IsReady core h
    → q.line ≡ (fgets 511 input).0
    → is_line q.user ≡ true
    → length q.user < 128
    → (pieces : List Text) × (receive ((round core q h).payload ++ later) ≡ (pieces, later))
      × (join pieces
          ≡ payload_text
              (record {
                user = q.user;
                command = copy_without_trailing_newline q.line;
                result = (round core q h).result;
              }
                ∷ [])
              ((core.current_version + 1) % word_mod))
receive-round core q h input later ready read user short =
    let a = round-Advanced core q h ready in
    let (pieces, run, together, whole) =
      receive-command q (round core q h).result ((core.current_version + 1) % word_mod) input later
        (omega arith) read user short in
    (pieces, rw (a.broadcast, a.version) run, together ∙ whole)
