-- ===== src/Client.antt =====
-- src/client.c: the client from the open FIFOs on. `incoming` is all that the server writes to its
-- FIFO, `input` all that is typed, until they are closed.
pub mod Broadcasts
pub mod Lines
pub mod Opening
pub mod Process
pub mod Watching
pub mod EndToEnd
pub mod Welcome
use collab_markdown_server.Base.{
  ℕ, zero, suc, ◌+◌, ◌-◌, ◌%◌, Bool, true, false, ◌&&◌, ◌||◌, Option, none, some, List, [], ◌∷◌,
  ◌++◌, ltb, ◌==◌, if◌then◌else◌, length, take, drop, Text, codes, byte_at, word_mod,
}
use collab_markdown_server.Libc.Strings.{text_eq, starts_with}
use collab_markdown_server.Libc.Numbers.{strtoul, decimal}
use collab_markdown_server.Libc.Streams.{fgets}

-- `line`, `input` and `output`.
abbrev pub line_buf_size : ℕ
line_buf_size = 256

abbrev io_buf_size : ℕ
io_buf_size = 512

-- A newline at the end goes.
abbrev pub strip_newline : Text → Text
strip_newline s =
    let n = length s in if ltb 0 n && byte_at s (n - 1) == b'\n' then take (n - 1) s else s

-- `none` at the end of the stream; what is left of it comes back.
abbrev pub read_line : ℕ → Text → Option (Text × Text)
read_line size [] = none
read_line size (c ∷ s) = some (fgets (size - 1) (c ∷ s))

-- What one fread delivers of the `len` bytes asked for: all that the stream has of them.
abbrev pub fread : ℕ → Text → Text × Text
fread len s = (take len s, drop len s)

-- The loop, on fuel, behind what it has read before.
unfoldable pub read_rest : ℕ → ℕ → Text → Text → Option (Text × Text)
read_rest zero len buf s = none
read_rest (suc fuel) len buf s =
    let (got, later) = fread (len - length buf) s in
    let more = read_rest fuel len (buf ++ got) later in
    if ltb (length buf) len then if length got == 0 then none else more else some (buf, s)

-- Every round reads a byte at least.
abbrev pub read_exact : ℕ → Text → Option (Text × Text)
read_exact len s = read_rest (suc len) len [] s

-- How the exchange before the first command ends: with an error message, with the server's
-- rejection, or with a role, a version, a document and what the server writes after it.
pub data Handshake : Type 0 where
  unread : Text → Handshake
  turned_away : Text → Handshake
  connected : Text → ℕ → Text → Text → Handshake

abbrev pub read_body : Text → ℕ → Option (Text × Text) → Handshake
read_body role version none = unread (codes "Failed to read document body\n")
read_body role version (some (doc, rest)) = connected role version doc rest

abbrev pub read_length : Text → ℕ → Option (Text × Text) → Handshake
read_length role version none = unread (codes "Failed to read document length\n")
read_length role version (some (line, rest)) =
    let doc_len = (strtoul (strip_newline line)).0 in
    read_body role version (if ltb 0 doc_len then read_exact doc_len rest else some ([], rest))

abbrev pub read_version : Text → Option (Text × Text) → Handshake
read_version role none = unread (codes "Failed to read version\n")
read_version role (some (line, rest)) =
    read_length role (strtoul (strip_newline line)).0 (read_line line_buf_size rest)

abbrev read_role : Option (Text × Text) → Handshake
read_role none = unread (codes "Failed to read role/rejection\n")
read_role (some (line, rest)) =
    let role = strip_newline line in
    if starts_with role (codes "Reject")
    then turned_away role
    else read_version role (read_line line_buf_size rest)

unfoldable pub handshake : Text → Handshake
handshake incoming = read_role (read_line line_buf_size incoming)

-- The session: what is still to come from the keyboard and from the server, what the client has
-- sent and what it has printed.
pub record Session : Type 0 where
  pub input : Text
  pub incoming : Text
  pub sent : Text
  pub printed : Text

-- The line of the user that ends the session.
unfoldable pub is_goodbye : Text → Bool
is_goodbye input = text_eq input (codes "DISCONNECT\n") || text_eq input (codes "QUIT\n")

-- The branch for the keyboard; `false` is the break.
abbrev send_line : Session → Bool × Session
send_line c = elim c.input [
  | [] ↦ (false, c)
  | b ∷ typed ↦
      let (line, rest) = fgets (io_buf_size - 1) (b ∷ typed) in
      (if is_goodbye line then false else true, record c { input = rest; sent = c.sent ++ line })
]

-- The rest of a broadcast, on fuel: the pieces up to the line END or to the end of the stream.
unfoldable pub broadcast_pieces : ℕ → Text → List Text × Text
broadcast_pieces zero s = ([], s)
broadcast_pieces (suc fuel) [] = ([], [])
broadcast_pieces (suc fuel) (b ∷ s) =
    let (output, rest) = fgets (io_buf_size - 1) (b ∷ s) in
    let (pieces, later) = broadcast_pieces fuel rest in
    if text_eq output (codes "END\n") then (output ∷ [], rest) else (output ∷ pieces, later)

-- The pieces that the branch for the server reads and what it leaves. Every piece has a byte.
unfoldable pub receive : Text → List Text × Text
receive [] = ([], [])
receive (b ∷ s) =
    let (output, rest) = fgets (io_buf_size - 1) (b ∷ s) in
    let (pieces, later) = broadcast_pieces (length rest) rest in
    if starts_with output (codes "VERSION ") then (output ∷ pieces, later) else (output ∷ [], rest)

unfoldable pub print_pieces : List Text → Text
print_pieces [] = []
print_pieces (output ∷ pieces) = codes "[server] " ++ (output ++ print_pieces pieces)

-- The branch for the server.
abbrev pub show_broadcast : Session → Bool × Session
show_broadcast c = elim c.incoming [
  | [] ↦ (false, c)
  | b ∷ s ↦
      let (pieces, rest) = receive (b ∷ s) in
      (
        true,
        record c {
          incoming = rest;
          printed = c.printed ++ (codes "\n" ++ (print_pieces pieces ++ codes "> "));
        },
      )
]

abbrev pub behind_keyboard : Bool → Bool × Session → Bool × Session
behind_keyboard server_ready (false, c) = (false, c)
behind_keyboard server_ready (true, c) = if server_ready then show_broadcast c else (true, c)

-- One round: `select` says which of the two descriptors is ready.
unfoldable pub client_round : Bool → Bool → Session → Bool × Session
client_round keyboard_ready server_ready c =
    behind_keyboard server_ready (if keyboard_ready then send_line c else (true, c))

-- The loop, for what `select` answers round by round: the list ends where `select` fails, which is a
-- break, too, or after the rounds of a run so far.
unfoldable pub client_loop : List (Bool × Bool) → Session → Session
client_loop [] c = c
client_loop ((keyboard_ready, server_ready) ∷ rounds) c =
    let (again, c') = client_round keyboard_ready server_ready c in
    let after = client_loop rounds c' in if again then after else c'

-- The start of the loop, the username sent; `shown` is what was printed about the connection.
abbrev pub session_start : Text → Text → Text → Text → Session
session_start username shown input incoming = record {
  input = input;
  incoming = incoming;
  sent = username ++ codes "\n";
  printed = shown;
}

-- "…%s\n"
abbrev line_of : Text → Text → Text
line_of label value = label ++ (value ++ codes "\n")

abbrev help_text : Text
help_text =
    codes "\nType commands, e.g.:\n  INSERT 0 Hello\n  BOLD 0 5\n  DEL 0 2\n  DISCONNECT\n\n> "

-- What is printed about the connection.
unfoldable pub connection_text : Text → Text → ℕ → Text → Text
connection_text username role version doc =
    line_of (codes "Connected as ") username
    ++ (line_of (codes "Role: ") role
        ++ (line_of (codes "Version: ") (decimal version)
            ++ (line_of (codes "Document length: ") (decimal (length doc))
                ++ (line_of (codes "Document:\n") doc ++ help_text))))

-- What `main` leaves: whether it exits with success, what it has sent and what it has printed.
pub record Finished : Type 0 where
  pub success : Bool
  pub sent : Text
  pub printed : Text

abbrev pub finished : Session → Finished
finished c = record {
  success = true;
  sent = c.sent;
  printed = c.printed ++ codes "Disconnected.\n";
}

abbrev given_up : Text → Text → Finished
given_up username printed = record {
  success = false;
  sent = username ++ codes "\n";
  printed = printed;
}

abbrev pub after_handshake : List (Bool × Bool) → Text → Text → Handshake → Finished
after_handshake rounds username input (unread message) = given_up username []
after_handshake rounds username input (turned_away line) = given_up username (line ++ codes "\n")
after_handshake rounds username input (connected role version doc rest) = finished (
    client_loop rounds
      (session_start username (connection_text username role version doc) input rest))

-- `main` behind the opening of the FIFOs.
unfoldable pub client_main : List (Bool × Bool) → Text → Text → Text → Finished
client_main rounds username input incoming =
    after_handshake rounds username input (handshake incoming)
