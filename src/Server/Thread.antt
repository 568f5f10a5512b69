-- ===== src/Server/Thread.antt =====
-- `client_thread_main` of src/server.c from the open FIFOs on, and what it reads from its client.
-- `input` is all that the client writes to its FIFO before it closes it.
pub mod Loop
pub mod Sections
use collab_markdown_server.Base.{
  ℕ, zero, suc, ◌+◌, ◌-◌, Bool, true, false, ◌&&◌, ◌||◌, Option, none, some, List, [], ◌∷◌, ◌++◌,
  ltb, ◌==◌, if◌then◌else◌, length, take, Text, codes, byte_at,
}
use collab_markdown_server.Libc.Strings.{text_eq}
use collab_markdown_server.Libc.Streams.{fgets}
use collab_markdown_server.System.{System}
use collab_markdown_server.Command.{UserRole}
use collab_markdown_server.Auth.{Answer, auth_ok, auth_lookup_role}
use collab_markdown_server.ServerCore.Session.{Request}
use collab_markdown_server.Server.{ServerState, welcome_client, handle_command, client_leaves}

-- `command_line` and `username`; fgets keeps one byte of a buffer for the NUL.
abbrev command_buf_size : ℕ
command_buf_size = 512

abbrev pub username_buf_size : ℕ
username_buf_size = 128

abbrev pub roles_path : Text
roles_path = codes "config/roles.txt"

-- A newline at the end goes.
abbrev pub without_newline : Text → Text
without_newline line =
    let n = length line in
    if ltb 0 n && byte_at line (n - 1) == b'\n' then take (n - 1) line else line

-- `none` at the end of the stream; what is left of it comes back.
unfoldable pub read_line_strip_newline : ℕ → Text → Option Text × Text
read_line_strip_newline size [] = (none, [])
read_line_strip_newline size (c ∷ s) =
    let (line, rest) = fgets (size - 1) (c ∷ s) in (some (without_newline line), rest)

-- The test that ends the loop.
unfoldable pub is_disconnect : Text → Bool
is_disconnect command_line =
    text_eq command_line (codes "DISCONNECT\n") || text_eq command_line (codes "QUIT\n")

-- The loop's lines, on fuel: those before the end of the stream or the line that ends the loop.
unfoldable pub read_commands : ℕ → Text → List Text
read_commands zero input = []
read_commands (suc fuel) [] = []
read_commands (suc fuel) (c ∷ s) =
    let (command_line, rest) = fgets (command_buf_size - 1) (c ∷ s) in
    let later = read_commands fuel rest in
    if is_disconnect command_line then [] else command_line ∷ later

-- One round for each byte is enough, as every line has one.
unfoldable pub command_lines : Text → List Text
command_lines input = read_commands (length input) input

-- What the thread knows of its client before the first critical section.
pub data Arrival : Type 0 where
  no_username : Arrival
  refused : Arrival
  admitted : Text → UserRole → Text → Arrival

abbrev pub authenticated : Text → Text → Answer → Arrival
authenticated username rest (auth_ok, some role) = admitted username role rest
authenticated username rest _ = refused

abbrev pub named : (Text → Option Text) → Option Text × Text → Arrival
named files (none, rest) = no_username
named files (some username, rest) =
    authenticated username rest (auth_lookup_role files (some roles_path) (some username))

unfoldable pub arrival : (Text → Option Text) → Text → Arrival
arrival files input = named files (read_line_strip_newline username_buf_size input)

abbrev pub requests : Text → UserRole → List Text → List Request
requests username role [] = []
requests username role (line ∷ lines) =
    record { user = username; role = role; line = line } ∷ requests username role lines

module _ {W : Type 0} (sys : System W) where
  -- The loop, one critical section for each line.
  unfoldable pub handle_commands : List Request → ServerState W → ServerState W
  handle_commands [] s = s
  handle_commands (q ∷ qs) s = handle_commands qs (handle_command sys q s).1

  abbrev pub on_world : (W → W) → ServerState W → ServerState W
  on_world f s = record s { world = f s.world }

  -- `fclose` of the streams and `cleanup_fifo_pair`, where the registry does not have them.
  abbrev pub hang_up : Text → Text → ℕ → ℕ → ServerState W → ServerState W
  hang_up c2s_path s2c_path c2s s2c s =
      on_world (λ w. sys.unlink s2c_path (sys.unlink c2s_path (sys.fclose s2c (sys.fclose c2s w))))
        s

  -- Behind the welcome: the loop and the farewell, or nothing where the client was not added.
  abbrev pub after_welcome :
      ℕ → Text → Text → ℕ → ℕ → List Request → Bool × ServerState W → ServerState W
  after_welcome pid c2s_path s2c_path c2s s2c qs (false, s) = hang_up c2s_path s2c_path c2s s2c s
  after_welcome pid c2s_path s2c_path c2s s2c qs (true, s) =
      on_world (sys.fclose c2s) (client_leaves sys pid (handle_commands qs s))

  -- The thread with no other one beside it. `c2s` and `s2c` are the streams that fdopen made.
  unfoldable pub run_thread : ℕ → Text → Text → ℕ → ℕ → Arrival → ServerState W → ServerState W
  run_thread pid c2s_path s2c_path c2s s2c no_username s = hang_up c2s_path s2c_path c2s s2c s
  run_thread pid c2s_path s2c_path c2s s2c refused s =
      hang_up c2s_path s2c_path c2s s2c
        (on_world (sys.fprintf (codes "Reject UNAUTHORISED\n") s2c) s)
  run_thread pid c2s_path s2c_path c2s s2c (admitted username role rest) s =
      after_welcome pid c2s_path s2c_path c2s s2c (requests username role (command_lines rest))
        (welcome_client sys pid username role c2s_path s2c_path s2c s)

  unfoldable pub client_thread_main :
      (Text → Option Text) → ℕ → Text → Text → ℕ → ℕ → Text → ServerState W → ServerState W
  client_thread_main files pid c2s_path s2c_path c2s s2c input s =
      run_thread pid c2s_path s2c_path c2s s2c (arrival files input) s
