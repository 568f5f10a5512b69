-- ===== src/Tests/Client.antt =====
-- Examples for the client, and for the numbers on the command lines.
use collab_markdown_server.Base.{
  ◌+◌, ◌%◌, ◌<◌, ◌≡◌, refl, true, false, Bool, Option, some, none, List, [], ◌∷◌, ◌++◌, ◌==◌, arith,
  Text, codes, word_mod,
}
use collab_markdown_server.Libc.Streams.{fgets}
use collab_markdown_server.Libc.Strings.Tokens.{is_token}
use collab_markdown_server.Libc.Numbers.{decimal, print_digits}
use collab_markdown_server.Libc.Numbers.Signed.{negsuc, to_int}
use collab_markdown_server.Markdown.Version.{markdown_flatten, markdown_init}
use collab_markdown_server.Markdown.Working.{get_committed_text}
use collab_markdown_server.Command.{role_write}
use collab_markdown_server.Auth.{auth_lookup_role}
use collab_markdown_server.ServerCore.{
  server_core_init, server_core_flatten_doc, copy_without_trailing_newline,
}
use collab_markdown_server.Server.{initial_document, role_to_wire_string}
use collab_markdown_server.Server.Thread.{arrival, authenticated, roles_path, command_lines}
use collab_markdown_server.Client.{
  handshake, connected, receive, client_loop, session_start, connection_text, finished, client_main,
}
use collab_markdown_server.Client.Welcome.{handshake-initial_document}
use collab_markdown_server.Client.Lines.{client_loop-arrival}
use collab_markdown_server.Client.Broadcasts.Rounds.{receive-round}
use collab_markdown_server.ServerCore.Payload.{payload_text}
use collab_markdown_server.ServerCore.Session.{round}
use collab_markdown_server.Client.Broadcasts.Pieces.{join}
use collab_markdown_server.Arguments.{parse_interval_ms, parse_pid, parse-decimal}
use collab_markdown_server.Tests.Server.{core, server_heap, hello, ready}

flat : server_core_flatten_doc core server_heap ≡ some []
unfolding server_core_flatten_doc markdown_flatten server_core_init markdown_init get_committed_text
flat = refl

new_core : core.current_version < word_mod
unfolding server_core_init
new_core = omega arith

abbrev roles : Text → Option Text
roles path = some (codes "ann read\n")

abbrev typed : Text
typed = codes "DEL 0 2\nQUIT\nDEL 0 1\n"

abbrev rounds : List (Bool × Bool)
rounds = (true, false) ∷ (false, true) ∷ (true, true) ∷ (true, false) ∷ []

handshake-initial_document_example :
    (message : Text) × (initial_document role_write core server_heap ≡ some message)
    × (handshake (message ++ codes "VERSION 1\n")
        ≡ connected (role_to_wire_string role_write) core.current_version [] (codes "VERSION 1\n"))
    × (client_main rounds (codes "ann") typed (message ++ codes "VERSION 1\n")
        ≡ finished (
            client_loop rounds (
              session_start
                (codes "ann")
                (connection_text
                  (codes "ann")
                  (role_to_wire_string role_write)
                  core.current_version
                  [])
                typed
                (codes "VERSION 1\n"))))
handshake-initial_document_example =
    handshake-initial_document rounds (codes "ann") typed role_write core server_heap []
      (codes "VERSION 1\n") new_core (omega arith) flat

ann-is_token : is_token (λ c. c == b'\n') (codes "ann") ≡ true
unfolding is_token
ann-is_token = refl

client_loop-arrival_example :
    (new : Text) × (later : List Text) × (arrival roles
        (client_loop rounds (session_start (codes "ann") [] typed (codes "END\n"))).sent
      ≡ authenticated
          (codes "ann")
          new
          (auth_lookup_role roles (some roles_path) (some (codes "ann"))))
    × (command_lines typed ≡ command_lines new ++ later)
    × ((client_loop rounds (session_start (codes "ann") [] typed (codes "END\n"))).input ≡ []
        → later ≡ [])
client_loop-arrival_example =
    client_loop-arrival roles (codes "ann") [] typed (codes "END\n") rounds ann-is_token
      (omega arith)

-- 4294967295 passes for -1, and kill(-1, …) signals every process that may be signalled.
parse-decimal_example :
    (parse_interval_ms (some (codes "4294967295")) ≡ some (negsuc 0))
    × (parse_pid (some (codes "4294967295")) ≡ some (negsuc 0))
    × (parse_interval_ms (some (codes "-4294967295")) ≡ none)
    × (parse_pid (some (codes "-4294967295")) ≡ none)
unfolding to_int decimal print_digits
parse-decimal_example = parse-decimal 4294967295

daniel-is_token : is_token (λ c. c == b'\n') hello.user ≡ true
unfolding is_token
daniel-is_token = refl

hello-fgets : hello.line ≡ (fgets 511 (hello.line ++ codes "BOLD 0 5\n")).0
unfolding fgets
hello-fgets = refl

receive-round_example :
    (pieces : List Text) × (receive ((round core hello server_heap).payload ++ codes "VERSION 2\n")
      ≡ (pieces, codes "VERSION 2\n"))
    × (join pieces
        ≡ payload_text
            (record {
              user = hello.user;
              command = copy_without_trailing_newline hello.line;
              result = (round core hello server_heap).result;
            }
              ∷ [])
            ((core.current_version + 1) % word_mod))
receive-round_example =
    receive-round core hello server_heap (hello.line ++ codes "BOLD 0 5\n") (codes "VERSION 2\n")
      ready hello-fgets daniel-is_token (omega arith)
