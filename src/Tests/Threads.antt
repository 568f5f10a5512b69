-- ===== src/Tests/Threads.antt =====
-- Examples for the server: two clients, one command, and one of them leaves.
use collab_markdown_server.Base.{refl, [], ◌∷◌, length, codes}
use collab_markdown_server.Markdown.Document.{find_ops}
use collab_markdown_server.Command.{role_read, role_write}
use collab_markdown_server.Server.{
  ServerState, server_start, welcome_client, handle_command, client_leaves,
}
use collab_markdown_server.Server.Interleaving.{
  started, welcomed, handled, left, IsServer, server_start-IsServer,
}
use collab_markdown_server.Tests.Registry.{Streams, sys, registry, quiet}
use collab_markdown_server.Tests.Server.{core, server_heap, hello, empty_heap}

abbrev pub first : ServerState Streams
first = server_start 1 empty_heap quiet

abbrev with_one : ServerState Streams
with_one = (welcome_client sys 10 (codes "daniel") role_write [] [] 5 first).1

abbrev with_two : ServerState Streams
with_two = (welcome_client sys 11 (codes "yao") role_read [] [] 4 with_one).1

abbrev one_handled : ServerState Streams
one_handled = (handle_command sys hello with_two).1

abbrev pub one_left : ServerState Streams
one_left = client_leaves sys 10 one_handled

server_start-IsServer_example : IsServer sys (length (hello ∷ [])) one_left
unfolding find_ops
server_start-IsServer_example =
    server_start-IsServer sys 1 empty_heap quiet (hello ∷ []) one_left refl (
      left 10 (
        handled hello (
          welcomed 11 (codes "yao") role_read [] [] 4
            (welcomed 10 (codes "daniel") role_write [] [] 5 started))))

abbrev serving : ServerState Streams
serving = record { core = core; heap = server_heap; registry = registry; world = quiet }
