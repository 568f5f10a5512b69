-- ===== src/Tests/Following.antt =====
-- Examples for what one client is sent while another one comes and goes.
use collab_markdown_server.Base.{
  List, Text, ◌≡◌, refl, true, false, [], ◌∷◌, ◌++◌, ◌==◌, if◌then◌else◌, codes, arith,
}
use collab_markdown_server.Markdown.Document.{find_ops}
use collab_markdown_server.System.{System, AreStreams, AreWrites}
use collab_markdown_server.Markdown.Working.{get_committed_text}
use collab_markdown_server.Markdown.Version.{markdown_init, markdown_flatten}
use collab_markdown_server.ClientRegistry.{client_registry_add, client_registry_find, find_client}
use collab_markdown_server.ClientRegistry.Broadcast.{is_stream_of}
use collab_markdown_server.Command.{role_read, role_write}
use collab_markdown_server.ServerCore.{server_core_init, server_core_flatten_doc}
use collab_markdown_server.ServerCore.Session.{serve}
use collab_markdown_server.ServerCore.Spec.{nothing_shared, spec_serve, HasRoom}
use collab_markdown_server.ServerCore.Spec.Refinement.{Shows, serve-refines}
use collab_markdown_server.ServerCore.Spec.Broadcasts.{promised_broadcasts}
use collab_markdown_server.Server.{
  ServerState, role_to_wire_string, initial_document, server_start, welcome_client, handle_command,
  client_leaves,
}
use collab_markdown_server.Server.Following.{begun, handled, joined, left}
use collab_markdown_server.Server.Following.Joined.{promised_welcome, IsNew, welcomed-Received}
use collab_markdown_server.Libc.Strings.Tokens.{is_token}
use collab_markdown_server.Libc.Streams.{fgets}
use collab_markdown_server.Client.{connection_text, client_main}
use collab_markdown_server.Client.Watching.{
  IsCommand, AreCommands, Promised, reports_text, watching,
}
use collab_markdown_server.Client.EndToEnd.{client_main-welcomed}
use collab_markdown_server.Tests.Registry.{Streams, content, quiet}
use collab_markdown_server.Tests.Server.{empty_heap, hello, ready}
use collab_markdown_server.Tests.Promise.{some_room}

-- Every stream accepts.
abbrev sys : System Streams
sys = record {
  fputs = λ p s w. (true, λ k. if k == s then w k ++ p else w k);
  fflush = λ s w. (true, w);
  fprintf = λ p s w. λ k. if k == s then w k ++ p else w k;
  fclose = λ s w. λ k. if k == s then [] else w k;
  unlink = λ path w. w;
}

streams : AreStreams sys content (λ s. true)
streams = record {
  put_result = λ p s w e. refl;
  refused = λ p s w e. absurd cc;
  put_self = λ p s w e. ground arith;
  put_other = λ p s other w ne. ground arith;
  flush_result = λ s w e. refl;
  flush_self = λ s w e. refl;
  flush_other = λ s other w ne. refl;
}

writes : AreWrites sys content
writes = record {
  print_self = λ p s w. ground arith;
  print_other = λ p s other w ne. ground arith;
  close_other = λ s other w ne. ground arith;
  unlink_content = λ p other w. refl;
}

abbrev first : ServerState Streams
first = server_start 1 empty_heap quiet

first-IsNew : IsNew 10 5 nothing_shared first
unfolding find_ops serve spec_serve server_start server_core_init HasRoom find_client
first-IsNew = record {
  ready = ready;
  shows = (serve-refines 1 empty_heap [] refl tt).1;
  own = tt;
  absent = refl;
  fresh = refl;
}

abbrev with_one : ServerState Streams
with_one = (welcome_client sys 10 (codes "daniel") role_write [] [] 5 first).1

fresh : is_stream_of 4 with_one.registry.clients ≡ false
unfolding welcome_client initial_document server_core_flatten_doc markdown_flatten
    get_committed_text server_start server_core_init markdown_init client_registry_add
    client_registry_find find_client
fresh = refl

abbrev with_two : ServerState Streams
with_two = (welcome_client sys 11 (codes "yao") role_read [] [] 4 with_one).1

abbrev one_left : ServerState Streams
one_left = client_leaves sys 11 (handle_command sys hello with_two).1

welcomed-Received_example :
    Shows one_left.core one_left.heap (spec_serve nothing_shared (hello ∷ [])).1
    × (content 5 one_left.world
        ≡ content 5 first.world
          ++ (promised_welcome role_write nothing_shared
              ++ promised_broadcasts nothing_shared (hello ∷ [])))
welcomed-Received_example =
    welcomed-Received sys content writes streams 10 (codes "daniel") role_write [] [] 5
      nothing_shared first one_left (hello ∷ []) first-IsNew some_room
      (left 11 (λ e. absurd (cc))
        (handled hello (joined 11 (codes "yao") role_read [] [] 4 fresh begun)))

hello-IsCommand : IsCommand hello
unfolding fgets is_token
hello-IsCommand = record { input = hello.line; read = refl; user = refl; short = omega arith }

hello-AreCommands : AreCommands (hello ∷ [])
unfolding AreCommands
hello-AreCommands = (hello-IsCommand, tt)

nothing-written : content 5 first.world ≡ []
unfolding server_start
nothing-written = refl

client_main-welcomed_example :
    (reports : List (List Text)) × Promised nothing_shared (hello ∷ []) reports
    × (client_main (watching (hello ∷ [])) (codes "daniel") [] (content 5 one_left.world) ≡ record {
      success = true;
      sent = codes "daniel" ++ codes "\n";
      printed =
          connection_text (codes "daniel") (role_to_wire_string role_write) 0 []
          ++ reports_text reports
          ++ codes "Disconnected.\n";
    })
    × Shows one_left.core one_left.heap (spec_serve nothing_shared (hello ∷ [])).1
client_main-welcomed_example =
    client_main-welcomed sys content writes streams 10 (codes "daniel") role_write [] [] 5 []
      nothing_shared first one_left (hello ∷ []) first-IsNew nothing-written some_room (omega arith)
      (omega arith) hello-AreCommands
      (left 11 (λ e. absurd cc)
        (handled hello (joined 11 (codes "yao") role_read [] [] 4 fresh begun)))
