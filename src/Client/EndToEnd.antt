-- ===== src/Client/EndToEnd.antt =====
-- The server and one of its clients together: src/client.c reads what src/server.c writes to its stream.
use collab_markdown_server.Base.{
  ℕ, ◌+◌, ◌<◌, ◌≡◌, ap, ◌∙◌, true, List, [], ◌++◌, length, Text, codes, word_mod,
}
use collab_markdown_server.System.{System, AreStreams, AreWrites}
use collab_markdown_server.Command.{UserRole}
use collab_markdown_server.ServerCore.Session.{Request}
use collab_markdown_server.ServerCore.Spec.{Shared, spec_serve, HasRoom}
use collab_markdown_server.ServerCore.Spec.Refinement.{Shows}
use collab_markdown_server.ServerCore.Spec.Broadcasts.{promised_broadcasts}
use collab_markdown_server.Server.{ServerState, role_to_wire_string, welcome_client}
use collab_markdown_server.Server.Following.{Meanwhile}
use collab_markdown_server.Server.Following.Joined.{promised_welcome, IsNew, welcomed-Received}
use collab_markdown_server.Client.{connection_text, client_main}
use collab_markdown_server.Client.Watching.{
  AreCommands, Promised, reports_text, watching, client_main-Promised,
}

-- A client joins, with a number and an empty stream that no other client has, a ready server that shows
-- the text and the version of `shared`; the others join, leave and send commands, in any order; and the
-- client reads its stream, one broadcast in each round of its loop, with nothing typed. Then it shows
-- the role, the version and the text of the document as they were when it joined, and then the broadcast
-- that is promised for each command handled since, in the order in which they were handled, in pieces
-- that put together are the broadcast, and nothing else; and the server shows the text and the version
-- that are promised for these commands. This holds for streams that accept what is put into them, if
-- nothing outside writes to the client's stream, the commands are as the threads of the server read
-- them, the version is below 2^64 and the texts are shorter than 2^64 - 1 bytes.
pub client_main-welcomed :
    {W : Type 0} (sys : System W) (content : ℕ → W → Text) (writes : AreWrites sys content)
    (streams : AreStreams sys content (λ s. true)) (pid : ℕ) (username : Text) (role : UserRole)
    (c2s_path s2c_path : Text) (stream : ℕ) (input : Text) (shared : Shared)
    (start s : ServerState W) (qs : List Request)
    → IsNew pid stream shared start
    → content stream start.world ≡ []
    → HasRoom shared qs
    → shared.version < word_mod
    → length shared.text + 1 < word_mod
    → AreCommands qs
    → Meanwhile sys content pid stream
        (welcome_client sys pid username role c2s_path s2c_path stream start).1
        qs
        s
    → (reports : List (List Text)) × Promised shared qs reports
      × (client_main (watching qs) username input (content stream s.world) ≡ record {
        success = true;
        sent = username ++ codes "\n";
        printed =
            connection_text username (role_to_wire_string role) shared.version shared.text
            ++ reports_text reports
            ++ codes "Disconnected.\n";
      })
      × Shows s.core s.heap (spec_serve shared qs).1
client_main-welcomed sys content writes streams pid username role c2s_path s2c_path stream input
      shared start s qs n empty room fits small commands m =
    let (shows, got) =
      welcomed-Received sys content writes streams pid username role c2s_path s2c_path stream shared
        start s qs n room m in
    let written : content stream s.world
        ≡ promised_welcome role shared ++ promised_broadcasts shared qs =
      got ∙ ap (◌++ (promised_welcome role shared ++ promised_broadcasts shared qs)) empty in
    let (reports, promised, run) =
      client_main-Promised username input role shared qs fits small commands in
    (reports, promised, ap (client_main (watching qs) username input) written ∙ run, shows)
