-- ===== src/Server/Following/Steps.antt =====
-- What each critical section does to a server that one client is connected to.
use collab_markdown_server.Base.{
  ℕ, ◌+◌, ◌<◌, ◌≡◌, ◌≢◌, refl, ap, sym, ◌∙◌, inl, inr, true, false, none, some, Option-cases, List,
  ◌∷◌, ◌++◌, arith, ◌==◌, length, Text, word_mod,
}
use collab_markdown_server.System.{System, AreStreams, AreWrites}
use collab_markdown_server.Command.{UserRole}
use collab_markdown_server.ClientRegistry.{
  ClientConn, ClientRegistry, find_client, client_registry_find, add_client, client_registry_add,
  unlink_client, drop_client, client_registry_remove,
}
use collab_markdown_server.ClientRegistry.Lookup.{Without, unlink-Unlinked}
use collab_markdown_server.ClientRegistry.Broadcast.{is_stream_of, HaveStreams, broadcast-reached}
use collab_markdown_server.ClientRegistry.Streams.{
  reached-all, find-is_stream_of, Apart, unlink-Apart,
}
use collab_markdown_server.ServerCore.Session.{Request, round}
use collab_markdown_server.ServerCore.Session.Rounds.{round-Advanced}
use collab_markdown_server.ServerCore.Spec.{Shared, spec_round}
use collab_markdown_server.ServerCore.Spec.Refinement.{round-Shows}
use collab_markdown_server.ServerCore.Spec.Broadcasts.{promised_broadcast, round-promised}
use collab_markdown_server.Server.{
  ServerState, initial_document, welcome_client, handle_command, client_leaves,
}
use collab_markdown_server.Server.Following.{IsConnected}

module _ {W : Type 0} (sys : System W) (content : ℕ → W → Text) where
  is_connected :
      {pid stream : ℕ} {shared : Shared} {s : ServerState W}
      → IsConnected sys content pid stream shared s
      → is_stream_of stream s.registry.clients ≡ true
  is_connected {pid} {stream} {shared} {s} c =
      ap (λ (k : ℕ). is_stream_of k s.registry.clients) (sym c.its_stream)
      ∙ find-is_stream_of pid s.registry.clients c.client c.found

  -- One more command: the promised broadcast is sent.
  module _ (laws : AreStreams sys content (λ s. true)) where
    pub handled-IsConnected :
        (pid stream : ℕ) (shared : Shared) (s : ServerState W) (q : Request)
        → IsConnected sys content pid stream shared s
        → length shared.text + 1 < word_mod
        → IsConnected sys content pid stream (spec_round shared q).1 (handle_command sys q s).1
          × (content stream (handle_command sys q s).1.world
              ≡ content stream s.world ++ promised_broadcast shared q)
    unfolding handle_command
    handled-IsConnected pid stream shared s q c room =
        let a = round s.core q s.heap in
        let (_, got) =
          broadcast-reached sys content (λ s. true) laws s.registry a.payload s.world c.own in
        let (_, after) = round-Shows s.core q s.heap shared c.ready c.shows room in
        (
          record {
            ready = (round-Advanced s.core q s.heap c.ready).ready;
            shows = after;
            own = c.own;
            client = c.client;
            found = c.found;
            its_stream = c.its_stream;
          },
          got stream refl
              ∙ rw (reached-all s.registry.clients, is_connected c)
                  (ap (content stream s.world ++◌)
                    (round-promised s.core q s.heap shared c.ready c.shows room)),
        )

  streams_apart :
      (a b : ℕ) (cs : List ClientConn)
      → is_stream_of a cs ≡ true
      → is_stream_of b cs ≡ false
      → a ≢ b
  streams_apart a b cs there absent e =
      let both : is_stream_of b cs ≡ true = sym (ap (λ (k : ℕ). is_stream_of k cs) e) ∙ there in cc

  pids_apart :
      (a b : ℕ) (cs : List ClientConn) (client : ClientConn)
      → find_client a cs ≡ none
      → find_client b cs ≡ some client
      → a ≢ b
  pids_apart a b cs client absent there e =
      let both : find_client b cs ≡ none = sym (ap (λ (k : ℕ). find_client k cs) e) ∙ absent in cc

  module _ (laws : AreWrites sys content) (pid stream : ℕ) (shared : Shared) (s : ServerState W)
      (c : IsConnected sys content pid stream shared s) where
    -- Another registry and world with the client and its stream.
    pub with_registry :
        (r : ClientRegistry) (w : W)
        → HaveStreams r.clients
        → find_client pid r.clients ≡ some c.client
        → IsConnected sys content pid stream shared (record s { registry = r; world = w })
    with_registry r w own found = record {
      ready = c.ready;
      shows = c.shows;
      own = own;
      client = c.client;
      found = found;
      its_stream = c.its_stream;
    }

    add-IsConnected :
        (client : ClientConn) (w : W)
        → is_stream_of client.out_stream s.registry.clients ≡ false
        → IsConnected sys content pid stream shared
            (record s { registry = (add_client s.registry client).1; world = w })
    unfolding client_registry_find find_client
    add-IsConnected client w fresh =
        elim (Option-cases (find_client client.pid s.registry.clients)) [
          | inr (present, e) ↦ rw (add_client, e) (with_registry s.registry w c.own c.found)
          | inl absent ↦
              let apart = pids_apart client.pid pid s.registry.clients c.client absent c.found in
              let others : (client.pid == pid) ≡ false = ground arith in
              rw (add_client, absent)
                (with_registry (record { clients = client ∷ s.registry.clients; count = _ }) w
                  (fresh, c.own) (rw others c.found))
        ]

    pub joined-IsConnected :
        (other : ℕ) (username : Text) (role : UserRole) (c2s_path s2c_path : Text) (s2c : ℕ)
        → is_stream_of s2c s.registry.clients ≡ false
        → IsConnected sys content pid stream shared
            (welcome_client sys other username role c2s_path s2c_path s2c s).1
          × (content stream (welcome_client sys other username role c2s_path s2c_path s2c s).1.world
              ≡ content stream s.world)
    unfolding welcome_client client_registry_add
    joined-IsConnected other username role c2s_path s2c_path s2c fresh =
        elim (Option-cases (initial_document role s.core s.heap)) [
          | inl e ↦ rw (e, welcome_client) (c, refl)
          | inr (message, e) ↦
              let client : ClientConn = record {
                pid = other;
                username = username;
                role = role;
                fifo_c2s_path = c2s_path;
                fifo_s2c_path = s2c_path;
                out_stream = s2c;
              } in
              let apart = streams_apart stream s2c s.registry.clients (is_connected c) fresh in
              rw (e, welcome_client)
                (
                  add-IsConnected client (sys.fprintf message s2c s.world) fresh,
                  laws.print_other message s2c stream s.world apart,
                )
        ]

    removed-IsConnected :
        (other : ℕ) (gone : ClientConn) (others : List ClientConn) (n : ℕ)
        → pid ≢ other
        → Without other s.registry.clients gone others
        → Apart s.registry.clients gone others
        → IsConnected sys content pid stream shared (record s {
          registry = record { clients = others; count = n };
          world = drop_client sys gone s.world;
        })
          × (content stream (drop_client sys gone s.world) ≡ content stream s.world)
    unfolding drop_client
    removed-IsConnected other gone others n differs without apart =
        let found = without.kept pid differs ∙ c.found in
        let there : is_stream_of stream others ≡ true =
          ap (λ (k : ℕ). is_stream_of k others) (sym c.its_stream)
          ∙ find-is_stream_of pid others c.client found in
        let w1 = sys.unlink gone.fifo_c2s_path s.world in
        (
          with_registry (record { clients = others; count = n }) (drop_client sys gone s.world)
              apart.own found,
          laws.close_other gone.out_stream stream (sys.unlink gone.fifo_s2c_path w1)
                (streams_apart stream gone.out_stream others there apart.apart)
              ∙ (laws.unlink_content gone.fifo_s2c_path stream w1
                  ∙ laws.unlink_content gone.fifo_c2s_path stream s.world),
        )

    pub left-IsConnected :
        (other : ℕ)
        → other ≢ pid
        → IsConnected sys content pid stream shared (client_leaves sys other s)
          × (content stream (client_leaves sys other s).world ≡ content stream s.world)
    unfolding client_leaves client_registry_remove
    left-IsConnected other differs =
        let taken = unlink-Unlinked other s.registry.clients in
        elim (Option-cases (unlink_client other s.registry.clients)) [
          | inl e ↦ rw (client_registry_remove, e) (c, refl)
          | inr ((gone, others), e) ↦
              rw (client_registry_remove, e)
                (removed-IsConnected other gone others _ (λ same. differs (sym same))
                  (rw e at taken) (unlink-Apart other s.registry.clients gone others c.own e))
        ]
