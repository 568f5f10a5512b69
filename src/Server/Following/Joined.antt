-- ===== src/Server/Following/Joined.antt =====
-- What a client is sent from the moment in which it joins.
use collab_markdown_server.Base.{
  ℕ, ◌≡◌, refl, ap, ◌∙◌, true, false, some, none, List, ◌++◌, append_assoc, length, Text, arith,
  codes,
}
use collab_markdown_server.Libc.Numbers.{decimal}
use collab_markdown_server.Markdown.Document.{Heap}
use collab_markdown_server.System.{System, AreStreams, AreWrites}
use collab_markdown_server.Command.{UserRole}
use collab_markdown_server.ClientRegistry.{
  ClientConn, client_registry_find, find_client, client_registry_add, add_client,
}
use collab_markdown_server.ClientRegistry.Broadcast.{is_stream_of, HaveStreams}
use collab_markdown_server.ServerCore.{ServerCore, server_core_flatten_doc}
use collab_markdown_server.ServerCore.Session.{Request, IsReady}
use collab_markdown_server.ServerCore.Spec.{Shared, spec_serve, HasRoom}
use collab_markdown_server.ServerCore.Spec.Refinement.{Shows}
use collab_markdown_server.ServerCore.Spec.Broadcasts.{promised_broadcasts}
use collab_markdown_server.Server.{
  ServerState, role_to_wire_string, initial_document, welcome_client,
}
use collab_markdown_server.Server.Following.{Meanwhile, IsConnected}
use collab_markdown_server.Server.Following.Received.{Meanwhile-Received}

-- The role of the client, the version of the text, its length and the text.
abbrev pub promised_welcome : UserRole → Shared → Text
promised_welcome role s =
    role_to_wire_string role
    ++ (codes "\n"
        ++ (decimal s.version
            ++ (codes "\n" ++ (decimal (length s.text) ++ (codes "\n" ++ s.text)))))

initial_document-promised :
    (role : UserRole) (core : ServerCore) (h : Heap) (s : Shared)
    → Shows core h s
    → initial_document role core h ≡ some (promised_welcome role s)
unfolding initial_document server_core_flatten_doc
initial_document-promised role core h s (version, text) = rw (initial_document, text, version) refl

-- A client that is not registered, and a stream of no client.
pub record IsNew {W : Type 0} (pid stream : ℕ) (shared : Shared) (s : ServerState W) : Type 0 where
  pub ready : IsReady s.core s.heap
  pub shows : Shows s.core s.heap shared
  pub own : HaveStreams s.registry.clients
  pub absent : find_client pid s.registry.clients ≡ none
  pub fresh : is_stream_of stream s.registry.clients ≡ false

module _ {W : Type 0} (sys : System W) (content : ℕ → W → Text)
    (writes : AreWrites sys content) where
  welcomed-IsConnected :
      (pid : ℕ) (username : Text) (role : UserRole) (c2s_path s2c_path : Text) (stream : ℕ)
      (shared : Shared) (s : ServerState W)
      → IsNew pid stream shared s
      → let s' = (welcome_client sys pid username role c2s_path s2c_path stream s).1 in
        IsConnected sys content pid stream shared s'
        × (content stream s'.world ≡ content stream s.world ++ promised_welcome role shared)
  unfolding welcome_client client_registry_add client_registry_find find_client
  welcomed-IsConnected pid username role c2s_path s2c_path stream shared s n =
      let client : ClientConn = record {
        pid = pid;
        username = username;
        role = role;
        fifo_c2s_path = c2s_path;
        fifo_s2c_path = s2c_path;
        out_stream = stream;
      } in
      rw
        (
          initial_document-promised role s.core s.heap shared n.shows,
          welcome_client,
          add_client,
          n.absent,
        )
        (
          record {
            ready = n.ready;
            shows = n.shows;
            own = (n.fresh, n.own);
            client = client;
            found = ground arith;
            its_stream = refl;
          },
          writes.print_self _ stream s.world,
        )

  -- A client that joins, with a number and a stream that no other client has, a ready server that
  -- shows the text and the version of `shared` gets its role, this version and this text and then,
  -- while the others join, leave and send commands, the promised broadcast of each command handled, in
  -- the order in which they were handled and nothing else: with streams that accept what is put into
  -- them, if nothing outside writes to its stream and the texts promised are shorter than 2^64 - 1
  -- bytes. The server shows the text and the version promised then.
  pub welcomed-Received :
      (streams : AreStreams sys content (λ s. true)) (pid : ℕ) (username : Text) (role : UserRole)
      (c2s_path s2c_path : Text) (stream : ℕ) (shared : Shared) (start s : ServerState W)
      (qs : List Request)
      → IsNew pid stream shared start
      → HasRoom shared qs
      → Meanwhile sys content pid stream
          (welcome_client sys pid username role c2s_path s2c_path stream start).1
          qs
          s
      → Shows s.core s.heap (spec_serve shared qs).1
        × (content stream s.world
            ≡ content stream start.world
              ++ (promised_welcome role shared ++ promised_broadcasts shared qs))
  welcomed-Received streams pid username role c2s_path s2c_path stream shared start s qs n room m =
      let (c, first) =
        welcomed-IsConnected pid username role c2s_path s2c_path stream shared start n in
      let (after, got) = Meanwhile-Received sys content streams writes pid stream shared room c m in
      (
        after.shows,
        got
            ∙ (ap (◌++ promised_broadcasts shared qs) first
                ∙ append_assoc (content stream start.world) _ _),
      )
