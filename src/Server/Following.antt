-- ===== src/Server/Following.antt =====
-- What one client is sent while it is connected, whatever the other clients do.
pub mod Steps
pub mod Received
pub mod Joined
use collab_markdown_server.Base.{
  ℕ, suc, ◌+◌, ◌<◌, ◌≡◌, ◌≢◌, refl, ap, sym, ◌∙◌, subst, ◌⊎◌, inl, inr, Bool, Bool-cases, true,
  false, ◌||◌, Option, none, some, Option-cases, List, [], ◌∷◌, ◌++◌, append_assoc, append-nil,
  arith, ◌==◌, if◌then◌else◌, length, Text, word_mod,
}
use collab_markdown_server.System.{System, AreStreams, AreWrites}
use collab_markdown_server.Command.{UserRole}
use collab_markdown_server.ClientRegistry.{
  ClientConn, ClientRegistry, find_client, client_registry_find, new_client, add_client,
  client_registry_add, unlink_client, drop_client, client_registry_remove,
}
use collab_markdown_server.ClientRegistry.Lookup.{Without, unlink-Unlinked}
use collab_markdown_server.ClientRegistry.Broadcast.{
  is_stream_of, HaveStreams, reached, broadcast-reached,
}
use collab_markdown_server.ClientRegistry.Streams.{
  reached-all, find-is_stream_of, Apart, unlink-Apart,
}
use collab_markdown_server.ServerCore.{ServerCore}
use collab_markdown_server.ServerCore.Session.{Request, round, IsReady}
use collab_markdown_server.ServerCore.Session.Rounds.{round-Advanced}
use collab_markdown_server.ServerCore.Spec.{Shared, spec_round, spec_serve, HasRoom}
use collab_markdown_server.ServerCore.Spec.Refinement.{Shows, round-Shows}
use collab_markdown_server.ServerCore.Spec.Broadcasts.{
  promised_broadcast, promised_broadcasts, round-promised,
}
use collab_markdown_server.Server.{
  ServerState, initial_document, welcome_client, handle_command, client_leaves,
}

module _ {W : Type 0} (sys : System W) (content : ℕ → W → Text) where
  -- `Meanwhile pid stream start qs s`: critical sections of the clients that handle the requests `qs`
  -- lead from `start` to `s`; the client `pid` with `stream` does not leave, a client that joins has a
  -- stream that no other one has, and what happens outside does not write to `stream`.
  pub data Meanwhile (pid stream : ℕ) (start : ServerState W)
      : List Request → ServerState W → Type 0 where
    begun : Meanwhile pid stream start [] start
    handled :
        {qs : List Request} {s : ServerState W} (q : Request)
        → Meanwhile pid stream start qs s
        → Meanwhile pid stream start (qs ++ (q ∷ [])) (handle_command sys q s).1
    joined :
        {qs : List Request} {s : ServerState W} (other : ℕ) (username : Text) (role : UserRole)
        (c2s_path s2c_path : Text) (s2c : ℕ)
        → is_stream_of s2c s.registry.clients ≡ false
        → Meanwhile pid stream start qs s
        → Meanwhile pid stream start qs
            (welcome_client sys other username role c2s_path s2c_path s2c s).1
    left :
        {qs : List Request} {s : ServerState W} (other : ℕ)
        → other ≢ pid
        → Meanwhile pid stream start qs s
        → Meanwhile pid stream start qs (client_leaves sys other s)
    outside :
        {qs : List Request} {s : ServerState W} (w : W)
        → content stream w ≡ content stream s.world
        → Meanwhile pid stream start qs s
        → Meanwhile pid stream start qs (record s { world = w })

  -- A server that shows what is shared, and to which a client is connected.
  pub record IsConnected (pid stream : ℕ) (shared : Shared) (s : ServerState W) : Type 0 where
    pub ready : IsReady s.core s.heap
    pub shows : Shows s.core s.heap shared
    pub own : HaveStreams s.registry.clients
    pub client : ClientConn
    pub found : find_client pid s.registry.clients ≡ some client
    pub its_stream : client.out_stream ≡ stream
