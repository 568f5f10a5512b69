-- ===== src/Server/Interleaving.antt =====
-- Whatever the order in which the threads of the clients enter their critical sections.
use collab_markdown_server.Base.{
  ℕ, ◌+◌, ◌%◌, ◌≡◌, refl, ap, ◌∙◌, inl, inr, Bool, true, Option, List, [], ◌∷◌, length,
  length-append, sym, ◌++◌, if◌then◌else◌, arith, Text, word_mod, Option-cases,
}
use collab_markdown_server.Markdown.Document.{Heap, pending}
use collab_markdown_server.System.{System, AreStreams}
use collab_markdown_server.Command.{UserRole}
use collab_markdown_server.ClientRegistry.{
  ClientRegistry, client_registry_add, client_registry_remove,
}
use collab_markdown_server.ClientRegistry.Lookup.{IsRegistry, add-Added}
use collab_markdown_server.ClientRegistry.Removal.{remove-Removed}
use collab_markdown_server.ClientRegistry.Broadcast.{
  HaveStreams, reached, is_stream_of, broadcast-reached,
}
use collab_markdown_server.ServerCore.{
  build_payload, copy_without_trailing_newline, server_core_init,
}
use collab_markdown_server.ServerCore.Session.{Request, round, IsReady}
use collab_markdown_server.ServerCore.Session.Rounds.{round-Advanced}
use collab_markdown_server.ServerCore.Session.Runs.{succ_mod, init-IsReady}
use collab_markdown_server.Server.{
  ServerState, initial_document, server_start, welcome_client, handle_command, client_leaves,
}

add-IsRegistry :
    (r : ClientRegistry) (pid : ℕ) (username : Option Text) (role : UserRole)
    (c2s s2c : Option Text) (out_stream : Option ℕ)
    → IsRegistry r
    → IsRegistry (client_registry_add r pid username role c2s s2c out_stream).1
add-IsRegistry r pid username role c2s s2c out_stream ok =
    elim (add-Added r pid username role c2s s2c out_stream ok) [
      | inl (c, _, _, _, added) ↦ added.well_formed
      | inr (_, same) ↦ rw same ok
    ]

module _ {W : Type 0} (sys : System W) where
  -- `Reachable start qs s`: some order of critical sections, which handled the requests `qs` in this
  -- order, leads to `s`; between them the world outside may change in any way.
  pub data Reachable (start : ServerState W) : List Request → ServerState W → Type 0 where
    started : Reachable start [] start
    welcomed :
        {qs : List Request} {s : ServerState W} (pid : ℕ) (username : Text) (role : UserRole)
        (c2s_path s2c_path : Text) (s2c : ℕ)
        → Reachable start qs s
        → Reachable start qs (welcome_client sys pid username role c2s_path s2c_path s2c s).1
    handled :
        {qs : List Request} {s : ServerState W} (q : Request)
        → Reachable start qs s
        → Reachable start (qs ++ (q ∷ [])) (handle_command sys q s).1
    left :
        {qs : List Request} {s : ServerState W} (pid : ℕ)
        → Reachable start qs s
        → Reachable start qs (client_leaves sys pid s)
    outside :
        {qs : List Request} {s : ServerState W} (w : W)
        → Reachable start qs s
        → Reachable start qs (record s { world = w })

  -- Between two critical sections: the core is ready for a command, with the number of the commands
  -- as its version, and the registry has one client for each pid.
  pub record IsServer (n : ℕ) (s : ServerState W) : Type 0 where
    pub ready : IsReady s.core s.heap
    pub version : s.core.current_version ≡ n % word_mod
    pub one_each : IsRegistry s.registry

  remove-IsRegistry :
      (r : ClientRegistry) (pid : ℕ) (w : W)
      → IsRegistry r
      → IsRegistry (client_registry_remove sys r pid w).1
  remove-IsRegistry r pid w ok = elim (remove-Removed sys r pid w ok) [
    | inl (c, _, _, removed, _) ↦ removed.well_formed
    | inr (_, same) ↦ rw same ok
  ]

  welcomed-IsServer :
      {n : ℕ} {s : ServerState W} (pid : ℕ) (username : Text) (role : UserRole)
      (c2s_path s2c_path : Text) (s2c : ℕ)
      → IsServer n s
      → IsServer n (welcome_client sys pid username role c2s_path s2c_path s2c s).1
  unfolding welcome_client
  welcomed-IsServer {n} {s} pid username role c2s_path s2c_path s2c ok =
      elim (Option-cases (initial_document role s.core s.heap)) [
        | inl e ↦ rw (e, welcome_client) ok
        | inr (message, e) ↦
            rw (e, welcome_client)
              (record {
                ready = ok.ready;
                version = ok.version;
                one_each = add-IsRegistry s.registry pid _ role _ _ _ ok.one_each;
              })
      ]

  Reachable-IsServer :
      {start s : ServerState W} {qs : List Request}
      → IsServer 0 start
      → Reachable start qs s
      → IsServer (length qs) s
  unfolding handle_command client_leaves
  Reachable-IsServer ok started = ok
  Reachable-IsServer ok (welcomed pid username role c2s_path s2c_path s2c r) =
      welcomed-IsServer pid username role c2s_path s2c_path s2c (Reachable-IsServer ok r)
  Reachable-IsServer ok (handled {qs = qs} {s = s} q r) =
      let before = Reachable-IsServer ok r in
      let a = round-Advanced s.core q s.heap before.ready in
      record {
        ready = a.ready;
        version =
            a.version
            ∙ (ap (λ (k : ℕ). (k + 1) % word_mod) before.version
                ∙ (succ_mod (length qs)
                    ∙ ap (λ (k : ℕ). k % word_mod) (sym (length-append qs (q ∷ [])))));
        one_each = before.one_each;
      }
  Reachable-IsServer ok (left {s = s} pid r) =
      let before = Reachable-IsServer ok r in
      record {
        ready = before.ready;
        version = before.version;
        one_each = remove-IsRegistry s.registry pid s.world before.one_each;
      }
  Reachable-IsServer ok (outside w r) =
      let before = Reachable-IsServer ok r in
      record { ready = before.ready; version = before.version; one_each = before.one_each }

  -- In any order of critical sections of a server that was started at an address with nothing
  -- pending, clients being welcomed, handled and removed, whatever happens outside meanwhile, the
  -- core is ready for the next command at each point between two of them, its version is the number
  -- of the commands handled (modulo 2^64), and the registry holds one client for each pid and their
  -- number.
  pub server_start-IsServer :
      (doc : ℕ) (h : Heap) (w : W) (qs : List Request) (s : ServerState W)
      → pending doc h.op_lists ≡ []
      → Reachable (server_start doc h w) qs s
      → IsServer (length qs) s
  unfolding server_start
  server_start-IsServer doc h w qs s clear r =
      Reachable-IsServer
        (record {
          ready = init-IsReady doc h clear;
          version = unfold server_core_init in refl;
          one_each = (tt, omega arith);
        })
        r

  -- What a command puts into the streams of the clients: for streams that accept, one of each
  -- client, those of the clients before the first whose stream does not accept get one broadcast,
  -- with the new version, the command, its user and its result, and the others nothing.
  handled-broadcast :
      (content : ℕ → W → Text) (accepts : ℕ → Bool) (q : Request) (s : ServerState W)
      → AreStreams sys content accepts
      → IsReady s.core s.heap
      → HaveStreams s.registry.clients
      → (stream : ℕ) → accepts stream ≡ true
      → content stream (handle_command sys q s).1.world ≡ (
          if is_stream_of stream (reached accepts s.registry.clients)
          then content stream s.world
            ++ build_payload
                (record {
                  user = q.user;
                  command = copy_without_trailing_newline q.line;
                  result = (handle_command sys q s).0;
                }
                  ∷ [])
                (handle_command sys q s).1.core.current_version
          else content stream s.world)
  unfolding handle_command
  handled-broadcast content accepts q s streams ready own stream a =
      let sent =
        broadcast-reached sys content accepts streams s.registry (round s.core q s.heap).payload
          s.world own in
      sent.1 stream a
      ∙ ap
          (λ (p : Text).
            if is_stream_of stream (reached accepts s.registry.clients)
            then content stream s.world ++ p
            else content stream s.world)
          (round-Advanced s.core q s.heap ready).broadcast
