-- ===== src/Server/Linearized.antt =====
-- The clients in any interleaving see what one client would see that sent all the requests, in the
-- order in which they took the mutex.
use collab_markdown_server.Base.{
  ℕ, ◌≡◌, refl, ap, sym, ◌∙◌, List, [], ◌∷◌, ◌++◌, inl, inr, Option-cases, Text, subst,
}
use collab_markdown_server.Markdown.Document.{Heap, pending}
use collab_markdown_server.System.{System}
use collab_markdown_server.Command.{UserRole}
use collab_markdown_server.ServerCore.{ServerCore}
use collab_markdown_server.ServerCore.Session.{Request, round, serve}
use collab_markdown_server.ServerCore.Spec.{nothing_shared, spec_serve, HasRoom}
use collab_markdown_server.ServerCore.Spec.Refinement.{Shows, serve-refines}
use collab_markdown_server.Server.{
  ServerState, initial_document, server_start, welcome_client, handle_command, client_leaves,
}
use collab_markdown_server.Server.Interleaving.{
  Reachable, started, welcomed, handled, left, outside,
}

serve-append :
    (core : ServerCore) (qs : List Request) (q : Request) (h : Heap)
    → serve core (qs ++ (q ∷ [])) h ≡ (
      (round (serve core qs h).0 q (serve core qs h).1).core,
      (round (serve core qs h).0 q (serve core qs h).1).heap,
    )
unfolding serve
serve-append core [] q h = refl
serve-append core (p ∷ qs) q h = serve-append (round core p h).core qs q (round core p h).heap

module _ {W : Type 0} (sys : System W) where
  abbrev core_of : ServerState W → ServerCore × Heap
  core_of s = (s.core, s.heap)

  welcomed-core :
      (pid : ℕ) (username : Text) (role : UserRole) (c2s_path s2c_path : Text) (s2c : ℕ)
      (s : ServerState W)
      → core_of (welcome_client sys pid username role c2s_path s2c_path s2c s).1 ≡ core_of s
  unfolding welcome_client
  welcomed-core pid username role c2s_path s2c_path s2c s =
      elim (Option-cases (initial_document role s.core s.heap)) [
        | inl e ↦ rw (e, welcome_client) refl
        | inr (message, e) ↦ rw (e, welcome_client) refl
      ]

  pub Reachable-serve :
      {start s : ServerState W} {qs : List Request}
      → Reachable sys start qs s
      → core_of s ≡ serve start.core qs start.heap
  unfolding serve handle_command client_leaves
  Reachable-serve started = refl
  Reachable-serve (welcomed {s = s} pid username role c2s_path s2c_path s2c r) =
      welcomed-core pid username role c2s_path s2c_path s2c s ∙ Reachable-serve r
  Reachable-serve {start} (handled {qs = qs} {s = s} q r) =
      ap (λ (x : ServerCore × Heap). ((round x.0 q x.1).core, (round x.0 q x.1).heap))
        (Reachable-serve r)
      ∙ sym (serve-append start.core qs q start.heap)
  Reachable-serve (left pid r) = Reachable-serve r
  Reachable-serve (outside w r) = Reachable-serve r

  -- However the critical sections of the clients interleave, in a server that was started at an
  -- address with nothing pending: the text and the version that it shows are those promised for the
  -- requests handled, one after the other in the order in which they were, if the promised texts are
  -- shorter than 2^64 - 1 bytes.
  pub Reachable-Shows :
      (doc : ℕ) (h : Heap) (w : W) (qs : List Request) (s : ServerState W)
      → pending doc h.op_lists ≡ []
      → HasRoom nothing_shared qs
      → Reachable sys (server_start doc h w) qs s
      → Shows s.core s.heap (spec_serve nothing_shared qs).1
  unfolding server_start
  Reachable-Shows doc h w qs s clear room r =
      subst (λ (x : ServerCore × Heap). Shows x.0 x.1 (spec_serve nothing_shared qs).1)
        (sym (Reachable-serve r)) (serve-refines doc h qs clear room).1
