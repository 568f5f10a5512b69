-- ===== src/Server/Main.antt =====
-- `main` of src/server.c before and behind its loop.
use collab_markdown_server.Base.{
  sym, ap, ◌∙◌, Option-cases, ℕ, ◌≡◌, refl, ◌⊎◌, inl, inr, Bool, true, false, Option, none, some,
  List, [], ◌∷◌, Text,
}
use collab_markdown_server.Libc.Numbers.Signed.{ℤ}
use collab_markdown_server.Markdown.Document.{Heap, pending}
use collab_markdown_server.System.{System}
use collab_markdown_server.Files.{Files, View, Same, AreFiles}
use collab_markdown_server.Arguments.{parse_interval_ms}
use collab_markdown_server.ClientRegistry.{free_clients, client_registry_free}
use collab_markdown_server.ServerCore.{server_core_free}
use collab_markdown_server.ServerCore.Session.{IsReady, serve}
use collab_markdown_server.ServerCore.Session.Runs.{init-IsReady}
use collab_markdown_server.ServerCore.Spec.{nothing_shared, spec_serve, HasRoom}
use collab_markdown_server.ServerCore.Spec.Refinement.{Shows, serve-refines}
use collab_markdown_server.Server.{ServerState, server_start}

-- What runs on, or the heap and the world that a program leaves that has ended.
abbrev pub Started : Type 0 → Type 0
Started W = ServerState W ⊎ (Heap × W)

module _ {W : Type 0} (sys : System W) (fs : Files W) where
  -- Everything that `main` has made is freed.
  unfoldable pub server_end : ServerState W → Heap × W
  server_end s = (server_core_free s.core s.heap, client_registry_free sys s.registry s.world)

  abbrev with_handler : Bool → ServerState W → Started W
  with_handler true s = inl s
  with_handler false s = inr (server_end s)

  -- The interval is not used.
  abbrev with_interval : ℕ → Heap → W → Option ℤ → Started W
  with_interval doc h w none = inr (h, w)
  with_interval doc h w (some interval) =
      let s = server_start doc h w in
      let (set, w1) = fs.sigaction w in with_handler set (record s { world = w1 })

  -- `argv` with the name of the program; `doc` is the address of the document.
  unfoldable pub server_begin : List Text → ℕ → Heap → W → Started W
  server_begin (program ∷ interval ∷ []) doc h w =
      with_interval doc h w (parse_interval_ms (some interval))
  server_begin _ doc h w = inr (h, w)

module _ {W : Type 0} (sys : System W) (fs : Files W) (v : View W) (laws : AreFiles sys fs v)
    (argv : List Text) (w : W) where
  -- One word, a number that `parse_interval_ms` takes, and sigaction succeeds.
  abbrev pub Runs : Type 0
  Runs =
      (program : Text) × (word : Text) × (interval : ℤ) × (argv ≡ program ∷ word ∷ [])
      × (parse_interval_ms (some word) ≡ some interval)
      × ((fs.sigaction w).0 ≡ true)

  -- A server that shows the empty text at version 0, with no clients; or one that has ended.
  abbrev pub Begins : Started W → Type 0
  Begins (inl s) =
      Runs
      × IsReady s.core s.heap
      × Shows s.core s.heap nothing_shared
      × (s.registry.clients ≡ [])
      × Same v w s.world
  Begins (inr (h, w')) = ¬ Runs × Same v w w'

  ends : (h : Heap) → ¬ Runs → Begins (inr (h, w))
  ends h stopped = (stopped, record { names = λ q. refl; descriptors = λ k. refl })

  with_handler-Begins :
      (set : Bool) (program word : Text) (interval : ℤ) (doc : ℕ) (h : Heap) (w' : W)
      → pending doc h.op_lists ≡ []
      → argv ≡ program ∷ word ∷ []
      → parse_interval_ms (some word) ≡ some interval
      → (fs.sigaction w).0 ≡ set
      → Same v w w'
      → Begins (with_handler sys fs set (record (server_start doc h w) { world = w' }))
  unfolding server_start server_end client_registry_free free_clients serve spec_serve HasRoom
  with_handler-Begins true program word interval doc h w' clear e parsed set same = (
    (program, word, interval, e, parsed, set),
    init-IsReady doc h clear,
    (serve-refines doc h [] clear tt).1,
    refl,
    same,
  )
  with_handler-Begins false program word interval doc h w' clear e parsed set same =
      (λ r. let there : (fs.sigaction w).0 ≡ true = r.5 in cc, same)

  with_interval-Begins :
      (program word : Text) (doc : ℕ) (h : Heap)
      → pending doc h.op_lists ≡ []
      → argv ≡ program ∷ word ∷ []
      → Begins (with_interval sys fs doc h w (parse_interval_ms (some word)))
  with_interval-Begins program word doc h clear e =
      elim (Option-cases (parse_interval_ms (some word))) [
        | inl none_of_it ↦ rw none_of_it (
            ends h (λ r.
              let at : program ∷ word ∷ [] ≡ r.0 ∷ r.1 ∷ [] = sym e ∙ r.3 in
              let same : word ≡ r.1 = cc in
              let parsed : parse_interval_ms (some word) ≡ some r.2 =
                ap (λ (t : Text). parse_interval_ms (some t)) same ∙ r.4 in
              cc))
        | inr (interval, parsed) ↦ rw parsed (
            with_handler-Begins (fs.sigaction w).0 program word interval doc h (fs.sigaction w).1
              clear e parsed refl (laws.sigaction_same w))
      ]

-- Whatever it is started with, at an address with nothing pending, the server runs exactly if it is
-- started with one word, a number that `parse_interval_ms` takes, and sigaction succeeds; and it is then
-- ready for a command, shows the empty text at version 0 and has no client. Otherwise it has ended. The
-- names and the open descriptors are as before.
pub server_begin-Begins :
    {W : Type 0} (sys : System W) (fs : Files W) (v : View W) (laws : AreFiles sys fs v)
    (argv : List Text) (doc : ℕ) (h : Heap) (w : W)
    → pending doc h.op_lists ≡ []
    → Begins sys fs v laws argv w (server_begin sys fs argv doc h w)
unfolding server_begin
server_begin-Begins sys fs v laws [] doc h w clear =
    ends sys fs v laws [] w h (λ r. let e = r.3 in cc)
server_begin-Begins sys fs v laws (program ∷ []) doc h w clear =
    ends sys fs v laws _ w h (λ r. let e = r.3 in cc)
server_begin-Begins sys fs v laws (program ∷ word ∷ []) doc h w clear =
    with_interval-Begins sys fs v laws _ w program word doc h clear refl
server_begin-Begins sys fs v laws (program ∷ word ∷ more ∷ rest) doc h w clear =
    ends sys fs v laws _ w h (λ r. let e = r.3 in cc)
