-- ===== src/Server/Following/Received.antt =====
-- The broadcasts that one client gets, in the order in which the commands took the mutex.
use collab_markdown_server.Base.{
  ℕ, ◌+◌, ◌<◌, ◌≡◌, refl, ap, sym, ◌∙◌, subst, List, [], ◌∷◌, ◌++◌, append_assoc, append-nil, true,
  length, Text, word_mod,
}
use collab_markdown_server.System.{System, AreStreams, AreWrites}
use collab_markdown_server.ServerCore.Session.{Request}
use collab_markdown_server.ServerCore.Spec.{Shared, spec_round, spec_serve, HasRoom}
use collab_markdown_server.ServerCore.Spec.Broadcasts.{promised_broadcast, promised_broadcasts}
use collab_markdown_server.Server.{ServerState, handle_command}
use collab_markdown_server.Server.Following.{
  Meanwhile, begun, handled, joined, left, outside, IsConnected,
}
use collab_markdown_server.Server.Following.Steps.{
  handled-IsConnected, joined-IsConnected, left-IsConnected, with_registry,
}

spec_serve-append :
    (s : Shared) (qs : List Request) (q : Request)
    → (spec_serve s (qs ++ (q ∷ []))).1 ≡ (spec_round (spec_serve s qs).1 q).1
unfolding spec_serve
spec_serve-append s [] q = refl
spec_serve-append s (p ∷ qs) q = spec_serve-append (spec_round s p).1 qs q

promised_broadcasts-append :
    (s : Shared) (qs : List Request) (q : Request)
    → promised_broadcasts s (qs ++ (q ∷ []))
      ≡ promised_broadcasts s qs ++ promised_broadcast (spec_serve s qs).1 q
unfolding spec_serve promised_broadcasts
promised_broadcasts-append s [] q = append-nil _
promised_broadcasts-append s (p ∷ qs) q =
    ap (promised_broadcast s p ++◌) (promised_broadcasts-append (spec_round s p).1 qs q)
    ∙ sym (append_assoc (promised_broadcast s p) _ _)

HasRoom-append :
    (s : Shared) (qs : List Request) (q : Request)
    → HasRoom s (qs ++ (q ∷ []))
    → HasRoom s qs × (length (spec_serve s qs).1.text + 1 < word_mod)
unfolding spec_serve HasRoom
HasRoom-append s [] q (now, later) = (tt, now)
HasRoom-append s (p ∷ qs) q (now, later) =
    let (rest, last) = HasRoom-append (spec_round s p).1 qs q later in ((now, rest), last)

module _ {W : Type 0} (sys : System W) (content : ℕ → W → Text)
    (streams : AreStreams sys content (λ s. true)) (writes : AreWrites sys content) where
  -- The server after requests of the shared state, and what a stream got since.
  abbrev Received : ℕ → ℕ → Shared → List Request → W → ServerState W → Type 0
  Received pid stream shared qs w s =
      IsConnected sys content pid stream (spec_serve shared qs).1 s
      × (content stream s.world ≡ content stream w ++ promised_broadcasts shared qs)

  handled-Received :
      (pid stream : ℕ) (shared : Shared) (qs : List Request) (w : W) (s : ServerState W)
      (q : Request)
      → length (spec_serve shared qs).1.text + 1 < word_mod
      → Received pid stream shared qs w s
      → Received pid stream shared (qs ++ (q ∷ [])) w (handle_command sys q s).1
  handled-Received pid stream shared qs w s q room (c, got) =
      let (after, more) =
        handled-IsConnected sys content streams pid stream (spec_serve shared qs).1 s q c room in
      (
        subst (λ (x : Shared). IsConnected sys content pid stream x (handle_command sys q s).1)
            (sym (spec_serve-append shared qs q)) after,
        more
            ∙ (ap (◌++ promised_broadcast (spec_serve shared qs).1 q) got
                ∙ (append_assoc (content stream w) _ _
                    ∙ ap (content stream w ++◌) (sym (promised_broadcasts-append shared qs q)))),
      )

  -- A client that is connected, with a stream of its own, to a ready server that shows the text and
  -- the version of `shared` gets, while the others join, leave and send commands, the promised
  -- broadcast of each command handled, in the order in which they were handled and nothing else: with
  -- streams that accept what is put into them, if nothing outside writes to its stream and the texts
  -- promised are shorter than 2^64 - 1 bytes. It is still connected then, and the server shows the
  -- text and the version promised.
  pub Meanwhile-Received :
      (pid stream : ℕ) (shared : Shared) {start s : ServerState W} {qs : List Request}
      → HasRoom shared qs
      → IsConnected sys content pid stream shared start
      → Meanwhile sys content pid stream start qs s
      → IsConnected sys content pid stream (spec_serve shared qs).1 s
        × (content stream s.world ≡ content stream start.world ++ promised_broadcasts shared qs)
  unfolding spec_serve promised_broadcasts
  Meanwhile-Received pid stream shared room c begun = (c, sym (append-nil _))
  Meanwhile-Received pid stream shared {start} room c (handled {qs = qs} {s = s} q m) =
      let (before, now) = HasRoom-append shared qs q room in
      handled-Received pid stream shared qs start.world s q now
        (Meanwhile-Received pid stream shared before c m)
  Meanwhile-Received pid stream shared room c
        (joined {qs = qs} {s = s} other username role c2s_path s2c_path s2c fresh m) =
      let (before, got) = Meanwhile-Received pid stream shared room c m in
      let (after, same) =
        joined-IsConnected sys content writes pid stream (spec_serve shared qs).1 s before other
          username role c2s_path s2c_path s2c fresh in
      (after, same ∙ got)
  Meanwhile-Received pid stream shared room c (left {qs = qs} {s = s} other apart m) =
      let (before, got) = Meanwhile-Received pid stream shared room c m in
      let (after, same) =
        left-IsConnected sys content writes pid stream (spec_serve shared qs).1 s before other
          apart in
      (after, same ∙ got)
  Meanwhile-Received pid stream shared room c (outside {qs = qs} {s = s} w same m) =
      let (before, got) = Meanwhile-Received pid stream shared room c m in
      (
        with_registry sys content writes pid stream (spec_serve shared qs).1 s before s.registry w
            before.own before.found,
        same ∙ got,
      )
