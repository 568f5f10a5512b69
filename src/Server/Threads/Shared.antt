-- ===== src/Server/Threads/Shared.antt =====
-- What the threads share is what the server promises.
use collab_markdown_server.Base.{
  ℕ, ◌≡◌, refl, ap, Bool, true, false, List, [], ◌∷◌, ◌++◌, append_assoc, append-nil, map,
}
use collab_markdown_server.Markdown.Document.{Heap, pending}
use collab_markdown_server.System.{System}
use collab_markdown_server.ServerCore.Session.{Request}
use collab_markdown_server.ServerCore.Spec.{nothing_shared, spec_serve, HasRoom}
use collab_markdown_server.ServerCore.Spec.Refinement.{Shows}
use collab_markdown_server.Server.{ServerState, server_start, welcome_client}
use collab_markdown_server.Server.Interleaving.{
  Reachable, started, welcomed, handled, left, outside,
}
use collab_markdown_server.Server.Linearized.{Reachable-Shows}
use collab_markdown_server.Server.Thread.{no_username, refused, admitted, command_lines, requests}
use collab_markdown_server.Server.Threads.{
  Phase, arriving, serving, finished, Thread, next_request, Turn, turn, elsewhere, behind_welcome,
  phase_step, Pool, pool_step, run_pool, handled_by,
}

-- What the commands of a trace are, whatever their threads.
abbrev pub in_trace : List (ℕ × Request) → List Request
in_trace [] = []
in_trace ((i, q) ∷ trace) = q ∷ in_trace trace

pub in_trace-append :
    (i : ℕ) (qs : List Request) (trace : List (ℕ × Request))
    → in_trace (map (λ q. (i, q)) qs ++ trace) ≡ qs ++ in_trace trace
in_trace-append i [] trace = refl
in_trace-append i (q ∷ qs) trace = ap (q ∷◌) (in_trace-append i qs trace)

module _ {W : Type 0} (sys : System W) where
  behind-Reachable :
      {start s : ServerState W} {qs : List Request} (t : Thread) (more : List Request)
      (added : Bool)
      → Reachable sys start qs s
      → Reachable sys start qs (behind_welcome sys t more (added, s)).1
  behind-Reachable t more true r = r
  behind-Reachable t more false r = outside _ r

  phase_step-Reachable :
      (t : Thread) (phase : Phase) {start s : ServerState W} {qs : List Request}
      → Reachable sys start qs s
      → Reachable sys start (qs ++ next_request phase) (phase_step sys t phase s).1
  unfolding phase_step
  phase_step-Reachable t (arriving no_username) {start} {s} {qs} r =
      rw (append-nil qs) (outside _ r)
  phase_step-Reachable t (arriving refused) {start} {s} {qs} r = rw (append-nil qs) (outside _ r)
  phase_step-Reachable t (arriving (admitted username role rest)) {start} {s} {qs} r =
      rw (append-nil qs) (
        behind-Reachable t (requests username role (command_lines rest))
          (welcome_client sys t.pid username role t.c2s_path t.s2c_path t.s2c s).0
          (welcomed t.pid username role t.c2s_path t.s2c_path t.s2c r))
  phase_step-Reachable t (serving []) {start} {s} {qs} r =
      rw (append-nil qs) (outside _ (left t.pid r))
  phase_step-Reachable t (serving (q ∷ more)) r = handled q r
  phase_step-Reachable t finished {start} {s} {qs} r = rw (append-nil qs) r

  pub run_pool-Reachable :
      (turns : List (Turn W)) (p : Pool W) {start : ServerState W} {qs : List Request}
      → Reachable sys start qs p.shared
      → Reachable sys start (qs ++ in_trace (handled_by sys turns p)) (run_pool sys turns p).shared
  unfolding run_pool handled_by pool_step
  run_pool-Reachable [] p {start} {qs} r = rw (append-nil qs) r
  run_pool-Reachable (turn i ∷ turns) p {start} {qs} r =
      let phase = (p.threads i).phase in
      let p' = pool_step sys (turn i) p in
      rw
        (
          in_trace-append i (next_request phase) (handled_by sys turns p'),
          ← append_assoc qs (next_request phase) (in_trace (handled_by sys turns p')),
        )
        (run_pool-Reachable turns p' (phase_step-Reachable (p.threads i) phase r))
  run_pool-Reachable (elsewhere w ∷ turns) p r =
      run_pool-Reachable turns (pool_step sys (elsewhere w) p) (outside w r)

-- Whatever the order in which the threads of all clients take their turns, and whatever happens
-- outside meanwhile, in a server that was started at an address with nothing pending: what the
-- threads share shows the text and the version that are promised for the commands handled, one after
-- the other in the order of the turns, if the promised texts are shorter than 2^64 - 1 bytes.
pub run_pool-Shows :
    {W : Type 0} (sys : System W) (doc : ℕ) (h : Heap) (w : W) (threads : ℕ → Thread)
    (turns : List (Turn W))
    → let p : Pool W = record { threads = threads; shared = server_start doc h w } in
      pending doc h.op_lists ≡ []
      → HasRoom nothing_shared (in_trace (handled_by sys turns p))
      → Shows
          (run_pool sys turns p).shared.core
          (run_pool sys turns p).shared.heap
          (spec_serve nothing_shared (in_trace (handled_by sys turns p))).1
run_pool-Shows {W} sys doc h w threads turns clear room =
    let p : Pool W = record { threads = threads; shared = server_start doc h w } in
    Reachable-Shows sys doc h w (in_trace (handled_by sys turns p)) (run_pool sys turns p).shared
      clear room (run_pool-Reachable sys turns p started)
