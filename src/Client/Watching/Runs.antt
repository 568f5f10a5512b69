-- ===== src/Client/Watching/Runs.antt =====
-- All that the threads of the server ever handle are commands.
use collab_markdown_server.Base.{
  ℕ, ◌≡◌, refl, Bool, Bool-cases, inl, inr, true, false, Option, List, [], ◌∷◌, ◌++◌, ◌==◌, Text,
}
use collab_markdown_server.System.{System}
use collab_markdown_server.ServerCore.Session.{Request}
use collab_markdown_server.Server.{ServerState, welcome_client}
use collab_markdown_server.Server.Thread.{
  Arrival, no_username, refused, admitted, arrival, command_lines, requests,
}
use collab_markdown_server.Server.Threads.{
  Phase, arriving, serving, finished, Thread, next_request, Turn, turn, elsewhere, Pool,
  behind_welcome, phase_step, pool_step, handled_by,
}
use collab_markdown_server.Server.Threads.Order.{waiting}
use collab_markdown_server.Server.Threads.Shared.{in_trace, in_trace-append}
use collab_markdown_server.Client.Watching.{AreCommands}
use collab_markdown_server.Client.Watching.Arrivals.{arrival-AreCommands}

AreCommands-append :
    (qs rs : List Request) → AreCommands qs → AreCommands rs → AreCommands (qs ++ rs)
unfolding AreCommands
AreCommands-append [] rs first second = second
AreCommands-append (q ∷ qs) rs (now, first) second = (now, AreCommands-append qs rs first second)

arriving-AreCommands :
    (files : Text → Option Text) (input : Text) (who : Arrival)
    → arrival files input ≡ who
    → AreCommands (waiting (arriving who))
unfolding AreCommands
arriving-AreCommands files input no_username e = tt
arriving-AreCommands files input refused e = tt
arriving-AreCommands files input (admitted username role rest) e =
    arrival-AreCommands files input username role rest e

next-AreCommands : (phase : Phase) → AreCommands (waiting phase) → AreCommands (next_request phase)
unfolding AreCommands
next-AreCommands (arriving who) c = tt
next-AreCommands (serving []) c = tt
next-AreCommands (serving (q ∷ qs)) (now, later) = (now, tt)
next-AreCommands finished c = tt

module _ {W : Type 0} (sys : System W) where
  behind-AreCommands :
      (t : Thread) (qs : List Request) (added : Bool) (s : ServerState W)
      → AreCommands qs
      → AreCommands (waiting (behind_welcome sys t qs (added, s)).0)
  unfolding AreCommands
  behind-AreCommands t qs true s c = c
  behind-AreCommands t qs false s c = tt

  step-AreCommands :
      (t : Thread) (phase : Phase) (s : ServerState W)
      → AreCommands (waiting phase)
      → AreCommands (waiting (phase_step sys t phase s).0)
  unfolding phase_step AreCommands
  step-AreCommands t (arriving no_username) s c = tt
  step-AreCommands t (arriving refused) s c = tt
  step-AreCommands t (arriving (admitted username role rest)) s c =
      let w = welcome_client sys t.pid username role t.c2s_path t.s2c_path t.s2c s in
      behind-AreCommands t (requests username role (command_lines rest)) w.0 w.1 c
  step-AreCommands t (serving []) s c = tt
  step-AreCommands t (serving (q ∷ qs)) s (now, later) = later
  step-AreCommands t finished s c = tt

  run-AreCommands :
      (turns : List (Turn W)) (p : Pool W)
      → ((i : ℕ) → AreCommands (waiting (p.threads i).phase))
      → AreCommands (in_trace (handled_by sys turns p))
  unfolding handled_by pool_step AreCommands
  run-AreCommands [] p c = tt
  run-AreCommands (elsewhere w ∷ turns) p c =
      run-AreCommands turns (pool_step sys (elsewhere w) p) c
  run-AreCommands (turn i ∷ turns) p c =
      let t = p.threads i in
      let p' = pool_step sys (turn i) p in
      let later = run-AreCommands turns p' (λ j. elim (Bool-cases (j == i)) [
        | inl same ↦ rw same (step-AreCommands t t.phase p.shared (c i))
        | inr other ↦ rw other (c j)
      ]) in
      rw (in_trace-append i (next_request t.phase) (handled_by sys turns p')) (
        AreCommands-append (next_request t.phase) (in_trace (handled_by sys turns p'))
          (next-AreCommands t.phase (c i)) later)

-- Whatever the clients have written to their FIFOs, and in whatever order their threads take their
-- turns: every command that is handled is a line as the loop of a thread reads it, of at most 511
-- bytes and with no newline before its last one, under a name of less than 128 bytes with no newline.
pub run_pool-AreCommands :
    {W : Type 0} (sys : System W) (files : Text → Option Text) (inputs : ℕ → Text)
    (turns : List (Turn W)) (p : Pool W)
    → ((i : ℕ) → (p.threads i).phase ≡ arriving (arrival files (inputs i)))
    → AreCommands (in_trace (handled_by sys turns p))
run_pool-AreCommands sys files inputs turns p start =
    run-AreCommands sys turns p
      (λ i. rw (start i) (arriving-AreCommands files (inputs i) (arrival files (inputs i)) refl))
