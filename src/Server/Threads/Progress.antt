-- ===== src/Server/Threads/Progress.antt =====
-- A thread that gets its turns comes to its end.
use collab_markdown_server.Base.{
  ℕ, suc, ◌+◌, ◌-◌, ◌≤◌, ◌≡◌, refl, ap, sym, ◌∙◌, subst, ◌⊎◌, inl, inr, Bool, Bool-cases, true,
  false, List, [], ◌∷◌, ◌++◌, append-nil, ◌==◌, if◌then◌else◌, arith, length,
}
use collab_markdown_server.Markdown.Document.{Heap, pending}
use collab_markdown_server.System.{System}
use collab_markdown_server.ServerCore.Session.{Request}
use collab_markdown_server.Server.{server_start, ServerState, welcome_client}
use collab_markdown_server.Server.Thread.{no_username, refused, admitted, command_lines, requests}
use collab_markdown_server.Server.Threads.{
  Phase, arriving, serving, finished, Thread, turns_left, Turn, turn, elsewhere, behind_welcome,
  phase_step, Pool, pool_step, run_pool, handled_by,
}
use collab_markdown_server.Server.Threads.Order.{
  of_thread, waiting, WasTaken, IsServed, run_pool-Takes,
}

module _ {W : Type 0} where
  abbrev pub turns_of : ℕ → List (Turn W) → ℕ
  turns_of i [] = 0
  turns_of i (turn j ∷ turns) = if i == j then suc (turns_of i turns) else turns_of i turns
  turns_of i (elsewhere w ∷ turns) = turns_of i turns

module _ {W : Type 0} (sys : System W) where
  behind-turns_left :
      (t : Thread) (qs : List Request) (added : Bool) (s : ServerState W)
      → turns_left (behind_welcome sys t qs (added, s)).0 ≤ 1 + length qs
  behind-turns_left t qs true s = omega arith
  behind-turns_left t qs false s = omega arith

  step-turns_left :
      (t : Thread) (phase : Phase) (s : ServerState W)
      → turns_left (phase_step sys t phase s).0 ≤ turns_left phase - 1
  unfolding phase_step
  step-turns_left t (arriving no_username) s = omega arith
  step-turns_left t (arriving refused) s = omega arith
  step-turns_left t (arriving (admitted username role rest)) s =
      let qs = requests username role (command_lines rest) in
      let w = welcome_client sys t.pid username role t.c2s_path t.s2c_path t.s2c s in
      omega (arith, behind-turns_left t qs w.0 w.1)
  step-turns_left t (serving []) s = omega arith
  step-turns_left t (serving (q ∷ qs)) s = omega arith
  step-turns_left t finished s = omega arith

  run_pool-turns_left :
      (i : ℕ) (turns : List (Turn W)) (p : Pool W)
      → turns_left ((run_pool sys turns p).threads i).phase
        ≤ turns_left (p.threads i).phase - turns_of i turns
  unfolding run_pool pool_step
  run_pool-turns_left i [] p = omega arith
  run_pool-turns_left i (elsewhere w ∷ turns) p =
      run_pool-turns_left i turns (pool_step sys (elsewhere w) p)
  run_pool-turns_left i (turn j ∷ turns) p =
      let t = p.threads j in
      let later = run_pool-turns_left i turns (pool_step sys (turn j) p) in
      elim (Bool-cases (i == j)) [
        | inl same ↦
            let e : i ≡ j = ground arith in
            let now =
              subst
                (λ (k : ℕ).
                  turns_left (phase_step sys t t.phase p.shared).0
                  ≤ turns_left (p.threads k).phase - 1)
                (sym e) (step-turns_left t t.phase p.shared) in
            let rest = (rw same at later) in rw same (omega (arith, now, rest))
        | inr other ↦ rw other (rw other at later)
      ]

no_turns-finished : (phase : Phase) → turns_left phase ≤ 0 → phase ≡ finished
no_turns-finished (arriving no_username) h = absurd (omega arith)
no_turns-finished (arriving refused) h = absurd (omega arith)
no_turns-finished (arriving (admitted username role rest)) h = absurd (omega arith)
no_turns-finished (serving qs) h = absurd (omega arith)
no_turns-finished finished h = refl

-- A thread that has got as many turns as it has critical sections left, whenever they came and
-- whatever the other threads did in between, in a server that was started at an address with nothing
-- pending, is at its end, and all the commands that its client had waiting are handled, in their order;
-- or none of them, and in one of its turns a client with its number was in the registry. And what the
-- threads share is what submitting and committing all the commands handled, in the order of the turns,
-- makes of a new server.
pub run_pool-finishes :
    {W : Type 0} (sys : System W) (doc : ℕ) (h : Heap) (w : W) (threads : ℕ → Thread) (i : ℕ)
    (turns : List (Turn W))
    → let p : Pool W = record { threads = threads; shared = server_start doc h w } in
      pending doc h.op_lists ≡ []
      → turns_left (threads i).phase ≤ turns_of i turns
      → (((run_pool sys turns p).threads i).phase ≡ finished)
        × ((of_thread i (handled_by sys turns p) ≡ waiting (threads i).phase)
            ⊎ ((of_thread i (handled_by sys turns p) ≡ []) × WasTaken sys i turns p))
        × IsServed sys turns p
run_pool-finishes {W} sys doc h w threads i turns clear enough =
    let p : Pool W = record { threads = threads; shared = server_start doc h w } in
    let end =
      no_turns-finished ((run_pool sys turns p).threads i).phase
        (omega (arith, run_pool-turns_left sys i turns p)) in
    let (takes, served) = run_pool-Takes sys doc h w threads clear i turns in
    (
      end,
      elim takes [
        | inl e ↦ inl (
            sym (
              e
              ∙ (ap (λ (phase : Phase). of_thread i (handled_by sys turns p) ++ waiting phase) end
                  ∙ append-nil _)))
        | inr (idle, _, taken) ↦ inr (idle, taken)
      ],
      served,
    )
