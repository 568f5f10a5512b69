-- ===== src/Server/Threads.antt =====
-- The threads of all clients: src/server.c runs `client_thread_main` once for each client, and the
-- threads meet only in their critical sections, each of which is one turn here. What a thread does
-- outside of them touches its own streams and is part of the next turn; it also calls `strtok`, whose
-- static place is taken to be left alone by the other threads meanwhile.
pub mod Shared
pub mod Order
pub mod Progress
use collab_markdown_server.Base.{
  ℕ, suc, Bool, true, false, List, [], ◌∷◌, ◌++◌, ◌==◌, if◌then◌else◌, length, map, Text, codes,
}
use collab_markdown_server.System.{System}
use collab_markdown_server.Command.{UserRole}
use collab_markdown_server.ServerCore.Session.{Request}
use collab_markdown_server.Server.{ServerState, welcome_client, handle_command, client_leaves}
use collab_markdown_server.Server.Thread.{
  Arrival, no_username, refused, admitted, command_lines, requests, hang_up, on_world,
}

-- Where a thread is: before its first critical section, in the loop with the commands that its client
-- has written and that are not handled, or at the end.
pub data Phase : Type 0 where
  arriving : Arrival → Phase
  serving : List Request → Phase
  finished : Phase

-- A thread, with what it was started with and the streams that it opened.
pub record Thread : Type 0 where
  pub pid : ℕ
  pub c2s_path : Text
  pub s2c_path : Text
  pub c2s : ℕ
  pub s2c : ℕ
  pub phase : Phase

-- The command that the next turn of a thread handles, if it handles one.
abbrev pub next_request : Phase → List Request
next_request (arriving who) = []
next_request (serving []) = []
next_request (serving (q ∷ qs)) = q ∷ []
next_request finished = []

-- The turns that a thread has left at most.
abbrev pub turns_left : Phase → ℕ
turns_left (arriving no_username) = 1
turns_left (arriving refused) = 1
turns_left (arriving (admitted username role rest)) =
    suc (suc (length (requests username role (command_lines rest))))
turns_left (serving qs) = suc (length qs)
turns_left finished = 0

-- A turn: some thread goes through its next critical section, or the world outside changes.
pub data Turn (W : Type 0) : Type 0 where
  turn : ℕ → Turn W
  elsewhere : W → Turn W

-- All threads that are ever started, by number, and what they share.
pub record Pool (W : Type 0) : Type 0 where
  pub threads : ℕ → Thread
  pub shared : ServerState W

abbrev with_thread : (ℕ → Thread) → ℕ → Thread → ℕ → Thread
with_thread threads i t j = if j == i then t else threads j

module _ {W : Type 0} (sys : System W) where
  -- Behind the section that welcomes the client.
  abbrev pub behind_welcome : Thread → List Request → Bool × ServerState W → Phase × ServerState W
  behind_welcome t qs (true, s) = (serving qs, s)
  behind_welcome t qs (false, s) = (finished, hang_up sys t.c2s_path t.s2c_path t.c2s t.s2c s)

  unfoldable pub phase_step : Thread → Phase → ServerState W → Phase × ServerState W
  phase_step t (arriving no_username) s =
      (finished, hang_up sys t.c2s_path t.s2c_path t.c2s t.s2c s)
  phase_step t (arriving refused) s = (
    finished,
    hang_up sys t.c2s_path t.s2c_path t.c2s t.s2c
        (on_world sys (sys.fprintf (codes "Reject UNAUTHORISED\n") t.s2c) s),
  )
  phase_step t (arriving (admitted username role rest)) s =
      behind_welcome t (requests username role (command_lines rest))
        (welcome_client sys t.pid username role t.c2s_path t.s2c_path t.s2c s)
  phase_step t (serving (q ∷ qs)) s = (serving qs, (handle_command sys q s).1)
  phase_step t (serving []) s =
      (finished, on_world sys (sys.fclose t.c2s) (client_leaves sys t.pid s))
  phase_step t finished s = (finished, s)

  unfoldable pub pool_step : Turn W → Pool W → Pool W
  pool_step (turn i) p =
      let t = p.threads i in
      let (phase, s) = phase_step t t.phase p.shared in
      record { threads = with_thread p.threads i (record t { phase = phase }); shared = s }
  pool_step (elsewhere w) p = record p { shared = record p.shared { world = w } }

  unfoldable pub run_pool : List (Turn W) → Pool W → Pool W
  run_pool [] p = p
  run_pool (u ∷ turns) p = run_pool turns (pool_step u p)

  -- The commands that are handled in a run, each with the number of its thread.
  unfoldable pub handled_by : List (Turn W) → Pool W → List (ℕ × Request)
  handled_by [] p = []
  handled_by (turn i ∷ turns) p =
      map (λ q. (i, q)) (next_request (p.threads i).phase)
      ++ handled_by turns (pool_step (turn i) p)
  handled_by (elsewhere w ∷ turns) p = handled_by turns (pool_step (elsewhere w) p)
