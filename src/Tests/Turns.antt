-- ===== src/Tests/Turns.antt =====
-- Examples for the threads of all clients: a writer and somebody without a role.
use collab_markdown_server.Base.{
  ℕ, ◌≡◌, ◌≤◌, ◌+◌, ◌⊎◌, refl, Option, some, [], ◌∷◌, ◌==◌, if◌then◌else◌, List, codes, arith, Text,
}
use collab_markdown_server.Libc.Strings.{text_eq, skip_while, strtok}
use collab_markdown_server.Libc.Streams.{fgets}
use collab_markdown_server.Markdown.Document.{find_ops}
use collab_markdown_server.ServerCore.Spec.{nothing_shared, spec_serve, HasRoom}
use collab_markdown_server.ServerCore.Spec.Refinement.{Shows}
use collab_markdown_server.Auth.{
  auth_lookup_role, lookup_lines, line_answer, trim_left, trim_right_in_place, parse_role,
}
use collab_markdown_server.Server.Thread.{
  read_line_strip_newline, command_lines, read_commands, is_disconnect, arrival,
}
use collab_markdown_server.Server.Threads.{
  Phase, arriving, serving, finished, Thread, pool_step, phase_step, turns_left, Turn, turn,
  elsewhere, Pool, run_pool, handled_by,
}
use collab_markdown_server.Server.Threads.Shared.{in_trace, run_pool-Shows}
use collab_markdown_server.Server.Threads.Order.{
  of_thread, waiting, WasTaken, Takes, IsServed, run_pool-Takes,
}
use collab_markdown_server.Server.Threads.Progress.{turns_of, run_pool-finishes}
use collab_markdown_server.Client.Watching.{AreCommands}
use collab_markdown_server.Client.Watching.Runs.{run_pool-AreCommands}
use collab_markdown_server.Tests.Registry.{Streams, sys, quiet}
use collab_markdown_server.Tests.Server.{empty_heap, hello}
use collab_markdown_server.Tests.Promise.{some_room}
use collab_markdown_server.Tests.Threads.{first}

abbrev roles : Text → Option Text
roles path = some (codes "daniel write\n")

abbrev typed : Text
typed = codes "daniel\nINSERT 0 Hello\nBOLD 0 5\nDISCONNECT\n"

abbrev thread : ℕ → Phase → Thread
thread n phase = record {
  pid = 100 + n;
  c2s_path = [];
  s2c_path = [];
  c2s = 10 + n;
  s2c = 20 + n;
  phase = phase;
}

abbrev threads : ℕ → Thread
threads i = thread i (
    if i == 0
    then arriving (arrival roles typed)
    else if i == 1
    then arriving (arrival roles (codes "eve\nDEL 0 1\n"))
    else serving (hello ∷ []))

abbrev pool : Pool Streams
pool = record { threads = threads; shared = first }

-- Turns of the threads 0, 1 and 2, and streams that change outside.
abbrev turns : List (Turn Streams)
turns = turn 0 ∷ turn 1 ∷ turn 0 ∷ turn 2 ∷ elsewhere quiet ∷ turn 0 ∷ turn 2 ∷ turn 0 ∷ []

-- One command among them.
abbrev few_turns : List (Turn Streams)
few_turns = turn 0 ∷ turn 1 ∷ elsewhere quiet ∷ turn 2 ∷ turn 1 ∷ []

one_command : in_trace (handled_by sys few_turns pool) ≡ hello ∷ []
unfolding handled_by pool_step phase_step arrival fgets read_line_strip_newline auth_lookup_role
    lookup_lines line_answer trim_left skip_while trim_right_in_place strtok text_eq
one_command = refl

few-room : HasRoom nothing_shared (in_trace (handled_by sys few_turns pool))
few-room = rw one_command some_room

run_pool-Shows_example :
    Shows
      (run_pool sys few_turns pool).shared.core
      (run_pool sys few_turns pool).shared.heap
      (spec_serve nothing_shared (in_trace (handled_by sys few_turns pool))).1
unfolding find_ops
run_pool-Shows_example = run_pool-Shows sys 1 empty_heap quiet threads few_turns refl few-room

run_pool-Takes_example : Takes sys 0 turns pool × IsServed sys turns pool
unfolding find_ops
run_pool-Takes_example = run_pool-Takes sys 1 empty_heap quiet threads refl 0 turns

enough : turns_left (arriving (arrival roles typed)) ≤ turns_of 0 turns
unfolding arrival read_line_strip_newline auth_lookup_role lookup_lines line_answer trim_left
    skip_while trim_right_in_place fgets strtok text_eq parse_role command_lines read_commands
    is_disconnect
enough = omega arith

run_pool-finishes_example :
    (((run_pool sys turns pool).threads 0).phase ≡ finished)
    × ((of_thread 0 (handled_by sys turns pool) ≡ waiting (arriving (arrival roles typed)))
        ⊎ ((of_thread 0 (handled_by sys turns pool) ≡ []) × WasTaken sys 0 turns pool))
    × IsServed sys turns pool
unfolding find_ops
run_pool-finishes_example = run_pool-finishes sys 1 empty_heap quiet threads 0 turns refl enough

abbrev inputs : ℕ → Text
inputs i = if i == 0 then typed else codes "eve\nDEL 0 1\n"

abbrev arrivals : Pool Streams
arrivals = record { threads = λ i. thread i (arriving (arrival roles (inputs i))); shared = first }

run_pool-AreCommands_example : AreCommands (in_trace (handled_by sys turns arrivals))
run_pool-AreCommands_example = run_pool-AreCommands sys roles inputs turns arrivals (λ i. refl)
