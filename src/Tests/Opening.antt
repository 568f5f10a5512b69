-- ===== src/Tests/Opening.antt =====
-- Examples for opening FIFOs, on a system in which a file can be opened if its name is there.
use collab_markdown_server.Base.{
  ℕ, List, ◌+◌, ◌≡◌, refl, Bool, true, false, not, ◌&&◌, ◌||◌, ◌==◌, if◌then◌else◌, Option, none,
  some, [], ◌∷◌, Text, codes, arith,
}
use collab_markdown_server.Libc.Strings.{text_eq}
use collab_markdown_server.Libc.Numbers.Signed.{ℤ, pos, negsuc}
use collab_markdown_server.Libc.Numbers.{decimal}
use collab_markdown_server.System.{System}
use collab_markdown_server.Files.{ready_signal, Files, View, Same, AreFiles, AreRemovable}
use collab_markdown_server.Fifos.{build_fifo_paths, c2s_path, s2c_path}
use collab_markdown_server.Fifos.Demo.{fifo_c2s, fifo_s2c}
use collab_markdown_server.Fifos.Open.{open_fifos}
use collab_markdown_server.Server.Opening.{make_fifo_pair, connect_client, client_thread}
use collab_markdown_server.Server.Opening.Cleaned.{IsIdle, client_thread-Leaves}
use collab_markdown_server.Server.{ServerState, server_start}
use collab_markdown_server.Server.Interleaving.{started}
use collab_markdown_server.Server.Thread.{arrival}
use collab_markdown_server.Server.Thread.Sections.{Leaves}
use collab_markdown_server.Server.Opening.Removed.{AreGone, client_thread-AreGone}
use collab_markdown_server.Server.Main.{server_begin, Begins, server_begin-Begins}
use collab_markdown_server.ServerDemo.Process.{demo_server, demo_server-cleans}
use collab_markdown_server.Markdown.Document.{find_ops}
use collab_markdown_server.Tests.Server.{empty_heap}

record Disk : Type 0 where
  names : Text → Bool
  fds : ℕ → Bool
  next : ℕ

abbrev sys : System Disk
sys = record {
  fputs = λ p s w. (true, w);
  fflush = λ s w. (true, w);
  fprintf = λ p s w. w;
  fclose = λ s w. record w { fds = λ k. not (s == k) && w.fds k };
  unlink = λ p w. record w { names = λ q. if text_eq p q then false else w.names q };
}

abbrev answers : ℤ → Bool
answers (pos pid) = not (pid == 9)
answers (negsuc n) = true

-- No signal reaches the process 9.
abbrev fs : Files Disk
fs = record {
  mkfifo = λ p w. (true, record w { names = λ q. text_eq p q || w.names q });
  open_file = λ m p w.
      if w.names p && not (w.fds w.next)
      then (some w.next, record w { fds = λ k. (w.next == k) || w.fds k; next = w.next + 1 })
      else (none, w);
  fdopen = λ m fd w. (some fd, w);
  close = λ fd w. record w { fds = λ k. not (fd == k) && w.fds k };
  kill = λ pid signal w. (answers pid, w);
  sigprocmask = λ w. (true, w);
  sigaction = λ w. (true, w);
  sigwait = λ w. (some ready_signal, w);
  getpid = λ w. 7;
}

abbrev view : View Disk
view = record {
  exists = λ p w. w.names p;
  is_open = λ k w. w.fds k;
  fd_of = λ f w. f;
  removable = λ p w. true;
}

same : (w : Disk) → Same view w w
same w = record { names = λ q. refl; descriptors = λ k. refl }

files : AreFiles sys fs view
files = record {
  unlink_names = λ p q w. ground arith;
  unlink_descriptors = λ p k w. refl;
  mkfifo_names = λ p q w. refl;
  mkfifo_descriptors = λ p k w. refl;
  open_names = λ m p q w. ground arith;
  open_descriptors = λ m p k w. ground arith;
  open_free = λ m p fd w e. ground (arith, e);
  fdopen_same = λ m fd w. same w;
  fdopen_stream = λ m fd f w e. ground (arith, e);
  fdopen_fails = λ m fd f w e. refl;
  close_names = λ fd q w. refl;
  close_descriptors = λ fd k w. refl;
  close_streams = λ fd f w. refl;
  fclose_names = λ f q w. refl;
  fclose_descriptors = λ f k w. refl;
  fprintf_names = λ p q f w. refl;
  kill_same = λ pid signal w. same w;
  sigprocmask_same = λ w. same w;
  sigaction_same = λ w. same w;
  sigwait_descriptors = λ k w. refl;
}

removable : (c s : Text) → AreRemovable view c s
removable c s = (λ w. refl, λ w. refl)

-- The three standard streams are open, and no name is there.
abbrev bare : Disk
bare = record { names = λ p. false; fds = λ k. (k == 0) || ((k == 1) || (k == 2)); next = 3 }

both_opened : (connect_client sys fs 7 bare).0 ≡ some (3, 4)
unfolding connect_client make_fifo_pair open_fifos build_fifo_paths text_eq decimal
both_opened = refl

abbrev roles : Text → Option Text
roles path = some (codes "daniel write\n")

abbrev typed : Text
typed = codes "daniel\nINSERT 0 Hello\nDISCONNECT\n"

abbrev idle : ServerState Disk
idle = server_start 1 empty_heap bare

client_thread-Leaves_example :
    Leaves sys idle
      (IsIdle sys fs idle roles 7 typed idle)
      []
      (arrival roles typed)
      (client_thread sys fs roles 7 typed idle)
client_thread-Leaves_example = client_thread-Leaves sys fs idle roles 7 typed idle [] started

client_thread-AreGone_example :
    AreGone sys fs view files
      (c2s_path 7)
      (s2c_path 7)
      (client_thread sys fs roles 7 typed idle).world
client_thread-AreGone_example =
    client_thread-AreGone sys fs view files roles 7 typed idle (removable (c2s_path 7) (s2c_path 7))

demo_server-cleans_example :
    view.exists fifo_s2c (demo_server sys fs 1 empty_heap (codes "INSERT 0 Hello\nQUIT\n") bare).1
    ≡ (if text_eq fifo_c2s fifo_s2c || text_eq fifo_s2c fifo_s2c
        then false
        else view.exists fifo_s2c bare)
demo_server-cleans_example =
    demo_server-cleans sys fs view files (removable fifo_c2s fifo_s2c) 1 empty_heap
      (codes "INSERT 0 Hello\nQUIT\n") bare fifo_s2c

-- `select` answers for the server, for the keyboard, and for both.
abbrev rounds : List (Bool × Bool)
rounds = (false, true) ∷ (true, false) ∷ (true, true) ∷ []

-- Both FIFOs are there.
abbrev served : Disk
served = record bare { names = λ p. true }

abbrev written : Text
written = codes "CONNECTED demo-user write\nSERVER_SHUTDOWN\n"

abbrev server_argv : List Text
server_argv = codes "server" ∷ codes "100" ∷ []

server_begin-Begins_example :
    Begins sys fs view files server_argv bare (server_begin sys fs server_argv 1 empty_heap bare)
unfolding find_ops
server_begin-Begins_example =
    server_begin-Begins sys fs view files server_argv 1 empty_heap bare refl
