-- ===== src/Server/Connections.antt =====
-- How a client connects in src/server.c: `connect_signal_handler`, which can run between any two
-- statements of `main`, and the loop of `main`, which starts a thread for the client that signalled.
-- The thread of `main` is the one that takes the signals, and pthread_create succeeds.
pub mod Started
use collab_markdown_server.Base.{
  ℕ, zero, suc, Bool, true, false, ◌≡◌, ◌≢◌, List, [], ◌∷◌, if◌then◌else◌,
}
use collab_markdown_server.Libc.Numbers.Signed.{ℤ, pos, is_positive}

-- Where `main` is: before `pause`, in it, before the test, before it reads the pid, and with the pid
-- that it has read before each of its two assignments.
pub data Place : Type 0 where
  before_pause : Place
  pausing : Place
  before_test : Place
  before_read : Place
  before_reset : ℤ → Place
  before_clear : ℤ → Place

-- `started` are the clients that a thread was created for, the latest first.
pub record Dispatch : Type 0 where
  pub place : Place
  pub connect_received : Bool
  pub pending_client_pid : ℤ
  pub started : List ℤ

abbrev pub dispatch_start : Dispatch
dispatch_start = record {
  place = before_pause;
  connect_received = false;
  pending_client_pid = pos 0;
  started = [];
}

-- `pause` returns behind the handler; elsewhere `main` goes on where it was.
abbrev pub wake : Place → Place
wake pausing = before_test
wake before_pause = before_pause
wake before_test = before_test
wake before_read = before_read
wake (before_reset p) = before_reset p
wake (before_clear p) = before_clear p

unfoldable pub connect_signal_handler : ℤ → Dispatch → Dispatch
connect_signal_handler pid d = record d {
  place = wake d.place;
  connect_received = true;
  pending_client_pid = pid;
}

-- The rest of a round: `continue`, or a thread for the client.
abbrev pub create_thread : ℤ → List ℤ → List ℤ
create_thread pid started = if is_positive pid then pid ∷ started else started

abbrev pub step_at : Place → Dispatch → Dispatch
step_at before_pause d = record d { place = pausing }
step_at pausing d = d
step_at before_test d = record d {
  place = if d.connect_received then before_read else before_pause;
}
step_at before_read d = record d { place = before_reset d.pending_client_pid }
step_at (before_reset pid) d = record d { place = before_clear pid; connect_received = false }
step_at (before_clear pid) d = record d {
  place = before_pause;
  pending_client_pid = pos 0;
  started = create_thread pid d.started;
}

-- One statement of `main`; nothing where it pauses.
unfoldable pub main_step : Dispatch → Dispatch
main_step d = step_at d.place d

-- The states that `main` can be in when the clients of the list have signalled, the latest first.
pub data Signalled : List ℤ → Dispatch → Type 0 where
  nobody : Signalled [] dispatch_start
  signal :
      {ps : List ℤ} {d : Dispatch} (pid : ℤ)
      → Signalled ps d
      → Signalled (pid ∷ ps) (connect_signal_handler pid d)
  step : {ps : List ℤ} {d : Dispatch} → Signalled ps d → Signalled ps (main_step d)
