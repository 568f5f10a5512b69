-- ===== src/Server/Connections/Started.antt =====
-- Which clients get a thread.
use collab_markdown_server.Base.{
  ℕ, zero, suc, Bool, Bool-cases, true, false, ◌≡◌, ◌⊎◌, inl, inr, refl, ap, sym, ◌∙◌, List, [],
  ◌∷◌,
}
use collab_markdown_server.Libc.Numbers.Signed.{ℤ, pos, is_positive}
use collab_markdown_server.Server.Connections.{
  Place, before_pause, pausing, before_test, before_read, before_reset, before_clear, Dispatch,
  wake, connect_signal_handler, create_thread, step_at, main_step, Signalled, nobody, signal, step,
}

-- In the order of the second list, with gaps.
pub data Sublist : List ℤ → List ℤ → Type 0 where
  none_of : {ys : List ℤ} → Sublist [] ys
  taken : {xs ys : List ℤ} (y : ℤ) → Sublist xs ys → Sublist (y ∷ xs) (y ∷ ys)
  passed : {xs ys : List ℤ} (y : ℤ) → Sublist xs ys → Sublist xs (y ∷ ys)

abbrev pub ArePositive : List ℤ → Type 0
ArePositive [] = Unit
ArePositive (p ∷ ps) = (is_positive p ≡ true) × ArePositive ps

-- A pid that `main` holds is 0, or of a client that signalled after those that are started.
abbrev Held : List ℤ → List ℤ → ℤ → Type 0
Held ps started pid = (pid ≡ pos 0) ⊎ Sublist (pid ∷ started) ps

-- What `main` may still start a thread for: what it has read, or else what it will read.
abbrev AtPlace : List ℤ → Place → ℤ → List ℤ → Type 0
AtPlace ps before_pause pending started = Held ps started pending
AtPlace ps pausing pending started = Held ps started pending
AtPlace ps before_test pending started = Held ps started pending
AtPlace ps before_read pending started = Held ps started pending
AtPlace ps (before_reset pid) pending started = Held ps started pid
AtPlace ps (before_clear pid) pending started = Held ps started pid

abbrev Ordered : List ℤ → Dispatch → Type 0
Ordered ps d =
    AtPlace ps d.place d.pending_client_pid d.started × Sublist d.started ps × ArePositive d.started

Held-passed : (ps started : List ℤ) (q pid : ℤ) → Held ps started pid → Held (q ∷ ps) started pid
Held-passed ps started q pid (inl e) = inl e
Held-passed ps started q pid (inr later) = inr (passed q later)

signal-AtPlace :
    (ps : List ℤ) (place : Place) (q pending : ℤ) (started : List ℤ)
    → AtPlace ps place pending started
    → Sublist started ps
    → AtPlace (q ∷ ps) (wake place) q started
signal-AtPlace ps before_pause q pending started at order = inr (taken q order)
signal-AtPlace ps pausing q pending started at order = inr (taken q order)
signal-AtPlace ps before_test q pending started at order = inr (taken q order)
signal-AtPlace ps before_read q pending started at order = inr (taken q order)
signal-AtPlace ps (before_reset pid) q pending started at order = Held-passed ps started q pid at
signal-AtPlace ps (before_clear pid) q pending started at order = Held-passed ps started q pid at

signal-Ordered :
    (ps : List ℤ) (q : ℤ) (d : Dispatch)
    → Ordered ps d
    → Ordered (q ∷ ps) (connect_signal_handler q d)
unfolding connect_signal_handler
signal-Ordered ps q d (at, order, positive) =
    (signal-AtPlace ps d.place q d.pending_client_pid d.started at order, passed q order, positive)

create-Ordered :
    (ps : List ℤ) (pid : ℤ) (started : List ℤ)
    → Held ps started pid
    → Sublist started ps
    → ArePositive started
    → Sublist (create_thread pid started) ps × ArePositive (create_thread pid started)
create-Ordered ps pid started held order positive = elim (Bool-cases (is_positive pid)) [
  | inr other ↦ rw other (order, positive)
  | inl some_pid ↦ elim held [
    | inl e ↦ absurd (let z : is_positive (pos 0) ≡ true = sym (ap is_positive e) ∙ some_pid in cc)
    | inr later ↦ rw some_pid (later, (some_pid, positive))
  ]
]

step-Ordered :
    (ps : List ℤ) (place : Place) (received : Bool) (pending : ℤ) (started : List ℤ)
    → Ordered ps (record {
      place = place;
      connect_received = received;
      pending_client_pid = pending;
      started = started;
    })
    → Ordered ps (
        step_at place (record {
          place = place;
          connect_received = received;
          pending_client_pid = pending;
          started = started;
        }))
step-Ordered ps before_pause received pending started o = o
step-Ordered ps pausing received pending started o = o
step-Ordered ps before_test true pending started o = o
step-Ordered ps before_test false pending started o = o
step-Ordered ps before_read received pending started o = o
step-Ordered ps (before_reset pid) received pending started o = o
step-Ordered ps (before_clear pid) received pending started (held, order, positive) =
    let (order', positive') = create-Ordered ps pid started held order positive in
    (inl refl, order', positive')

Signalled-Ordered : {ps : List ℤ} {d : Dispatch} → Signalled ps d → Ordered ps d
unfolding main_step
Signalled-Ordered nobody = (inl refl, none_of, tt)
Signalled-Ordered (signal {ps} {d} pid r) = signal-Ordered ps pid d (Signalled-Ordered r)
Signalled-Ordered (step {ps} {d} r) =
    step-Ordered ps d.place d.connect_received d.pending_client_pid d.started (Signalled-Ordered r)

-- However the signals of clients fall between the statements of `main`, the clients that get a
-- thread are some of those that have signalled, in their order and each signal at most once, and
-- their pids are positive.
pub started-Sublist :
    (ps : List ℤ) (d : Dispatch) → Signalled ps d → Sublist d.started ps × ArePositive d.started
started-Sublist ps d r = let (held, order, positive) = Signalled-Ordered r in (order, positive)

-- Signals one after the other, and steps of `main` with none between them.
abbrev pub signals : List ℤ → Dispatch → Dispatch
signals [] d = d
signals (pid ∷ pids) d = signals pids (connect_signal_handler pid d)

abbrev pub main_steps : ℕ → Dispatch → Dispatch
main_steps zero d = d
main_steps (suc n) d = main_steps n (main_step d)

-- `main` woken by the signals so far.
abbrev woken : ℤ → List ℤ → Dispatch
woken pid started = record {
  place = before_test;
  connect_received = true;
  pending_client_pid = pid;
  started = started;
}

signals-woken :
    (pids : List ℤ) (q pid : ℤ) (started : List ℤ)
    → connect_signal_handler q (signals pids (woken pid started)) ≡ woken q started
unfolding connect_signal_handler
signals-woken [] q pid started = refl
signals-woken (p ∷ pids) q pid started = signals-woken pids q p started

signals-pausing :
    (pids : List ℤ) (q : ℤ) (received : Bool) (pending : ℤ) (started : List ℤ)
    → connect_signal_handler q (
        signals pids (record {
          place = pausing;
          connect_received = received;
          pending_client_pid = pending;
          started = started;
        }))
      ≡ woken q started
unfolding connect_signal_handler
signals-pausing [] q received pending started = refl
signals-pausing (p ∷ pids) q received pending started = signals-woken pids q p started

-- Of the clients that signal while `main` pauses, before it runs again, exactly the last one is
-- started, and none if its pid is not positive: five steps later `main` pauses again with that thread
-- and nothing left of the signals of the others.
pub signals-last :
    (pids : List ℤ) (q : ℤ) (received : Bool) (pending : ℤ) (started : List ℤ)
    → main_steps 5 (
        connect_signal_handler q (
          signals pids (record {
            place = pausing;
            connect_received = received;
            pending_client_pid = pending;
            started = started;
          })))
      ≡ record {
        place = pausing;
        connect_received = false;
        pending_client_pid = pos 0;
        started = create_thread q started;
      }
unfolding main_step
signals-last pids q received pending started =
    rw (signals-pausing pids q received pending started) refl
