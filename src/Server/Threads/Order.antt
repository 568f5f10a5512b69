-- ===== src/Server/Threads/Order.antt =====
-- Each thread handles the commands of its client in order, and all of them if it has turns enough.
use collab_markdown_server.Base.{
  none, some, ℕ, ◌≡◌, ◌≢◌, refl, ap, sym, ◌∙◌, subst, ◌⊎◌, inl, inr, Bool, Bool-cases, true, false,
  List, [], ◌∷◌, ◌++◌, append_assoc, ◌==◌, if◌then◌else◌, arith, map, Text,
}
use collab_markdown_server.ServerCore.{ServerCore, server_core_flatten_doc}
use collab_markdown_server.ServerCore.Session.{serve, IsReady}
use collab_markdown_server.Markdown.Document.{Heap, pending}
use collab_markdown_server.Markdown.Working.{get_committed_text}
use collab_markdown_server.Markdown.Version.{markdown_flatten}
use collab_markdown_server.ClientRegistry.{ClientConn, client_registry_find}
use collab_markdown_server.Server.{server_start}
use collab_markdown_server.Server.Interleaving.{started, server_start-IsServer}
use collab_markdown_server.Server.Linearized.{Reachable-serve}
use collab_markdown_server.Server.Thread.Sections.{IsDenied, welcome_client-IsDenied}
use collab_markdown_server.Server.Threads.Shared.{in_trace, run_pool-Reachable}
use collab_markdown_server.System.{System}
use collab_markdown_server.Command.{UserRole}
use collab_markdown_server.ServerCore.Session.{Request}
use collab_markdown_server.Server.{ServerState, welcome_client}
use collab_markdown_server.Server.Thread.{no_username, refused, admitted, command_lines, requests}
use collab_markdown_server.Server.Threads.{
  Phase, arriving, serving, finished, Thread, next_request, Turn, turn, elsewhere, behind_welcome,
  phase_step, Pool, pool_step, run_pool, handled_by,
}

-- The commands of one thread.
abbrev pub of_thread : ℕ → List (ℕ × Request) → List Request
of_thread i [] = []
of_thread i ((j, q) ∷ trace) = if i == j then q ∷ of_thread i trace else of_thread i trace

-- The commands that a thread has not handled.
abbrev pub waiting : Phase → List Request
waiting (arriving no_username) = []
waiting (arriving refused) = []
waiting (arriving (admitted username role rest)) = requests username role (command_lines rest)
waiting (serving qs) = qs
waiting finished = []

of_thread-append :
    (i j : ℕ) (qs : List Request) (trace : List (ℕ × Request))
    → of_thread i (map (λ q. (j, q)) qs ++ trace)
      ≡ (if i == j then qs ++ of_thread i trace else of_thread i trace)
of_thread-append i j [] trace = ground arith
of_thread-append i j (q ∷ qs) trace = ground (arith, of_thread-append i j qs trace)

abbrev is_arriving : Phase → Bool
is_arriving (arriving who) = true
is_arriving (serving qs) = false
is_arriving finished = false

-- What `qs` handled takes a thread from one place to another; `Reason` is why one that has arrived ends
-- before its first command.
record Follows (Reason : Type 0) (before : Phase) (qs : List Request) (after : Phase) : Type 0 where
  takes :
      (waiting before ≡ qs ++ waiting after)
      ⊎ ((is_arriving before ≡ true) × (qs ≡ []) × (after ≡ finished) × Reason)
  arrives : is_arriving after ≡ true → (is_arriving before ≡ true) × (qs ≡ [])
  stays : before ≡ finished → (qs ≡ []) × (after ≡ finished)

Follows-refl : (Reason : Type 0) (phase : Phase) → Follows Reason phase [] phase
Follows-refl Reason phase = record {
  takes = inl refl;
  arrives = λ e. (e, refl);
  stays = λ e. (refl, e);
}

Follows-map :
    {R S : Type 0} {a b : Phase} {qs : List Request} → (R → S) → Follows R a qs b → Follows S a qs b
Follows-map why f = record {
  takes = elim f.takes [
    | inl e ↦ inl e
    | inr (first, nothing, end, r) ↦ inr (first, nothing, end, why r)
  ];
  arrives = f.arrives;
  stays = f.stays;
}

Follows-trans :
    {R : Type 0} {a b c : Phase} {qs rs : List Request}
    → Follows R a qs b
    → Follows R b rs c
    → Follows R a (qs ++ rs) c
Follows-trans {R} {a} {b} {c} {qs} {rs} f g = record {
  takes = elim f.takes [
    | inl e ↦ elim g.takes [
      | inl e' ↦ inl (e ∙ (ap (qs ++◌) e' ∙ sym (append_assoc qs rs (waiting c))))
      | inr (arrived, still, end, r) ↦
          let (first, nothing) = f.arrives arrived in inr (first, rw (nothing, still) refl, end, r)
    ]
    | inr (first, nothing, end, r) ↦
        let (still, end') = g.stays end in inr (first, rw (nothing, still) refl, end', r)
  ];
  arrives = λ e.
      let (arrived, still) = g.arrives e in
      let (first, nothing) = f.arrives arrived in (first, rw (nothing, still) refl);
  stays = λ e.
      let (nothing, end) = f.stays e in
      let (still, end') = g.stays end in (rw (nothing, still) refl, end');
}

ready-flat : (core : ServerCore) (h : Heap) → IsReady core h → server_core_flatten_doc core h ≢ none
unfolding server_core_flatten_doc markdown_flatten
ready-flat core h ready gone =
    let flat : server_core_flatten_doc core h ≡ some (get_committed_text (some ready.document)) =
      rw (server_core_flatten_doc, markdown_flatten, ready.live) refl in
    cc

module _ {W : Type 0} (sys : System W) where
  behind-Follows :
      (Reason : Type 0) (t : Thread) (username : Text) (role : UserRole) (rest : Text)
      (added : Bool) (s : ServerState W)
      → (added ≡ false → Reason)
      → Follows Reason
          (arriving (admitted username role rest))
          []
          (behind_welcome sys t (requests username role (command_lines rest)) (added, s)).0
  behind-Follows Reason t username role rest true s why = record {
    takes = inl refl;
    arrives = λ e. cc;
    stays = λ e. cc;
  }
  behind-Follows Reason t username role rest false s why = record {
    takes = inr (refl, refl, refl, why refl);
    arrives = λ e. cc;
    stays = λ e. cc;
  }

  step-Follows :
      (t : Thread) (phase : Phase) (s : ServerState W)
      → Follows (IsDenied t.pid s) phase (next_request phase) (phase_step sys t phase s).0
  unfolding phase_step
  step-Follows t (arriving no_username) s = record {
    takes = inl refl;
    arrives = λ e. cc;
    stays = λ e. cc;
  }
  step-Follows t (arriving refused) s = record {
    takes = inl refl;
    arrives = λ e. cc;
    stays = λ e. cc;
  }
  step-Follows t (arriving (admitted username role rest)) s =
      let w = welcome_client sys t.pid username role t.c2s_path t.s2c_path t.s2c s in
      behind-Follows (IsDenied t.pid s) t username role rest w.0 w.1
        (welcome_client-IsDenied sys t.pid username role t.c2s_path t.s2c_path t.s2c s)
  step-Follows t (serving []) s = record { takes = inl refl; arrives = λ e. cc; stays = λ e. cc }
  step-Follows t (serving (q ∷ qs)) s = record {
    takes = inl refl;
    arrives = λ e. cc;
    stays = λ e. cc;
  }
  step-Follows t finished s = Follows-refl _ finished

  -- In some turn of the run, one of the thread, its client is not added.
  abbrev WasDenied : ℕ → List (Turn W) → Pool W → Type 0
  WasDenied i turns p =
      (before : List (Turn W)) × (behind : List (Turn W)) × (turns ≡ before ++ (turn i ∷ behind))
      × IsDenied ((run_pool sys before p).threads i).pid (run_pool sys before p).shared

  later-WasDenied :
      (i : ℕ) (u : Turn W) (turns : List (Turn W)) (p : Pool W)
      → WasDenied i turns (pool_step sys u p)
      → WasDenied i (u ∷ turns) p
  unfolding run_pool
  later-WasDenied i u turns p (before, behind, e, denied) =
      (u ∷ before, behind, ap (u ∷◌) e, denied)

  run_pool-Follows :
      (i : ℕ) (turns : List (Turn W)) (p : Pool W)
      → Follows
          (WasDenied i turns p)
          (p.threads i).phase
          (of_thread i (handled_by sys turns p))
          ((run_pool sys turns p).threads i).phase
  unfolding run_pool handled_by pool_step
  run_pool-Follows i [] p = Follows-refl _ (p.threads i).phase
  run_pool-Follows i (elsewhere w ∷ turns) p =
      Follows-map (later-WasDenied i (elsewhere w) turns p)
        (run_pool-Follows i turns (pool_step sys (elsewhere w) p))
  run_pool-Follows i (turn j ∷ turns) p =
      let t = p.threads j in
      let p' = pool_step sys (turn j) p in
      let later = Follows-map (later-WasDenied i (turn j) turns p) (run_pool-Follows i turns p') in
      rw (of_thread-append i j (next_request t.phase) (handled_by sys turns p'))
        (elim (Bool-cases (i == j)) [
          | inl same ↦
              let e : i ≡ j = ground arith in
              let now =
                subst
                  (λ (k : ℕ).
                    Follows (WasDenied k (turn j ∷ turns) p) (p.threads k).phase
                      (next_request t.phase) (phase_step sys t t.phase p.shared).0)
                  (sym e)
                  (Follows-map (λ d. ([], turns, refl, d)) (step-Follows t t.phase p.shared)) in
              rw same (Follows-trans now (rw same at later))
          | inr other ↦ rw other (rw other at later)
        ])

  -- In some turn of the run, one of the thread, another client with its number is in the registry.
  abbrev pub WasTaken : ℕ → List (Turn W) → Pool W → Type 0
  WasTaken i turns p =
      (before : List (Turn W)) × (behind : List (Turn W)) × (c : ClientConn) × (turns
        ≡ before ++ (turn i ∷ behind))
      × (client_registry_find (run_pool sys before p).shared.registry
            ((run_pool sys before p).threads i).pid
          ≡ some c)

  -- The commands of a thread are taken as they come, or it ends before the first, as its number is
  -- taken.
  abbrev pub Takes : ℕ → List (Turn W) → Pool W → Type 0
  Takes i turns p =
      (waiting (p.threads i).phase
        ≡ of_thread i (handled_by sys turns p) ++ waiting ((run_pool sys turns p).threads i).phase)
      ⊎ ((of_thread i (handled_by sys turns p) ≡ [])
          × (((run_pool sys turns p).threads i).phase ≡ finished)
          × WasTaken i turns p)

  -- What the threads share is what the commands of the trace have made of it, one after the other.
  abbrev pub IsServed : List (Turn W) → Pool W → Type 0
  IsServed turns p =
      ((run_pool sys turns p).shared.core, (run_pool sys turns p).shared.heap)
      ≡ serve p.shared.core (in_trace (handled_by sys turns p)) p.shared.heap

  module _ (doc : ℕ) (h : Heap) (w : W) (threads : ℕ → Thread)
      (clear : pending doc h.op_lists ≡ []) where
    abbrev pool : Pool W
    pool = record { threads = threads; shared = server_start doc h w }

    WasDenied-WasTaken :
        (i : ℕ) (turns : List (Turn W)) → WasDenied i turns pool → WasTaken i turns pool
    WasDenied-WasTaken i turns (before, behind, e, denied) =
        let s = (run_pool sys before pool).shared in
        let now =
          server_start-IsServer sys doc h w _ s clear
            (run_pool-Reachable sys before pool started) in
        elim denied [
          | inr (c, there) ↦ (before, behind, c, e, there)
          | inl not_flat ↦ absurd (ready-flat s.core s.heap now.ready not_flat)
        ]

    -- At any time in any order of turns of a server that was started at an address with nothing
    -- pending, for each thread: the commands of its client that are handled are those at the front, in
    -- the order in which they were written, and the others are still waiting, none left out, none
    -- twice; or the thread has ended before the first one, none of its client's commands is handled,
    -- and in one of its turns a client with its number was in the registry. And what the threads share
    -- is what submitting and committing all the commands handled, one after the other in the order of
    -- the turns, makes of a new server.
    pub run_pool-Takes : (i : ℕ) (turns : List (Turn W)) → Takes i turns pool × IsServed turns pool
    run_pool-Takes i turns = (
      elim (run_pool-Follows i turns pool).takes [
        | inl e ↦ inl e
        | inr (_, idle, end, denied) ↦ inr (idle, end, WasDenied-WasTaken i turns denied)
      ],
      Reachable-serve sys (run_pool-Reachable sys turns pool started),
    )
