-- ===== src/ServerCore/Spec/Refinement.antt =====
-- The server does what is promised, for every list of requests.
use collab_markdown_server.Base.{
  ℕ, ◌+◌, ◌%◌, ◌<◌, ◌≡◌, refl, ap, sym, ◌∙◌, inl, inr, some, List, [], ◌∷◌, length, Text, word_mod,
  arith, subst, ap₂,
}
use collab_markdown_server.Markdown.Document.{Heap, pending}
use collab_markdown_server.Markdown.Working.{get_working_text}
use collab_markdown_server.Markdown.Version.{markdown_flatten}
use collab_markdown_server.Markdown.Version.Laws.{init-IsFresh}
use collab_markdown_server.Markdown.Stage.{check_version, IsCurrent}
use collab_markdown_server.Command.{command_execute}
use collab_markdown_server.Command.Lines.{IsCurrent-is_live}
use collab_markdown_server.ServerCore.{ServerCore, server_core_init}
use collab_markdown_server.ServerCore.Session.{Request, round, IsReady, serve, answers}
use collab_markdown_server.ServerCore.Session.Rounds.{
  round-runs, round-Advanced, round-visible, working-shown,
}
use collab_markdown_server.ServerCore.Session.Runs.{init-IsReady}
use collab_markdown_server.ServerCore.Spec.{
  command_text, Shared, spec_round, spec_serve, HasRoom, nothing_shared,
}
use collab_markdown_server.ServerCore.Spec.Executed.{Executes, execute-Executes}

-- What a client can see of the server is the shared text and its version.
abbrev pub Shows : ServerCore → Heap → Shared → Type 0
Shows core h s = (core.current_version ≡ s.version) × (markdown_flatten core.doc h ≡ some s.text)

module _ (core : ServerCore) (q : Request) (h : Heap) (s : Shared) (ready : IsReady core h)
    (shows : Shows core h s) (room : length s.text + 1 < word_mod) where
  working : get_working_text core.doc h ≡ s.text
  working = working-shown core q h ready s.text shows.1 room

  current : IsCurrent core.doc core.current_version h
  unfolding check_version
  current = rw (ready.live, ready.version) (ground arith)

  executes :
      Executes core.doc s.text
        (command_text q.role q.line s.text)
        (command_execute core.doc core.current_version q.role (some q.line) h)
  executes =
      subst
        (λ (t : Text).
          Executes core.doc t (command_text q.role q.line t)
            (command_execute core.doc core.current_version q.role (some q.line) h))
        working
        (execute-Executes core.doc core.current_version h current ready.no_pending
          (omega (arith, ap length working)) q.role q.line
          (IsCurrent-is_live core.doc core.current_version h current))

  result-eq : (round core q h).result ≡ (spec_round s q).0
  unfolding spec_round
  result-eq = rw (round-runs core q h ready) executes.0

  visible-eq : markdown_flatten core.doc (round core q h).heap ≡ some (spec_round s q).1.text
  unfolding spec_round
  visible-eq = elim (round-visible core q h s.text ready shows.1 room) [
    | inl (success, shown) ↦ elim executes.1 [
      | inl (_, promised) ↦ shown ∙ ap some promised
      | inr (refused, _) ↦ absurd (refused (sym result-eq ∙ success))
    ]
    | inr (refused, shown) ↦ elim executes.1 [
      | inl (success, _) ↦ absurd (refused (result-eq ∙ success))
      | inr (_, promised) ↦ shown ∙ ap some (sym promised)
    ]
  ]

-- A round of a ready server does what is promised: the answer is the promised one, and what the
-- server shows after it is the promised text and version, if the text shown before it is shorter
-- than 2^64 - 1 bytes.
pub round-Shows :
    (core : ServerCore) (q : Request) (h : Heap) (s : Shared)
    → IsReady core h
    → Shows core h s
    → length s.text + 1 < word_mod
    → ((round core q h).result ≡ (spec_round s q).0)
      × Shows (round core q h).core (round core q h).heap (spec_round s q).1
unfolding spec_round
round-Shows core q h s ready shows room =
    let a = round-Advanced core q h ready in
    (
      result-eq core q h s ready shows room,
      (
        a.version ∙ ap (λ (k : ℕ). (k + 1) % word_mod) shows.0,
        ap (λ (d : ℕ). markdown_flatten d (round core q h).heap) a.same_document
            ∙ visible-eq core q h s ready shows room,
      ),
    )

ready-refines :
    (core : ServerCore) (qs : List Request) (h : Heap) (s : Shared)
    → IsReady core h
    → Shows core h s
    → HasRoom s qs
    → (answers core qs h ≡ (spec_serve s qs).0)
      × Shows (serve core qs h).0 (serve core qs h).1 (spec_serve s qs).1
unfolding answers serve spec_serve HasRoom
ready-refines core [] h s ready shows room = (refl, shows)
ready-refines core (q ∷ qs) h s ready shows (room, later) =
    let (same, next) = round-Shows core q h s ready shows room in
    let a = round-Advanced core q h ready in
    let (results, final) =
      ready-refines (round core q h).core qs (round core q h).heap (spec_round s q).1 a.ready next
        later in
    (ap₂ ◌∷◌ same results, final)

-- A server started at an address with nothing pending refines its promise: whatever the requests,
-- as long as the promised texts are shorter than 2^64 - 1 bytes, it gives the promised answers in
-- their order, and shows the promised text and version in the end, starting from the empty text and
-- version 0.
pub serve-refines :
    (doc : ℕ) (h : Heap) (qs : List Request)
    → pending doc h.op_lists ≡ []
    → HasRoom nothing_shared qs
    → let (core, k) = server_core_init doc h in
      (answers core qs k ≡ (spec_serve nothing_shared qs).0)
      × Shows (serve core qs k).0 (serve core qs k).1 (spec_serve nothing_shared qs).1
serve-refines doc h qs clear room =
    let (core, k) = server_core_init doc h in
    ready-refines core qs k nothing_shared (init-IsReady doc h clear)
      (unfold server_core_init in (refl, (init-IsFresh doc h clear).visible)) room
