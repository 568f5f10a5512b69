-- ===== src/ServerCore/Session/Runs.antt =====
-- What a whole list of requests does.
use collab_markdown_server.Base.{
  ℕ, ◌+◌, ◌%◌, ◌<◌, ◌≡◌, ◌≢◌, refl, ap, sym, ◌∙◌, inl, inr, Option, some, List, [], ◌∷◌, arith,
  length, Text, word_mod,
}
use collab_markdown_server.Markdown.Renumber.{renumber_ordered_lists}
use collab_markdown_server.Markdown.Document.{Heap, pending}
use collab_markdown_server.Markdown.Version.{markdown_flatten}
use collab_markdown_server.Markdown.Version.Laws.{init-IsFresh}
use collab_markdown_server.Command.{UserRole, role_read, cmd_success, command_execute}
use collab_markdown_server.Command.Rejections.{reader-changes_nothing}
use collab_markdown_server.ServerCore.{ServerCore, server_core_init, server_core_flatten_doc}
use collab_markdown_server.ServerCore.Session.{
  Request, Answer, round, IsReady, serve, shown_text, AreReaders,
}
use collab_markdown_server.ServerCore.Session.Rounds.{
  same_text, round-runs, round-Advanced, round-visible,
}

pub succ_mod : (v : ℕ) → (v % word_mod + 1) % word_mod ≡ (v + 1) % word_mod
succ_mod v = omega arith

serve-ready :
    (core : ServerCore) (qs : List Request) (h : Heap) (v : ℕ)
    → IsReady core h
    → core.current_version ≡ v % word_mod
    → IsReady (serve core qs h).0 (serve core qs h).1
      × ((serve core qs h).0.current_version ≡ (v + length qs) % word_mod)
unfolding serve
serve-ready core [] h v ready e = (ready, omega (arith, e))
serve-ready core (q ∷ qs) h v ready e =
    let a = round-Advanced core q h ready in
    let (r, f) =
      serve-ready (round core q h).core qs (round core q h).heap (v + 1) a.ready
        (a.version ∙ (ap (λ (k : ℕ). (k + 1) % word_mod) e ∙ succ_mod v)) in
    (r, f ∙ ap (λ (k : ℕ). k % word_mod) (omega arith))

renumber-nil : renumber_ordered_lists [] ≡ []
unfolding renumber_ordered_lists
renumber-nil = refl

pub init-IsReady :
    (doc : ℕ) (h : Heap)
    → pending doc h.op_lists ≡ []
    → IsReady (server_core_init doc h).0 (server_core_init doc h).1
unfolding server_core_init
init-IsReady doc h clear =
    let fresh = init-IsFresh doc h clear in
    let (d, live, start) = fresh.version in
    record {
      document = d;
      live = live;
      version = sym start;
      no_entries = refl;
      no_count = refl;
      no_pending = fresh.nothing_pending;
      numbered = λ text shown.
          let e = same_text [] text (sym fresh.visible ∙ shown) in
          ap renumber_ordered_lists e ∙ (renumber-nil ∙ sym e);
    }

-- A server that is started at an address with nothing pending and has handled a list of requests
-- is ready for the next one, and its version is the number of the requests (modulo 2^64).
pub serve-version :
    (doc : ℕ) (h : Heap) (qs : List Request)
    → pending doc h.op_lists ≡ []
    → let (core, k) = server_core_init doc h in
      IsReady (serve core qs k).0 (serve core qs k).1
      × ((serve core qs k).0.current_version ≡ length qs % word_mod)
unfolding server_core_init
serve-version doc h qs clear =
    let (core, k) = server_core_init doc h in
    let (ready, version) = serve-ready core qs k 0 (init-IsReady doc h clear) refl in
    (ready, version ∙ ap (λ (n : ℕ). n % word_mod) (omega arith))

reader-ne :
    (doc version : ℕ) (role : UserRole) (line : Option Text) (h : Heap)
    → role ≡ role_read
    → (command_execute doc version role line h).0 ≢ cmd_success
reader-ne doc version role line h e success = elim (reader-changes_nothing doc version line h).1 [
  | inl r ↦ cc
  | inr r ↦ cc
]

round-reader :
    (core : ServerCore) (q : Request) (h : Heap) (text : Text)
    → IsReady core h
    → markdown_flatten core.doc h ≡ some text
    → length text + 1 < word_mod
    → q.role ≡ role_read
    → markdown_flatten core.doc (round core q h).heap ≡ some text
round-reader core q h text ready shown room reader =
    elim (round-visible core q h text ready shown room) [
      | inl (success, _) ↦ absurd (
          reader-ne core.doc core.current_version q.role (some q.line) h reader
            (ap (λ (a : Answer). a.result) (sym (round-runs core q h ready)) ∙ success))
      | inr (_, same) ↦ same
    ]

-- Readers never change the visible text of a ready server, if it is shorter than 2^64 - 1 bytes,
-- whatever they send and however much.
serve-readers :
    (core : ServerCore) (h : Heap) (text : Text) (qs : List Request)
    → IsReady core h
    → markdown_flatten core.doc h ≡ some text
    → length text + 1 < word_mod
    → AreReaders qs
    → shown_text (serve core qs h) ≡ some text
unfolding serve server_core_flatten_doc
serve-readers core h text [] ready shown room readers = shown
serve-readers core h text (q ∷ qs) ready shown room (reader, readers) =
    let a = round-Advanced core q h ready in
    let same = round-reader core q h text ready shown room reader in
    serve-readers (round core q h).core (round core q h).heap text qs a.ready
      (ap (λ (d : ℕ). markdown_flatten d (round core q h).heap) a.same_document ∙ same) room readers
