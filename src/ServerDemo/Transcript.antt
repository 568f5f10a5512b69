-- ===== src/ServerDemo/Transcript.antt =====
-- What the demo server writes, by the promise of the server core.
use collab_markdown_server.Base.{
  arith, subst, ◌≤◌, ℕ, zero, suc, ◌+◌, ◌-◌, ◌<◌, ◌≡◌, refl, ap, sym, ◌∙◌, Bool, Bool-cases, inl,
  inr, true, false, some, List, [], ◌∷◌, ◌++◌, if◌then◌else◌, append_assoc, length, Text, codes,
  word_mod,
}
use collab_markdown_server.Libc.Streams.{fgets, fgets-shorter}
use collab_markdown_server.Markdown.Document.{Heap, pending}
use collab_markdown_server.ServerCore.{ServerCore, server_core_init, server_core_flatten_doc}
use collab_markdown_server.ServerCore.Session.{Request, round, IsReady}
use collab_markdown_server.ServerCore.Session.Rounds.{round-Advanced}
use collab_markdown_server.ServerCore.Session.Runs.{init-IsReady}
use collab_markdown_server.ServerCore.Spec.{Shared, nothing_shared, spec_round, HasRoom}
use collab_markdown_server.ServerCore.Spec.Refinement.{Shows, round-Shows}
use collab_markdown_server.ServerCore.Spec.Broadcasts.{promised_broadcast, round-promised}
use collab_markdown_server.Markdown.Version.Laws.{init-IsFresh}
use collab_markdown_server.ServerDemo.{
  line_buf_size, demo_request, doc_block, is_quit, demo_loop, demo_main,
}

-- The client's lines up to QUIT, and whether QUIT is there; on fuel.
unfoldable pub demo_lines : ℕ → Text → List Text × Bool
demo_lines zero input = ([], false)
demo_lines (suc fuel) [] = ([], false)
demo_lines (suc fuel) (c ∷ s) =
    let (line, rest) = fgets (line_buf_size - 1) (c ∷ s) in
    let (lines, quits) = demo_lines fuel rest in
    if is_quit line then ([], true) else (line ∷ lines, quits)

abbrev pub demo_requests : List Text → List Request
demo_requests [] = []
demo_requests (line ∷ lines) = demo_request line ∷ demo_requests lines

-- The broadcast and the document that a command is answered with.
abbrev promised_block : Shared → Request → Text
promised_block s q = promised_broadcast s q ++ doc_block (some (spec_round s q).1.text)

unfoldable pub promised_blocks : Shared → List Request → Text
promised_blocks s [] = []
promised_blocks s (q ∷ qs) = promised_block s q ++ promised_blocks (spec_round s q).1 qs

abbrev pub farewell : Bool → Text
farewell quits = if quits then codes "SERVER_SHUTDOWN\n" else []

module _ (core : ServerCore) (q : Request) (h : Heap) (s : Shared) (ready : IsReady core h)
    (shows : Shows core h s) (room : length s.text + 1 < word_mod) where
  block-promised :
      (round core q h).payload
        ++ doc_block (server_core_flatten_doc (round core q h).core (round core q h).heap)
      ≡ promised_block s q
  unfolding server_core_flatten_doc
  block-promised =
      let (_, (_, text)) = round-Shows core q h s ready shows room in
      rw (round-promised core q h s ready shows room, text) refl

loop-promised :
    (fuel : ℕ) (input : Text) (core : ServerCore) (h : Heap) (s : Shared)
    → IsReady core h
    → Shows core h s
    → HasRoom s (demo_requests (demo_lines fuel input).0)
    → demo_loop fuel input core h
      ≡ promised_blocks s (demo_requests (demo_lines fuel input).0)
        ++ farewell (demo_lines fuel input).1
unfolding demo_loop demo_lines promised_blocks HasRoom
loop-promised zero input core h s ready shows room = refl
loop-promised (suc fuel) [] core h s ready shows room = refl
loop-promised (suc fuel) (c ∷ input) core h s ready shows room =
    let line = (fgets (line_buf_size - 1) (c ∷ input)).0 in
    let rest = (fgets (line_buf_size - 1) (c ∷ input)).1 in
    let q = demo_request line in
    elim (Bool-cases (is_quit line)) [
      | inl quits ↦ rw quits refl
      | inr other ↦
          let (now, later) : HasRoom s (q ∷ demo_requests (demo_lines fuel rest).0) =
            rw other at room in
          let a = round core q h in
          let next =
            loop-promised fuel rest a.core a.heap (spec_round s q).1
              (round-Advanced core q h ready).ready (round-Shows core q h s ready shows now).1
              later in
          rw (other, next)
            (sym (append_assoc a.payload (doc_block (server_core_flatten_doc a.core a.heap)) _)
              ∙ (ap
                    (λ (t : Text).
                      t
                      ++ (promised_blocks (spec_round s q).1
                            (demo_requests (demo_lines fuel rest).0)
                          ++ farewell (demo_lines fuel rest).1))
                    (block-promised core q h s ready shows now)
                  ∙ sym (append_assoc (promised_block s q) _ _)))
    ]

-- Any fuel for the length of the input is enough.
demo_lines-fuel :
    (fuel more : ℕ) (s : Text)
    → length s ≤ fuel
    → length s ≤ more
    → demo_lines fuel s ≡ demo_lines more s
unfolding demo_lines
demo_lines-fuel zero zero s enough enough' = refl
demo_lines-fuel zero (suc more) [] enough enough' = refl
demo_lines-fuel zero (suc more) (c ∷ s) enough enough' = absurd (omega arith)
demo_lines-fuel (suc fuel) zero [] enough enough' = refl
demo_lines-fuel (suc fuel) zero (c ∷ s) enough enough' = absurd (omega arith)
demo_lines-fuel (suc fuel) (suc more) [] enough enough' = refl
demo_lines-fuel (suc fuel) (suc more) (c ∷ s) enough enough' =
    let less = fgets-shorter 510 c s in
    ap
      (λ (r : List Text × Bool).
        if is_quit (fgets 511 (c ∷ s)).0 then ([], true) else ((fgets 511 (c ∷ s)).0 ∷ r.0, r.1))
      (demo_lines-fuel fuel more (fgets 511 (c ∷ s)).1 (omega arith) (omega arith))

-- The whole transcript of the demo server, started at an address with nothing pending: the greeting,
-- then for each line of the client up to QUIT the broadcast of the promised answer and version and
-- the promised document, and the farewell if there is a QUIT; as long as the promised texts are
-- shorter than 2^64 - 1 bytes. The lines are those that any fuel for the length of the input, or
-- more, reads.
pub demo_main-promised :
    (doc : ℕ) (h : Heap) (fuel : ℕ) (input : Text)
    → pending doc h.op_lists ≡ []
    → length input ≤ fuel
    → HasRoom nothing_shared (demo_requests (demo_lines fuel input).0)
    → demo_main doc h input
      ≡ codes "CONNECTED demo-user write\n"
        ++ (promised_blocks nothing_shared (demo_requests (demo_lines fuel input).0)
            ++ farewell (demo_lines fuel input).1)
unfolding demo_main
demo_main-promised doc h fuel input clear enough room =
    let (core, k) = server_core_init doc h in
    let same = demo_lines-fuel fuel (length input) input enough (omega arith) in
    let room' =
      subst (λ (r : List Text × Bool). HasRoom nothing_shared (demo_requests r.0)) same room in
    ap (codes "CONNECTED demo-user write\n" ++◌) (
      loop-promised (length input) input core k nothing_shared (init-IsReady doc h clear)
        (unfold server_core_init in (refl, (init-IsFresh doc h clear).visible)) room'
      ∙ ap
          (λ (r : List Text × Bool).
            promised_blocks nothing_shared (demo_requests r.0) ++ farewell r.1)
          (sym same))
