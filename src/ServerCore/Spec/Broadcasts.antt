-- ===== src/ServerCore/Spec/Broadcasts.antt =====
-- The broadcast that is promised for a command.
use collab_markdown_server.Base.{◌+◌, ◌<◌, ◌≡◌, refl, List, [], ◌∷◌, ◌++◌, length, Text, word_mod}
use collab_markdown_server.Markdown.Document.{Heap}
use collab_markdown_server.ServerCore.{ServerCore, copy_without_trailing_newline, build_payload}
use collab_markdown_server.ServerCore.Session.{Request, round, IsReady}
use collab_markdown_server.ServerCore.Session.Rounds.{round-Advanced}
use collab_markdown_server.ServerCore.Spec.{Shared, spec_round}
use collab_markdown_server.ServerCore.Spec.Refinement.{Shows, round-Shows}

-- The promised version, and the command with its user and the promised answer.
abbrev pub promised_broadcast : Shared → Request → Text
promised_broadcast s q =
    let (result, s') = spec_round s q in
    build_payload
      (record { user = q.user; command = copy_without_trailing_newline q.line; result = result }
        ∷ [])
      s'.version

-- One after the other.
unfoldable pub promised_broadcasts : Shared → List Request → Text
promised_broadcasts s [] = []
promised_broadcasts s (q ∷ qs) = promised_broadcast s q ++ promised_broadcasts (spec_round s q).1 qs

-- A round of a ready server makes the promised broadcast.
pub round-promised :
    (core : ServerCore) (q : Request) (h : Heap) (s : Shared)
    → IsReady core h
    → Shows core h s
    → length s.text + 1 < word_mod
    → (round core q h).payload ≡ promised_broadcast s q
round-promised core q h s ready shows room =
    let a = round-Advanced core q h ready in
    let (same, (version, text)) = round-Shows core q h s ready shows room in
    rw (a.broadcast, version, same) refl
