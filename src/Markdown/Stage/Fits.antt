-- ===== src/Markdown/Stage/Fits.antt =====
-- Pending operations that fit the text that they are applied to.
use collab_markdown_server.Base.{
  ℕ, ◌+◌, ◌-◌, ◌≤◌, ◌<◌, ◌≡◌, ap, ◌∙◌, List, [], ◌∷◌, ◌++◌, length, Text, word_mod,
}
use collab_markdown_server.Markdown.Document.{Op, op_insert, op_delete}
use collab_markdown_server.Markdown.Working.{apply_single_op, apply_ops}
use collab_markdown_server.Markdown.Working.Laws.{
  apply-insert, apply-delete, length-splice, length-cut,
}

-- The operation lies within the text, and no sum of its numbers wraps around.
abbrev pub OpFits : Text → Op → Type 0
OpFits t (op_insert pos inserted) = pos ≤ length t
OpFits t (op_delete pos len) = pos + len ≤ length t

-- Each operation fits the text that those before it leave, and all these texts have room in memory.
abbrev pub Fits : Text → List Op → Type 0
Fits t [] = length t + 1 < word_mod
Fits t (op ∷ ops) = (length t + 1 < word_mod) × OpFits t op × Fits (apply_single_op t op) ops

pub Fits-room : (t : Text) (ops : List Op) → Fits t ops → length t + 1 < word_mod
Fits-room t [] f = f
Fits-room t (op ∷ ops) f = f.0

pub Fits-room_after :
    (t : Text) (ops : List Op) → Fits t ops → length (apply_ops t ops) + 1 < word_mod
unfolding apply_ops
Fits-room_after t [] f = f
Fits-room_after t (op ∷ ops) f = Fits-room_after (apply_single_op t op) ops f.2

-- One more operation that fits the working text.
Fits-append :
    (t : Text) (ops : List Op) (op : Op)
    → Fits t ops
    → OpFits (apply_ops t ops) op
    → length (apply_single_op (apply_ops t ops) op) + 1 < word_mod
    → Fits t (ops ++ (op ∷ []))
unfolding apply_ops
Fits-append t [] op f g room = (f, g, room)
Fits-append t (first ∷ ops) op f g room =
    (f.0, f.1, Fits-append (apply_single_op t first) ops op f.2 g room)

pub length-apply_insert :
    (t : Text) (pos : ℕ) (inserted : Text)
    → pos ≤ length t
    → length (apply_single_op t (op_insert pos inserted)) ≡ length t + length inserted
length-apply_insert t pos inserted fits =
    ap length (apply-insert t pos inserted fits) ∙ length-splice pos inserted t fits

pub length-apply_delete :
    (t : Text) (pos len : ℕ)
    → pos + len ≤ length t
    → length t < word_mod
    → length (apply_single_op t (op_delete pos len)) ≡ length t - len
length-apply_delete t pos len fits room =
    ap length (apply-delete t pos len fits room) ∙ length-cut pos len t fits
