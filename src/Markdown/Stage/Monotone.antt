-- ===== src/Markdown/Stage/Monotone.antt =====
-- Moved positions keep their order and stay within the text.
use collab_markdown_server.Base.{
  ℕ, ◌≤◌, ◌<◌, ◌≡◌, ◌∙◌, inl, inr, List, [], ◌∷◌, arith, length, Text, add64_small, sub64_small,
  word_mod,
}
use collab_markdown_server.Markdown.Document.{Op, op_insert, op_delete}
use collab_markdown_server.Markdown.Working.{apply_single_op, apply_ops}
use collab_markdown_server.Markdown.Monad.{
  Status, Outcome, ok, fail, deleted_position, Outcome-cases,
}
use collab_markdown_server.Markdown.Stage.{transform_position, transform_positions}
use collab_markdown_server.Markdown.Stage.Fits.{
  OpFits, Fits, Fits-room, length-apply_insert, length-apply_delete,
}

transform-mono_op :
    (t : Text) (op : Op) (a b a' b' : ℕ)
    → a ≤ b
    → b ≤ length t
    → OpFits t op
    → length t < word_mod
    → length (apply_single_op t op) < word_mod
    → transform_position a op ≡ ok a'
    → transform_position b op ≡ ok b'
    → (a' ≤ b') × (b' ≤ length (apply_single_op t op))
unfolding transform_position
transform-mono_op t (op_insert pos s) a b a' b' ab bt fits room room' ea eb =
    ground (arith, add64_small a (length s), add64_small b (length s), length-apply_insert t pos s)
transform-mono_op t (op_delete pos len) a b a' b' ab bt fits room room' ea eb = ground (
  arith,
  add64_small pos len,
  sub64_small a len,
  sub64_small b len,
  length-apply_delete t pos len,
)

transform_positions-cons :
    (a a' : ℕ) (op : Op) (ops : List Op)
    → transform_positions a (op ∷ ops) ≡ ok a'
    → (c : ℕ) × (transform_position a op ≡ ok c) × (transform_positions c ops ≡ ok a')
unfolding transform_positions
transform_positions-cons a a' op ops h = elim (Outcome-cases (transform_position a op)) [
  | inl (c, e) ↦ (c, e, rw (e, transform_positions) at h)
  | inr (s, e) ↦
      cc
        (let gone : ◌≡◌ {A = Outcome ℕ} (fail s) (ok a') = rw (e, transform_positions) at h in gone)
]

pub transform_mono :
    (t : Text) (ops : List Op) (a b a' b' : ℕ)
    → a ≤ b
    → b ≤ length t
    → Fits t ops
    → transform_positions a ops ≡ ok a'
    → transform_positions b ops ≡ ok b'
    → (a' ≤ b') × (b' ≤ length (apply_ops t ops))
unfolding transform_positions apply_ops
transform_mono t [] a b a' b' ab bt fits ea eb = ground arith
transform_mono t (op ∷ ops) a b a' b' ab bt (room, op_fits, rest) ea eb =
    let room' = Fits-room (apply_single_op t op) ops rest in
    let (c, ec, ea') = transform_positions-cons a a' op ops ea in
    let (d, ed, eb') = transform_positions-cons b b' op ops eb in
    let next = transform-mono_op t op a b c d ab bt op_fits (omega arith) (omega arith) ec ed in
    transform_mono (apply_single_op t op) ops c d a' b' next.0 next.1 rest ea' eb'

transform_position-fail :
    (a : ℕ) (op : Op) (s : Status) → transform_position a op ≡ fail s → s ≡ deleted_position
unfolding transform_position
transform_position-fail a (op_insert pos inserted) s h = cc
transform_position-fail a (op_delete pos len) s h = ground arith

-- The only failure of the loop.
pub transform_positions-fail :
    (a : ℕ) (ops : List Op) (s : Status) → transform_positions a ops ≡ fail s → s ≡ deleted_position
unfolding transform_positions
transform_positions-fail a [] s h = cc
transform_positions-fail a (op ∷ ops) s h = elim (Outcome-cases (transform_position a op)) [
  | inl (c, e) ↦ transform_positions-fail c ops s (rw (e, transform_positions) at h)
  | inr (s', e) ↦
      let same : ◌≡◌ {A = Outcome ℕ} (fail s') (fail s) = rw (e, transform_positions) at h in
      transform_position-fail a op s (e ∙ same)
]
