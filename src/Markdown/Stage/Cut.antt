-- ===== src/Markdown/Stage/Cut.antt =====
-- A position of the committed text is a cut of it in two. Pending operations edit either side of
-- the cut, and `transform_position_after_pending_ops` computes where the cut is afterwards.
use collab_markdown_server.Base.{
  ℕ, ◌+◌, ◌-◌, ◌≤◌, ◌<◌, ◌≡◌, refl, inl, inr, Bool-cases, Option-cases, Option, none, some, List,
  [], ◌∷◌, ◌++◌, arith, append_assoc, ltb, leb, ltb→lt, ltb→le, leb→le, leb→lt, if◌then◌else◌,
  length, length-append, take, drop, Text, add64_small, sub64_small, word_mod, take-append_left,
  take-append_right, drop-append_left, drop-append_right,
}
use collab_markdown_server.Markdown.Document.{Op, op_insert, op_delete}
use collab_markdown_server.Markdown.Working.{apply_single_op, apply_ops}
use collab_markdown_server.Markdown.Working.Laws.{
  apply-insert, apply-delete, length-splice, length-cut,
}
use collab_markdown_server.Markdown.Monad.{Outcome, ok, fail, deleted_position}
use collab_markdown_server.Markdown.Stage.{transform_position, transform_positions}
use collab_markdown_server.Markdown.Stage.Fits.{OpFits, Fits, Fits-room, length-apply_insert}

-- The two sides after an operation; none if it deletes bytes of both.
unfoldable pub cut_op : Text → Text → Op → Option (Text × Text)
cut_op l r (op_insert pos inserted) =
    if ltb pos (length l)
    then some (take pos l ++ (inserted ++ drop pos l), r)
    else (let at = pos - length l in some (l, take at r ++ (inserted ++ drop at r)))
cut_op l r (op_delete pos len) =
    if ltb pos (length l)
    then (if leb (pos + len) (length l) then some (take pos l ++ drop (pos + len) l, r) else none)
    else (let at = pos - length l in some (l, take at r ++ drop (at + len) r))

unfoldable pub cut_ops : Text → Text → List Op → Option (Text × Text)
cut_ops l r [] = some (l, r)
cut_ops l r (op ∷ ops) = elim (cut_op l r op) [ none ↦ none | some (l', r') ↦ cut_ops l' r' ops ]

-- The position computed is the length of the left side, and the sides make up the text.
abbrev pub Agrees : Option (Text × Text) → Outcome ℕ → Text → Type 0
Agrees none position t = position ≡ fail deleted_position
Agrees (some (l, r)) position t = (position ≡ ok (length l)) × (t ≡ l ++ r)

cut_insert_left :
    (l r : Text) (pos : ℕ) (s : Text)
    → pos < length l
    → length (l ++ r) < word_mod
    → length (apply_single_op (l ++ r) (op_insert pos s)) < word_mod
    → (transform_position (length l) (op_insert pos s)
        ≡ ok (length (take pos l ++ (s ++ drop pos l))))
      × (apply_single_op (l ++ r) (op_insert pos s) ≡ (take pos l ++ (s ++ drop pos l)) ++ r)
unfolding transform_position
cut_insert_left l r pos s h room room' = (
  ground (
    arith,
    add64_small (length l) (length s),
    length-append l r,
    length-apply_insert (l ++ r) pos s,
    length-splice pos s l,
  ),
  rw
      (
        apply-insert (l ++ r) pos s (omega (arith, length-append l r)),
        take-append_left pos l r (omega arith),
        drop-append_left pos l r (omega arith),
      )
      (simp append_assoc),
)

cut_insert_right :
    (l r : Text) (pos : ℕ) (s : Text)
    → length l ≤ pos
    → pos ≤ length (l ++ r)
    → (transform_position (length l) (op_insert pos s) ≡ ok (length l))
      × (apply_single_op (l ++ r) (op_insert pos s)
          ≡ l ++ (take (pos - length l) r ++ (s ++ drop (pos - length l) r)))
unfolding transform_position
cut_insert_right l r pos s h fits = (
  ground arith,
  rw
      (
        apply-insert (l ++ r) pos s fits,
        take-append_right pos (pos - length l) l r (omega arith),
        drop-append_right pos (pos - length l) l r (omega arith),
      )
      (simp append_assoc),
)

cut_delete_left :
    (l r : Text) (pos len : ℕ)
    → pos < length l
    → pos + len ≤ length l
    → length (l ++ r) < word_mod
    → (transform_position (length l) (op_delete pos len)
        ≡ ok (length (take pos l ++ drop (pos + len) l)))
      × (apply_single_op (l ++ r) (op_delete pos len) ≡ (take pos l ++ drop (pos + len) l) ++ r)
unfolding transform_position
cut_delete_left l r pos len h fits room = (
  ground (
    arith,
    add64_small pos len,
    sub64_small (length l) len,
    length-append l r,
    length-cut pos len l,
  ),
  rw
      (
        apply-delete (l ++ r) pos len (omega (arith, length-append l r)) room,
        take-append_left pos l r (omega arith),
        drop-append_left (pos + len) l r fits,
      )
      (simp append_assoc),
)

cut_delete_right :
    (l r : Text) (pos len : ℕ)
    → length l ≤ pos
    → pos + len ≤ length (l ++ r)
    → length (l ++ r) < word_mod
    → (transform_position (length l) (op_delete pos len) ≡ ok (length l))
      × (apply_single_op (l ++ r) (op_delete pos len)
          ≡ l ++ (take (pos - length l) r ++ drop (pos - length l + len) r))
unfolding transform_position
cut_delete_right l r pos len h fits room = (
  ground arith,
  rw
      (
        apply-delete (l ++ r) pos len fits room,
        take-append_right pos (pos - length l) l r (omega arith),
        drop-append_right (pos + len) (pos - length l + len) l r (omega arith),
      )
      (simp append_assoc),
)

cut_delete_across :
    (l r : Text) (pos len : ℕ)
    → pos < length l
    → length l < pos + len
    → pos + len ≤ length (l ++ r)
    → length (l ++ r) < word_mod
    → transform_position (length l) (op_delete pos len) ≡ fail deleted_position
unfolding transform_position
cut_delete_across l r pos len h across fits room = ground (arith, add64_small pos len)

-- One operation.
cut_op-Agrees :
    (l r : Text) (op : Op)
    → OpFits (l ++ r) op
    → length (l ++ r) < word_mod
    → length (apply_single_op (l ++ r) op) < word_mod
    → Agrees (cut_op l r op) (transform_position (length l) op) (apply_single_op (l ++ r) op)
unfolding cut_op
cut_op-Agrees l r (op_insert pos s) fits room room' = elim (Bool-cases (ltb pos (length l))) [
  | inl e ↦ rw e (cut_insert_left l r pos s (ltb→lt _ _ e) room room')
  | inr e ↦ rw e (cut_insert_right l r pos s (ltb→le _ _ e) fits)
]
cut_op-Agrees l r (op_delete pos len) fits room room' = elim (Bool-cases (ltb pos (length l))) [
  | inr e ↦ rw e (cut_delete_right l r pos len (ltb→le _ _ e) fits room)
  | inl e ↦ elim (Bool-cases (leb (pos + len) (length l))) [
    | inl e' ↦ rw (e, e') (cut_delete_left l r pos len (ltb→lt _ _ e) (leb→le _ _ e') room)
    | inr e' ↦ rw (e, e') (cut_delete_across l r pos len (ltb→lt _ _ e) (leb→lt _ _ e') fits room)
  ]
]

-- Operations that fit the text `l ++ r` are cut at the end of `l`: where each of them edits one side
-- alone, the position `length l` is moved to the end of what `l` has become; where one of them
-- deletes bytes of both sides, the position is reported as deleted.
pub transform-cut :
    (l r : Text) (ops : List Op)
    → Fits (l ++ r) ops
    → Agrees (cut_ops l r ops) (transform_positions (length l) ops) (apply_ops (l ++ r) ops)
unfolding cut_ops transform_positions apply_ops
transform-cut l r [] fits = (refl, refl)
transform-cut l r (op ∷ ops) (room, op_fits, rest) =
    let room' = Fits-room (apply_single_op (l ++ r) op) ops rest in
    let step = cut_op-Agrees l r op op_fits (omega arith) (omega arith) in
    elim (Option-cases (cut_op l r op)) [
      | inl e ↦ let gone = rw e at step in rw (e, cut_ops, gone, transform_positions) refl
      | inr ((l', r'), e) ↦
          let moved = rw e at step in
          rw (e, cut_ops, moved.0, transform_positions, moved.1)
            (transform-cut l' r' ops (rw (moved.1) at rest))
    ]
