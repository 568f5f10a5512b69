-- ===== src/Markdown/Document/Pending.antt =====
-- The global list of pending operations behaves as a map from documents to lists.
use collab_markdown_server.Base.{
  ℕ, ◌≡◌, ◌≢◌, refl, ap, ◌∙◌, inl, inr, none, some, List, [], ◌∷◌, ◌++◌, arith, Option-cases,
}
use collab_markdown_server.Markdown.Document.{
  Op, OpList, Heap, find_ops, get_or_create_ops, update_ops, clear_ops, free_ops, enqueue_op,
  pending,
}

module _ (doc : ℕ) (f : List Op → List Op) where
  pending-update_ops-none :
      (lists : List OpList) → find_ops doc lists ≡ none → update_ops doc f lists ≡ lists
  unfolding find_ops update_ops
  pending-update_ops-none [] h = refl
  pending-update_ops-none (p ∷ rest) h = ground (arith, pending-update_ops-none rest)

  pending-update_ops_self :
      (lists : List OpList) {p : OpList}
      → find_ops doc lists ≡ some p
      → pending doc (update_ops doc f lists) ≡ f (pending doc lists)
  unfolding find_ops update_ops
  pending-update_ops_self [] h = cc
  pending-update_ops_self (p ∷ rest) {p = q} h =
      ground (arith, pending-update_ops_self rest {p = q})

  pending-update_ops_ne :
      (other : ℕ) (lists : List OpList)
      → other ≢ doc
      → pending other (update_ops doc f lists) ≡ pending other lists
  unfolding find_ops update_ops
  pending-update_ops_ne other [] ne = refl
  pending-update_ops_ne other (p ∷ rest) ne = ground (arith, pending-update_ops_ne other rest)

module _ (doc : ℕ) where
  find_ops-get_or_create :
      (lists : List OpList) → (p : OpList) × (find_ops doc (get_or_create_ops doc lists) ≡ some p)
  unfolding get_or_create_ops
  find_ops-get_or_create lists = elim (Option-cases (find_ops doc lists)) [
    | inl e ↦ (record { doc = doc; ops = [] }, ground arith)
    | inr (p, e) ↦ (p, ground arith)
  ]

  pending-get_or_create :
      (other : ℕ) (lists : List OpList)
      → pending other (get_or_create_ops doc lists) ≡ pending other lists
  unfolding get_or_create_ops
  pending-get_or_create other lists = ground arith

  -- A staged operation comes last among those of its document, and no other document has it.
  pub pending-enqueue_op_self :
      (op : Op) (h : Heap)
      → pending doc (enqueue_op doc op h).op_lists ≡ pending doc h.op_lists ++ (op ∷ [])
  unfolding enqueue_op
  pending-enqueue_op_self op h =
      pending-update_ops_self doc (λ ops. ops ++ (op ∷ [])) _ (find_ops-get_or_create h.op_lists).1
      ∙ ap (λ ops. ops ++ (op ∷ [])) (pending-get_or_create doc h.op_lists)

  pub pending-enqueue_op_ne :
      (other : ℕ) (op : Op) (h : Heap)
      → other ≢ doc
      → pending other (enqueue_op doc op h).op_lists ≡ pending other h.op_lists
  unfolding enqueue_op
  pending-enqueue_op_ne other op h ne =
      pending-update_ops_ne doc (λ ops. ops ++ (op ∷ [])) other _ ne
      ∙ pending-get_or_create other h.op_lists

  pub pending-clear_ops_self : (lists : List OpList) → pending doc (clear_ops doc lists) ≡ []
  unfolding clear_ops
  pending-clear_ops_self lists = elim (Option-cases (find_ops doc lists)) [
    | inl e ↦ ground (arith, pending-update_ops-none doc (λ ops. []) lists e)
    | inr (p, e) ↦ pending-update_ops_self doc (λ ops. []) lists e
  ]

  pub pending-clear_ops_ne :
      (other : ℕ) (lists : List OpList)
      → other ≢ doc
      → pending other (clear_ops doc lists) ≡ pending other lists
  unfolding clear_ops
  pending-clear_ops_ne other lists ne = pending-update_ops_ne doc (λ ops. []) other lists ne

  pending-free_ops_ne :
      (other : ℕ) (lists : List OpList)
      → other ≢ doc
      → pending other (free_ops doc lists) ≡ pending other lists
  unfolding free_ops find_ops
  pending-free_ops_ne other [] ne = refl
  pending-free_ops_ne other (p ∷ rest) ne = ground (arith, pending-free_ops_ne other rest)

-- No document has two nodes, so that unlinking one leaves none.
abbrev pub IsUnique : List OpList → Type 0
IsUnique [] = Unit
IsUnique (p ∷ rest) = (find_ops p.doc rest ≡ none) × IsUnique rest

module _ (doc : ℕ) where
  find_ops-update_ops-none :
      (other : ℕ) (f : List Op → List Op) (lists : List OpList)
      → find_ops other lists ≡ none
      → find_ops other (update_ops doc f lists) ≡ none
  unfolding find_ops update_ops
  find_ops-update_ops-none other f [] h = refl
  find_ops-update_ops-none other f (p ∷ rest) h =
      ground (arith, find_ops-update_ops-none other f rest)

  update_ops-IsUnique :
      (f : List Op → List Op) (lists : List OpList)
      → IsUnique lists
      → IsUnique (update_ops doc f lists)
  unfolding update_ops
  update_ops-IsUnique f [] u = tt
  update_ops-IsUnique f (p ∷ rest) u =
      ground (arith, update_ops-IsUnique f rest, find_ops-update_ops-none p.doc f rest)

  get_or_create_ops-IsUnique :
      (lists : List OpList) → IsUnique lists → IsUnique (get_or_create_ops doc lists)
  unfolding get_or_create_ops
  get_or_create_ops-IsUnique lists u = ground arith

  pub enqueue_op-IsUnique :
      (op : Op) (h : Heap) → IsUnique h.op_lists → IsUnique (enqueue_op doc op h).op_lists
  unfolding enqueue_op
  enqueue_op-IsUnique op h u =
      update_ops-IsUnique (λ ops. ops ++ (op ∷ [])) _ (get_or_create_ops-IsUnique h.op_lists u)

  pub clear_ops-IsUnique : (lists : List OpList) → IsUnique lists → IsUnique (clear_ops doc lists)
  unfolding clear_ops
  clear_ops-IsUnique lists u = update_ops-IsUnique (λ ops. []) lists u

  find_ops-free_ops-none :
      (other : ℕ) (lists : List OpList)
      → find_ops other lists ≡ none
      → find_ops other (free_ops doc lists) ≡ none
  unfolding find_ops free_ops
  find_ops-free_ops-none other [] h = refl
  find_ops-free_ops-none other (p ∷ rest) h = ground (arith, find_ops-free_ops-none other rest)

  pub free_ops-IsUnique : (lists : List OpList) → IsUnique lists → IsUnique (free_ops doc lists)
  unfolding free_ops
  free_ops-IsUnique [] u = tt
  free_ops-IsUnique (p ∷ rest) u =
      ground (arith, free_ops-IsUnique rest, find_ops-free_ops-none p.doc rest)

  pub find_ops-free_ops_self :
      (lists : List OpList) → IsUnique lists → find_ops doc (free_ops doc lists) ≡ none
  unfolding free_ops find_ops
  find_ops-free_ops_self [] u = refl
  find_ops-free_ops_self (p ∷ rest) u = ground (arith, find_ops-free_ops_self rest)
