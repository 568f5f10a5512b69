-- ===== src/Markdown/Renumber/Idempotent.antt =====
-- Renumbering keeps the length of the text, and a second renumbering changes nothing.
use collab_markdown_server.Base.{
  ℕ, suc, ◌+◌, Bool, true, false, ◌&&◌, not, List, [], ◌∷◌, ◌++◌, ◌≡◌, ◌≢◌, refl, ap, ◌∙◌, arith,
  inl, inr, min, ◌==◌, Bool-cases, length, length-append, Text,
}
use collab_markdown_server.Markdown.Renumber.{newline, renumber_ordered_lists}
use collab_markdown_server.Markdown.Renumber.Lines.{
  first_line, split_lines, join_lines, is_item, set_digit, number_items,
}
use collab_markdown_server.Markdown.Renumber.Laws.{
  join_lines-cons, split_lines-ne_nil, number_items-ne_nil, renumber-eq-lines,
}

-- The bytes of the lines below the first, each with the newline before it.
below : List Text → ℕ
below [] = 0
below (l ∷ ls) = suc (length l + below ls)

length-join_lines : (l : Text) (ls : List Text) → length (join_lines (l ∷ ls)) ≡ length l + below ls
unfolding join_lines below
length-join_lines l [] = omega arith
length-join_lines l (m ∷ ls) = rw (length-append, length-join_lines m ls) (omega arith)

below-number_items : (k : ℕ) (ls : List Text) → below (number_items k ls) ≡ below ls
unfolding below number_items set_digit
below-number_items k [] = refl
below-number_items k ([] ∷ ls) =
    ground (arith, below-number_items (k + 1) ls, below-number_items 0 ls)
below-number_items k ((c ∷ l) ∷ ls) =
    ground (arith, below-number_items (k + 1) ls, below-number_items 0 ls)

length-set_digit : (d : ℕ) (l : Text) → length (set_digit d l) ≡ length l
unfolding set_digit
length-set_digit d [] = refl
length-set_digit d (c ∷ l) = refl

length-number_items :
    (k : ℕ) (ls : List Text) → length (join_lines (number_items k ls)) ≡ length (join_lines ls)
unfolding number_items
length-number_items k [] = refl
length-number_items k (l ∷ ls) = elim (Bool-cases (is_item l)) [
  | inl e ↦
      rw (e, length-join_lines, length-join_lines l ls)
        (omega (arith, length-set_digit (b'0' + min (k + 1) 9) l, below-number_items (k + 1) ls))
  | inr e ↦
      rw (e, length-join_lines l (number_items 0 ls), length-join_lines l ls)
        (omega (arith, below-number_items 0 ls))
]

join_lines-first_line :
    (c : ℕ) (ls : List Text) → ls ≢ [] → join_lines (first_line c ls) ≡ c ∷ join_lines ls
unfolding join_lines
join_lines-first_line c [] h = absurd (h refl)
join_lines-first_line c (l ∷ []) h = refl
join_lines-first_line c (l ∷ (m ∷ ls)) h = refl

join_lines-split_lines : (t : Text) → join_lines (split_lines t) ≡ t
unfolding split_lines
join_lines-split_lines [] = unfold join_lines in refl
join_lines-split_lines (c ∷ r) = elim (Bool-cases (c == newline)) [
  | inl e ↦
      rw (e, join_lines-cons [] (split_lines r) (split_lines-ne_nil r), join_lines-split_lines r)
        (ground arith)
  | inr e ↦
      rw (
        e,
        join_lines-first_line c (split_lines r) (split_lines-ne_nil r),
        join_lines-split_lines r,
      )
]

-- The renumbered text is as long as the text was, so it fits the buffer of `in_len + 1` bytes.
length-renumber : (text : Text) → length (renumber_ordered_lists text) ≡ length text
length-renumber text = rw (renumber-eq-lines, length-number_items, join_lines-split_lines)

is_line : Text → Bool
is_line [] = true
is_line (c ∷ r) = not (c == newline) && is_line r

are_lines : List Text → Bool
are_lines [] = true
are_lines (l ∷ ls) = is_line l && are_lines ls

are_lines-first_line :
    (c : ℕ) (ls : List Text)
    → (c == newline) ≡ false
    → are_lines ls ≡ true
    → are_lines (first_line c ls) ≡ true
unfolding are_lines is_line
are_lines-first_line c [] e h = rw e
are_lines-first_line c (l ∷ ls) e h = rw e h

are_lines-split_lines : (t : Text) → are_lines (split_lines t) ≡ true
unfolding split_lines are_lines is_line
are_lines-split_lines [] = refl
are_lines-split_lines (c ∷ r) = elim (Bool-cases (c == newline)) [
  | inl e ↦ rw e (are_lines-split_lines r)
  | inr e ↦ rw e (are_lines-first_line c (split_lines r) e (are_lines-split_lines r))
]

split_lines-append :
    (l t : Text) → is_line l ≡ true → split_lines (l ++ (newline ∷ t)) ≡ l ∷ split_lines t
unfolding split_lines is_line
split_lines-append [] t h = refl
split_lines-append (c ∷ l) t h = ground (arith, split_lines-append l t)

split_lines-line : (l : Text) → is_line l ≡ true → split_lines l ≡ l ∷ []
unfolding split_lines is_line
split_lines-line [] h = refl
split_lines-line (c ∷ l) h = ground (arith, split_lines-line l)

and_parts : (a b : Bool) → (a && b) ≡ true → (a ≡ true) × (b ≡ true)
and_parts a b h = ground arith

split_lines-join_lines :
    (ls : List Text) → ls ≢ [] → are_lines ls ≡ true → split_lines (join_lines ls) ≡ ls
unfolding join_lines are_lines
split_lines-join_lines [] n h = absurd (n refl)
split_lines-join_lines (l ∷ []) n h = split_lines-line l (ground arith)
split_lines-join_lines (l ∷ (m ∷ ls)) n h =
    let parts : (is_line l ≡ true) × (are_lines (m ∷ ls) ≡ true) = and_parts (is_line l) _ h in
    split_lines-append l (join_lines (m ∷ ls)) parts.0
    ∙ ap (l ∷◌) (split_lines-join_lines (m ∷ ls) (λ e. cc) parts.1)

set_digit-is_line :
    (k : ℕ) (l : Text) → is_line l ≡ true → is_line (set_digit (b'0' + min (k + 1) 9) l) ≡ true
unfolding set_digit is_line
set_digit-is_line k [] h = refl
set_digit-is_line k (c ∷ l) h = ground arith

are_lines-number_items :
    (k : ℕ) (ls : List Text) → are_lines ls ≡ true → are_lines (number_items k ls) ≡ true
unfolding number_items are_lines
are_lines-number_items k [] h = refl
are_lines-number_items k (l ∷ ls) h =
    ground
      (arith, set_digit-is_line k l, are_lines-number_items (k + 1) ls, are_lines-number_items 0 ls)

set_digit-is_item :
    (k : ℕ) (l : Text) → is_item l ≡ true → is_item (set_digit (b'0' + min (k + 1) 9) l) ≡ true
unfolding set_digit is_item
set_digit-is_item k [] h = h
set_digit-is_item k (c ∷ []) h = cc
set_digit-is_item k (c ∷ d ∷ []) h = cc
set_digit-is_item k (c ∷ d ∷ e ∷ l) h = ground arith

set_digit-set_digit : (d e : ℕ) (l : Text) → set_digit d (set_digit e l) ≡ set_digit d l
unfolding set_digit
set_digit-set_digit d e [] = refl
set_digit-set_digit d e (c ∷ l) = refl

number_items_idem :
    (k : ℕ) (ls : List Text) → number_items k (number_items k ls) ≡ number_items k ls
unfolding number_items
number_items_idem k [] = refl
number_items_idem k (l ∷ ls) = elim (Bool-cases (is_item l)) [
  | inl e ↦ rw (e, set_digit-is_item k l e, set_digit-set_digit, number_items_idem (k + 1) ls)
  | inr e ↦ rw (e, e, number_items_idem 0 ls)
]

-- Renumbering a text that was renumbered changes nothing.
pub renumber_idem :
    (text : Text)
    → renumber_ordered_lists (renumber_ordered_lists text) ≡ renumber_ordered_lists text
renumber_idem text = rw (
  renumber-eq-lines text,
  renumber-eq-lines (join_lines (number_items 0 (split_lines text))),
  split_lines-join_lines (number_items 0 (split_lines text)) (number_items-ne_nil 0 text)
      (are_lines-number_items 0 (split_lines text) (are_lines-split_lines text)),
  number_items_idem,
)
