-- ===== src/Markdown/Renumber/Laws.antt =====
-- `renumber_ordered_lists` against its description over lines.
use native.Mathlib.Numerals.{add-one}
use collab_markdown_server.Base.{
  ℕ, zero, suc, ◌+◌, ◌-◌, ◌≤◌, Bool, true, false, none, some, List, [], ◌∷◌, ◌++◌, ◌≡◌, ◌≢◌, refl,
  sym, arith, inl, inr, min, ltb, ◌==◌, if◌then◌else◌, Bool-cases, Option-cases, length, take, drop,
  Text, length-drop, drop-length_le, ltb→le, append-nil,
}
use collab_markdown_server.Markdown.Renumber.{
  newline, is_ordered_list_line, line_length, number_line, plain_line, next_list_no, next_line,
  end_line, renumber_loop, renumber_ordered_lists,
}
use collab_markdown_server.Markdown.Renumber.Lines.{
  split_lines, join_lines, is_item, set_digit, number_items,
}

line_length-le : (t : Text) → line_length t ≤ length t
unfolding line_length
line_length-le [] = omega arith
line_length-le (c ∷ r) = ground (arith, line_length-le r)

rest_lines : Text → ℕ → List Text
rest_lines t n = if ltb n (length t) then split_lines (drop (suc n) t) else []

split_lines-cut : (t : Text) → split_lines t ≡ take (line_length t) t ∷ rest_lines t (line_length t)
unfolding split_lines line_length rest_lines
split_lines-cut [] = refl
split_lines-cut (c ∷ r) = elim (Bool-cases (c == newline)) [
  | inl e ↦ rw e (ground arith)
  | inr e ↦ rw (e, split_lines-cut r) (ground arith)
]

item_found :
    (t : Text) (old : ℕ)
    → is_ordered_list_line t ≡ some old
    → (is_item (take (line_length t) t) ≡ true) × (3 ≤ line_length t)
unfolding is_ordered_list_line line_length is_item
item_found [] old h = ground arith
item_found (a ∷ []) old h = ground arith
item_found (a ∷ b ∷ []) old h = ground arith
item_found (a ∷ b ∷ c ∷ r) old h = ground arith

item_missed : (t : Text) → is_ordered_list_line t ≡ none → is_item (take (line_length t) t) ≡ false
unfolding is_ordered_list_line line_length is_item
item_missed [] h = ground arith
item_missed (a ∷ []) h = ground arith
item_missed (a ∷ b ∷ []) h = ground arith
item_missed (a ∷ b ∷ c ∷ r) h = ground arith

sub_three : (m : ℕ) → suc (suc (suc m)) - 3 ≡ m
sub_three m = omega arith

number_line-take :
    (t : Text) (old list_no : ℕ)
    → is_ordered_list_line t ≡ some old
    → number_line list_no (line_length t) t ≡ set_digit (b'0' + list_no) (take (line_length t) t)
unfolding is_ordered_list_line line_length number_line set_digit
number_line-take [] old list_no h = ground arith
number_line-take (a ∷ []) old list_no h = ground arith
number_line-take (a ∷ b ∷ []) old list_no h = ground arith
number_line-take (a ∷ b ∷ c ∷ r) old list_no h = ground (arith, sub_three (line_length r))

plain_line-take : (n : ℕ) (t : Text) → plain_line n t ≡ take n t
unfolding plain_line
plain_line-take zero t = refl
plain_line-take (suc n) t = ground arith

next_line-split : (t : Text) (n : ℕ) → ltb n (length t) ≡ true → next_line n t ≡ drop (suc n) t
unfolding next_line
next_line-split t n h = rw (h, add-one)

next_line-end : (t : Text) (n : ℕ) → ltb n (length t) ≡ false → next_line n t ≡ []
unfolding next_line
next_line-end t n h = rw h (drop-length_le n t (ltb→le _ _ h))

length-next_line : (c n : ℕ) (r : Text) → length (next_line n (c ∷ r)) ≤ length r
unfolding next_line
length-next_line c n r = ground (arith, length-drop n (c ∷ r), length-drop (n + 1) (c ∷ r))

next_list_no-min : (k : ℕ) → next_list_no (min (k + 1) 9) ≡ min (k + 1 + 1) 9
unfolding next_list_no
next_list_no-min k = ground arith

pub split_lines-ne_nil : (t : Text) → split_lines t ≢ []
split_lines-ne_nil t = rw split_lines-cut (ground arith)

pub join_lines-cons :
    (x : Text) (ls : List Text) → ls ≢ [] → join_lines (x ∷ ls) ≡ x ++ (newline ∷ join_lines ls)
unfolding join_lines
join_lines-cons x [] h = absurd (h refl)
join_lines-cons x (m ∷ ls) h = refl

pub number_items-ne_nil : (k : ℕ) (t : Text) → number_items k (split_lines t) ≢ []
unfolding number_items
number_items-ne_nil k t = rw split_lines-cut (ground arith)

-- What follows a line, in the loop and in the description.
join_lines-rest :
    (x t : Text) (n k : ℕ)
    → join_lines (x ∷ number_items k (rest_lines t n))
      ≡ x ++ (end_line n t ++ join_lines (number_items k (split_lines (next_line n t))))
unfolding rest_lines end_line
join_lines-rest x t n k = elim (Bool-cases (ltb n (length t))) [
  | inl e ↦ rw (e, next_line-split t n e) (join_lines-cons x _ (number_items-ne_nil k _))
  | inr e ↦
      rw (e, next_line-end t n e)
        (unfold join_lines number_items split_lines is_item in sym (append-nil x))
]

-- One round on the side of the description.
lines-plain :
    (t : Text) (k : ℕ)
    → is_ordered_list_line t ≡ none
    → join_lines (number_items k (split_lines t))
      ≡ take (line_length t) t
        ++ (end_line (line_length t) t
            ++ join_lines (number_items 0 (split_lines (next_line (line_length t) t))))
unfolding number_items
lines-plain t k h =
    rw (split_lines-cut t, item_missed t h) (join_lines-rest (take (line_length t) t) t _ 0)

lines-item :
    (t : Text) (k old : ℕ)
    → is_ordered_list_line t ≡ some old
    → join_lines (number_items k (split_lines t))
      ≡ set_digit (b'0' + min (k + 1) 9) (take (line_length t) t)
        ++ (end_line (line_length t) t
            ++ join_lines (number_items (k + 1) (split_lines (next_line (line_length t) t))))
unfolding number_items
lines-item t k old h =
    rw (split_lines-cut t, (item_found t old h).0)
      (join_lines-rest (set_digit _ (take (line_length t) t)) t _ (k + 1))

renumber_loop-lines :
    (fuel : ℕ) (t : Text) (list_no k : ℕ) (block : Bool)
    → length t ≤ fuel
    → (if block then list_no else 1) ≡ min (k + 1) 9
    → renumber_loop fuel t list_no block ≡ join_lines (number_items k (split_lines t))
unfolding renumber_loop
renumber_loop-lines zero [] list_no k block h e =
    unfold join_lines number_items split_lines is_item in refl
renumber_loop-lines zero (c ∷ r) list_no k block h e = absurd (omega arith)
renumber_loop-lines (suc fuel) [] list_no k block h e =
    unfold join_lines number_items split_lines is_item in refl
renumber_loop-lines (suc fuel) (c ∷ r) list_no k block h e =
    let t = c ∷ r in
    let n = line_length (c ∷ r) in
    let shorter : length (next_line n t) ≤ fuel = omega (arith, length-next_line c n r) in
    elim (Option-cases (is_ordered_list_line t)) [
      | inl plain ↦
          rw
            (
              plain,
              renumber_loop,
              plain_line-take,
              renumber_loop-lines fuel (next_line n t) list_no 0 false shorter refl,
            )
            (sym (lines-plain t k plain))
      | inr (old, item) ↦
          rw
            (
              item,
              renumber_loop,
              e,
              number_line-take t old _ item,
              renumber_loop-lines fuel (next_line n t) (next_list_no (min (k + 1) 9)) (k + 1) true
                  shorter (next_list_no-min k),
            )
            (sym (lines-item t k old item))
    ]

-- The text comes out with every line that starts with a digit, a full stop and a space numbered by
-- its place in the run of such lines that it stands in, 9 from the ninth on; all other lines, and
-- the rest of the numbered ones, as they were.
pub renumber-eq-lines :
    (text : Text) → renumber_ordered_lists text ≡ join_lines (number_items 0 (split_lines text))
unfolding renumber_ordered_lists
renumber-eq-lines text = renumber_loop-lines (length text) text 1 0 false (omega arith) refl
