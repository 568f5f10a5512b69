-- ===== src/Markdown/Renumber/Lines.antt =====
-- The independent description of `renumber_ordered_lists`: over the lines of the text.
use collab_markdown_server.Base.{
  ℕ, ◌+◌, Bool, false, List, [], ◌∷◌, ◌++◌, ◌==◌, if◌then◌else◌, min, Text, ◌&&◌,
}
use collab_markdown_server.Markdown.Renumber.{newline, is_digit}

abbrev pub first_line : ℕ → List Text → List Text
first_line c [] = (c ∷ []) ∷ []
first_line c (l ∷ ls) = (c ∷ l) ∷ ls

-- The text cut at its newlines; the last line has none.
unfoldable pub split_lines : Text → List Text
split_lines [] = [] ∷ []
split_lines (c ∷ r) = if c == newline then [] ∷ split_lines r else first_line c (split_lines r)

unfoldable pub join_lines : List Text → Text
join_lines [] = []
join_lines (l ∷ []) = l
join_lines (l ∷ (m ∷ ls)) = l ++ (newline ∷ join_lines (m ∷ ls))

-- A digit, a full stop and a space start an item.
unfoldable pub is_item : Text → Bool
is_item (d ∷ p ∷ s ∷ r) = is_digit d && (p == b'.' && s == b' ')
is_item _ = false

unfoldable pub set_digit : ℕ → Text → Text
set_digit d [] = []
set_digit d (c ∷ r) = d ∷ r

-- `k` items stand directly above: the next one has number k + 1, and 9 from the ninth on.
unfoldable pub number_items : ℕ → List Text → List Text
number_items k [] = []
number_items k (l ∷ ls) =
    if is_item l
    then set_digit (b'0' + min (k + 1) 9) l ∷ number_items (k + 1) ls
    else l ∷ number_items 0 ls
