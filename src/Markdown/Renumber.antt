-- ===== src/Markdown/Renumber.antt =====
-- `is_ordered_list_line` and `renumber_ordered_lists` of src/markdown.c. A `char *` into the text is
-- the rest of the text from there on, so a line is read together with what follows it.
pub mod Lines
pub mod Laws
pub mod Idempotent
use collab_markdown_server.Base.{
  ℕ, zero, suc, ◌+◌, ◌-◌, Bool, true, false, ◌&&◌, Option, none, some, List, [], ◌∷◌, ◌++◌, ltb,
  leb, ◌==◌, if◌then◌else◌, length, take, drop, Text, byte_at,
}

abbrev pub newline : ℕ
newline = 10

abbrev pub is_digit : ℕ → Bool
is_digit c = leb b'0' c && leb c b'9'

-- `some number` where the function returns 1; `number` is what it stores through the pointer.
unfoldable pub is_ordered_list_line : Text → Option ℕ
is_ordered_list_line line =
    if is_digit (byte_at line 0)
    then (if byte_at line 1 == b'.' && byte_at line 2 == b' '
        then some (byte_at line 0 - b'0')
        else none)
    else none

-- The inner loop: the bytes before the next newline, or before the end.
unfoldable pub line_length : Text → ℕ
line_length [] = 0
line_length (c ∷ r) = if c == newline then 0 else suc (line_length r)

-- The bytes that one round writes for the line itself.
number_line : ℕ → ℕ → Text → Text
number_line list_no n line =
    (b'0' + list_no) ∷ b'.' ∷ b' ' ∷ (if ltb 3 n then take (n - 3) (drop 3 line) else [])

plain_line : ℕ → Text → Text
plain_line n line = if ltb 0 n then take n line else []

-- `current_list_no++`, held at 9
next_list_no : ℕ → ℕ
next_list_no list_no = if ltb 9 (list_no + 1) then 9 else list_no + 1

-- `i = line_end + 1` after a newline, which is written, and `i = line_end` at the end.
next_line : ℕ → Text → Text
next_line n line = drop (if ltb n (length line) then n + 1 else n) line

end_line : ℕ → Text → Text
end_line n line = if ltb n (length line) then newline ∷ [] else []

-- The outer loop: what it writes from here on. Its state is the text from `i` on,
-- `current_list_no` and `in_ordered_block`; the first argument is fuel.
renumber_loop : ℕ → Text → ℕ → Bool → Text
renumber_loop zero line list_no block = []
renumber_loop (suc fuel) [] list_no block = []
renumber_loop (suc fuel) (c ∷ r) list_no block =
    let line = c ∷ r in
    let n = line_length line in
    elim (is_ordered_list_line line) [
      | some old ↦
          let current = if block then list_no else 1 in
          number_line current n line
          ++ (end_line n line ++ renumber_loop fuel (next_line n line) (next_list_no current) true)
      | none ↦
          plain_line n line
          ++ (end_line n line ++ renumber_loop fuel (next_line n line) list_no false)
    ]

-- One round for each byte is enough, as every round passes at least one.
unfoldable pub renumber_ordered_lists : Text → Text
unfolding renumber_loop is_ordered_list_line line_length number_line plain_line next_list_no
    next_line end_line
renumber_ordered_lists text = renumber_loop (length text) text 1 false
