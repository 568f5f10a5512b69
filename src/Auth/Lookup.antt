-- ===== src/Auth/Lookup.antt =====
-- The lookup in a file of short lines.
use collab_markdown_server.Base.{
  ◌⊎◌, inl, inr, ℕ, zero, suc, ◌+◌, ◌-◌, ◌≤◌, ◌<◌, ◌≡◌, refl, ap, ◌∙◌, true, Option, none, some,
  List, [], ◌∷◌, ◌++◌, arith, ◌==◌, length, length-append, Text,
}
use collab_markdown_server.Libc.Strings.{skip_while}
use collab_markdown_server.Libc.Strings.Tokens.{is_token}
use collab_markdown_server.Libc.Streams.{fgets-line, fgets-last}
use collab_markdown_server.Auth.{
  Answer, auth_not_found, auth_line_buf_size, trim_left, trim_right_in_place, line_answer, first_of,
  lookup_lines, auth_lookup_role,
}

-- The lines of a file, each with its newline.
unfoldable pub file_of : List Text → Text
file_of [] = []
file_of (l ∷ ls) = l ++ (b'\n' ∷ file_of ls)

-- The same without the newline of the last line.
unfoldable pub unterminated : List Text → Text
unterminated [] = []
unterminated (l ∷ ls) =
    let behind = unterminated ls in elim ls [ [] ↦ l | l' ∷ more ↦ l ++ (b'\n' ∷ behind) ]

-- A file can end with or without a newline.
abbrev pub IsFileOf : Text → List Text → Type 0
IsFileOf content ls = (content ≡ file_of ls) ⊎ (content ≡ unterminated ls)

-- Without a newline, and with it no longer than the buffer holds.
abbrev pub AreShort : List Text → Type 0
AreShort [] = Unit
AreShort (l ∷ ls) =
    ((is_token (λ c. c == b'\n') l ≡ true) × (length l + 1 < auth_line_buf_size)) × AreShort ls

-- The answer of the first line that has one.
unfoldable pub first_answer : Text → List Text → Answer
first_answer username [] = (auth_not_found, none)
first_answer username (l ∷ ls) = first_of (line_answer username l) (first_answer username ls)

trim-newline : (l : Text) → trim_right_in_place (l ++ (b'\n' ∷ [])) ≡ trim_right_in_place l
unfolding trim_right_in_place
trim-newline [] = refl
trim-newline (c ∷ l) = rw (trim-newline l) refl

line_answer-newline :
    (username l : Text) → line_answer username (l ++ (b'\n' ∷ [])) ≡ line_answer username l
unfolding line_answer
line_answer-newline username l = rw (trim-newline l) refl

-- What one round does with the line that it reads.
abbrev after_line : ℕ → Text → Text × Text → Answer
after_line fuel username (line, rest) =
    first_of (line_answer username line) (lookup_lines fuel username rest)

lookup_lines-end :
    (fuel : ℕ) (username : Text) → lookup_lines fuel username [] ≡ (auth_not_found, none)
unfolding lookup_lines
lookup_lines-end zero username = refl
lookup_lines-end (suc fuel) username = refl

lookup_lines-step :
    (fuel : ℕ) (username l rest : Text)
    → is_token (λ c. c == b'\n') l ≡ true
    → length l + 1 < auth_line_buf_size
    → lookup_lines (suc fuel) username (l ++ (b'\n' ∷ rest))
      ≡ first_of (line_answer username l) (lookup_lines fuel username rest)
unfolding lookup_lines
lookup_lines-step fuel username [] rest h short =
    ap (after_line fuel username) (fgets-line (auth_line_buf_size - 1) [] rest h (omega arith))
    ∙ ap (λ (a : Option Answer). first_of a (lookup_lines fuel username rest))
        (line_answer-newline username [])
lookup_lines-step fuel username (c ∷ l) rest h short =
    ap (after_line fuel username) (fgets-line (auth_line_buf_size - 1) (c ∷ l) rest h (omega arith))
    ∙ ap (λ (a : Option Answer). first_of a (lookup_lines fuel username rest))
        (line_answer-newline username (c ∷ l))

lookup_lines-file :
    (fuel : ℕ) (username : Text) (ls : List Text)
    → AreShort ls
    → length (file_of ls) ≤ fuel
    → lookup_lines fuel username (file_of ls) ≡ first_answer username ls
unfolding lookup_lines file_of first_answer
lookup_lines-file zero username [] short enough = refl
lookup_lines-file (suc fuel) username [] short enough = refl
lookup_lines-file zero username (l ∷ ls) short enough =
    absurd (omega (arith, length-append l (b'\n' ∷ file_of ls), enough))
lookup_lines-file (suc fuel) username (l ∷ ls) (short, others) enough =
    lookup_lines-step fuel username l (file_of ls) short.0 short.1
    ∙ ap (first_of (line_answer username l)) (
        lookup_lines-file fuel username ls others
          (omega (arith, length-append l (b'\n' ∷ file_of ls), enough)))

lookup_lines-last :
    (fuel : ℕ) (username l : Text)
    → is_token (λ c. c == b'\n') l ≡ true
    → length l + 1 < auth_line_buf_size
    → length l ≤ fuel
    → lookup_lines fuel username l ≡ first_of (line_answer username l) (auth_not_found, none)
unfolding lookup_lines line_answer trim_right_in_place trim_left skip_while
lookup_lines-last zero username [] h short enough = refl
lookup_lines-last (suc fuel) username [] h short enough = refl
lookup_lines-last zero username (c ∷ l) h short enough = absurd (omega arith)
lookup_lines-last (suc fuel) username (c ∷ l) h short enough =
    ap (after_line fuel username) (fgets-last (auth_line_buf_size - 1) (c ∷ l) h (omega arith))
    ∙ ap (first_of (line_answer username (c ∷ l))) (lookup_lines-end fuel username)

lookup_lines-unterminated :
    (fuel : ℕ) (username : Text) (ls : List Text)
    → AreShort ls
    → length (unterminated ls) ≤ fuel
    → lookup_lines fuel username (unterminated ls) ≡ first_answer username ls
unfolding unterminated first_answer
lookup_lines-unterminated fuel username [] short enough = lookup_lines-end fuel username
lookup_lines-unterminated fuel username (l ∷ []) (short, others) enough =
    lookup_lines-last fuel username l short.0 short.1 enough
lookup_lines-unterminated zero username (l ∷ l' ∷ ls) short enough =
    absurd (omega (arith, length-append l (b'\n' ∷ unterminated (l' ∷ ls)), enough))
lookup_lines-unterminated (suc fuel) username (l ∷ l' ∷ ls) (short, others) enough =
    lookup_lines-step fuel username l (unterminated (l' ∷ ls)) short.0 short.1
    ∙ ap (first_of (line_answer username l)) (
        lookup_lines-unterminated fuel username (l' ∷ ls) others
          (omega (arith, length-append l (b'\n' ∷ unterminated (l' ∷ ls)), enough)))

-- In a file whose lines, with their newlines, are no longer than 511 bytes, the last one with a newline
-- or without, the lookup returns the answer of the first line that has one, and AUTH_NOT_FOUND if none
-- has.
pub lookup-first_answer :
    (files : Text → Option Text) (path username content : Text) (ls : List Text)
    → AreShort ls
    → IsFileOf content ls
    → files path ≡ some content
    → auth_lookup_role files (some path) (some username) ≡ first_answer username ls
unfolding auth_lookup_role
lookup-first_answer files path username content ls short (inl e) there =
    rw (there, auth_lookup_role, e)
      (lookup_lines-file (length (file_of ls)) username ls short (omega arith))
lookup-first_answer files path username content ls short (inr e) there =
    rw (there, auth_lookup_role, e)
      (lookup_lines-unterminated (length (unterminated ls)) username ls short (omega arith))
