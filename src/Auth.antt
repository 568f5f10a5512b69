-- ===== src/Auth.antt =====
-- src/auth.c and include/auth.h: the role of a user, looked up in the roles file. `fopen` is the
-- parameter `files`: the contents of the files that it opens.
pub mod Lookup
pub mod Entries
use collab_markdown_server.Base.{
  ℕ, zero, suc, ◌+◌, ◌-◌, Bool, true, false, ◌&&◌, ◌||◌, Option, none, some, List, [], ◌∷◌, ◌==◌,
  if◌then◌else◌, length, Text, codes, byte_at,
}
use collab_markdown_server.Libc.Strings.{text_eq, is_space, skip_while, strtok}
use collab_markdown_server.Libc.Streams.{fgets}
use collab_markdown_server.Command.{UserRole, role_read, role_write}

pub data AuthResult : Type 0 where
  auth_ok auth_not_found auth_invalid_role auth_io_error : AuthResult

-- AUTH_LINE_BUF_SIZE
abbrev pub auth_line_buf_size : ℕ
auth_line_buf_size = 512

unfoldable pub trim_left : Text → Text
trim_left s = skip_while is_space s

abbrev pub is_empty : Text → Bool
is_empty [] = true
is_empty (c ∷ s) = false

-- A byte goes if it is a space and all behind it went.
unfoldable pub trim_right_in_place : Text → Text
trim_right_in_place [] = []
trim_right_in_place (c ∷ s) =
    let kept = trim_right_in_place s in if is_empty kept && is_space c then [] else c ∷ kept

unfoldable pub parse_role : Option Text → Option UserRole
parse_role none = none
parse_role (some role_s) =
    if text_eq role_s (codes "write")
    then some role_write
    else if text_eq role_s (codes "read")
    then some role_read
    else none

-- What is returned, and the role if one is stored through `out_role`.
abbrev pub Answer : Type 0
Answer = AuthResult × Option UserRole

abbrev pub role_answer : Option UserRole → Answer
role_answer none = (auth_invalid_role, none)
role_answer (some role) = (auth_ok, some role)

-- " \t"
abbrev pub is_blank : ℕ → Bool
is_blank c = c == b' ' || c == b'\t'

-- The three calls of `strtok`, each with the static place in the text that the one before has left: no
-- other thread is taken to call `strtok` in between, although nothing in the code keeps it from that.
abbrev pub three_words : Text → Option Text × Option Text × Option Text
three_words p =
    let (username_s, s1) = strtok is_blank p in
    let (role_s, s2) = strtok is_blank s1 in
    let (extra, s3) = strtok is_blank s2 in (username_s, role_s, extra)

-- `none` where the loop goes on.
abbrev words_answer : Text → Option Text × Option Text × Option Text → Option Answer
words_answer username (none, role_s, extra) = none
words_answer username (some username_s, none, extra) = none
words_answer username (some username_s, some role_s, some extra) = none
words_answer username (some username_s, some role_s, none) =
    if text_eq username_s username then some (role_answer (parse_role (some role_s))) else none

-- The body of the loop for one line.
unfoldable pub line_answer : Text → Text → Option Answer
line_answer username line =
    let p = trim_left (trim_right_in_place line) in
    if is_empty p || byte_at p 0 == b'#' then none else words_answer username (three_words p)

-- The answer of a line, or that of the lines behind it.
abbrev pub first_of : Option Answer → Answer → Answer
first_of none behind = behind
first_of (some answer) behind = answer

-- The loop, on fuel.
unfoldable pub lookup_lines : ℕ → Text → Text → Answer
lookup_lines zero username content = (auth_not_found, none)
lookup_lines (suc fuel) username [] = (auth_not_found, none)
lookup_lines (suc fuel) username (c ∷ s) =
    let (line, rest) = fgets (auth_line_buf_size - 1) (c ∷ s) in
    first_of (line_answer username line) (lookup_lines fuel username rest)

-- One round for each byte is enough, as every line has one.
unfoldable pub auth_lookup_role : (Text → Option Text) → Option Text → Option Text → Answer
auth_lookup_role files none username = (auth_io_error, none)
auth_lookup_role files (some roles_path) none = (auth_io_error, none)
auth_lookup_role files (some roles_path) (some username) = elim (files roles_path) [
  | none ↦ (auth_io_error, none)
  | some content ↦ lookup_lines (length content) username content
]

unfoldable auth_result_to_string : AuthResult → Text
auth_result_to_string auth_ok = codes "AUTH_OK"
auth_result_to_string auth_not_found = codes "AUTH_NOT_FOUND"
auth_result_to_string auth_invalid_role = codes "AUTH_INVALID_ROLE"
auth_result_to_string auth_io_error = codes "AUTH_IO_ERROR"
