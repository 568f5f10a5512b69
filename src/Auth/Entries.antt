-- ===== src/Auth/Entries.antt =====
-- The lookup in a file of entries.
use collab_markdown_server.Base.{
  ℕ, ◌+◌, ◌≤◌, ◌<◌, ◌≡◌, ◌≢◌, refl, ◌∙◌, inl, inr, Bool, true, false, ◌||◌, Option, none, some,
  List, [], ◌∷◌, ◌++◌, arith, ◌==◌, if◌then◌else◌, length, length-append, Text, codes, byte_at,
  Bool-cases,
}
use collab_markdown_server.Libc.Strings.{text_eq, is_space, skip_while}
use collab_markdown_server.Libc.Strings.Tokens.{is_token, strtok-append, strtok-all, strtok-nil}
use collab_markdown_server.Command.{UserRole, role_read, role_write}
use collab_markdown_server.Auth.{
  Answer, auth_ok, auth_not_found, auth_line_buf_size, trim_left, is_empty, trim_right_in_place,
  parse_role, role_answer, is_blank, three_words, line_answer, auth_lookup_role,
}
use collab_markdown_server.Auth.Lookup.{AreShort, IsFileOf, first_answer, lookup-first_answer}

-- A line of a roles file.
pub record Entry : Type 0 where
  pub user : Text
  pub role : UserRole

abbrev role_word : UserRole → Text
role_word role_read = codes "read"
role_word role_write = codes "write"

abbrev entry_line : Entry → Text
entry_line e = e.user ++ (b' ' ∷ role_word e.role)

-- A name without white space that is not empty and does not start with '#'.
abbrev IsName : Text → Type 0
IsName user = (user ≢ []) × (is_token is_space user ≡ true) × ((byte_at user 0 == b'#') ≡ false)

not_empty : (s t : Text) → t ≢ [] → is_empty (s ++ t) ≡ false
not_empty [] [] n = absurd (n refl)
not_empty [] (c ∷ t) n = refl
not_empty (c ∷ s) t n = refl

trim-append :
    (s t : Text) → t ≢ [] → trim_right_in_place t ≡ t → trim_right_in_place (s ++ t) ≡ s ++ t
unfolding trim_right_in_place
trim-append [] t n e = e
trim-append (c ∷ s) t n e = rw (trim-append s t n e, not_empty s t n) refl

trim-entry :
    (user : Text) (role : UserRole)
    → trim_right_in_place (user ++ (b' ' ∷ role_word role)) ≡ user ++ (b' ' ∷ role_word role)
unfolding trim_right_in_place
trim-entry user role_read = trim-append user _ (λ e. cc) refl
trim-entry user role_write = trim-append user _ (λ e. cc) refl

no_blank : (s : Text) → is_token is_space s ≡ true → is_token is_blank s ≡ true
unfolding is_token
no_blank [] h = refl
no_blank (c ∷ s) h = ground (arith, no_blank s)

trim_left-name : (user rest : Text) → IsName user → trim_left (user ++ rest) ≡ user ++ rest
unfolding trim_left skip_while is_token
trim_left-name [] rest (n, h, k) = absurd (n refl)
trim_left-name (c ∷ s) rest (n, h, k) = ground arith

three_words-entry :
    (user : Text) (role : UserRole)
    → IsName user
    → three_words (user ++ (b' ' ∷ role_word role)) ≡ (some user, some (role_word role), none)
unfolding is_token
three_words-entry user role_read (n, h, k) =
    rw
      (
        strtok-append is_blank user (codes "read") b' ' n (no_blank user h) refl,
        strtok-all is_blank (codes "read") (λ e. cc) refl,
        strtok-nil is_blank,
      )
      refl
three_words-entry user role_write (n, h, k) =
    rw
      (
        strtok-append is_blank user (codes "write") b' ' n (no_blank user h) refl,
        strtok-all is_blank (codes "write") (λ e. cc) refl,
        strtok-nil is_blank,
      )
      refl

parse-role_word : (role : UserRole) → parse_role (some (role_word role)) ≡ some role
unfolding parse_role text_eq
parse-role_word role_read = refl
parse-role_word role_write = refl

name-starts :
    (user rest : Text)
    → IsName user
    → (is_empty (user ++ rest) || byte_at (user ++ rest) 0 == b'#') ≡ false
name-starts [] rest (n, h, k) = absurd (n refl)
name-starts (c ∷ s) rest (n, h, k) = k

line_answer-entry :
    (username : Text) (e : Entry)
    → IsName e.user
    → line_answer username (entry_line e)
      ≡ (if text_eq e.user username then some (role_answer (some e.role)) else none)
unfolding line_answer
line_answer-entry username e name =
    rw
      (
        trim-entry e.user e.role,
        trim_left-name e.user (b' ' ∷ role_word e.role) name,
        name-starts e.user (b' ' ∷ role_word e.role) name,
        three_words-entry e.user e.role name,
        parse-role_word e.role,
      )
      refl

-- The role in the first entry of a user.
abbrev pub find_role : Text → List Entry → Option UserRole
find_role username [] = none
find_role username (e ∷ es) = if text_eq e.user username then some e.role else find_role username es

abbrev pub entry_lines : List Entry → List Text
entry_lines [] = []
entry_lines (e ∷ es) = entry_line e ∷ entry_lines es

abbrev AreEntries : List Entry → Type 0
AreEntries [] = Unit
AreEntries (e ∷ es) = (IsName e.user × (length e.user + 7 < auth_line_buf_size)) × AreEntries es

abbrev pub role_found : Option UserRole → Answer
role_found none = (auth_not_found, none)
role_found (some role) = (auth_ok, some role)

entries-first_answer :
    (username : Text) (es : List Entry)
    → AreEntries es
    → first_answer username (entry_lines es) ≡ role_found (find_role username es)
unfolding first_answer
entries-first_answer username [] ok = refl
entries-first_answer username (e ∷ es) ((name, short), ok) =
    elim (Bool-cases (text_eq e.user username)) [
      | inl same ↦ rw (line_answer-entry username e name, same) refl
      | inr differs ↦
          rw (line_answer-entry username e name, differs) (entries-first_answer username es ok)
    ]

no_newline : (s : Text) → is_token is_space s ≡ true → is_token (λ c. c == b'\n') s ≡ true
unfolding is_token
no_newline [] h = refl
no_newline (c ∷ s) h = ground (arith, no_newline s)

token-append :
    (is_delim : ℕ → Bool) (s t : Text)
    → is_token is_delim s ≡ true
    → is_token is_delim t ≡ true
    → is_token is_delim (s ++ t) ≡ true
unfolding is_token
token-append is_delim [] t h k = k
token-append is_delim (c ∷ s) t h k = ground (arith, token-append is_delim s t)

role_part : (role : UserRole) → is_token (λ c. c == b'\n') (b' ' ∷ role_word role) ≡ true
unfolding is_token
role_part role_read = refl
role_part role_write = refl

role_size : (role : UserRole) → length (role_word role) ≤ 5
role_size role_read = omega arith
role_size role_write = omega arith

entries-AreShort : (es : List Entry) → AreEntries es → AreShort (entry_lines es)
entries-AreShort [] ok = tt
entries-AreShort (e ∷ es) (((n, h, k), short), ok) = (
  (
    token-append _ e.user _ (no_newline e.user h) (role_part e.role),
    omega (arith, length-append e.user (b' ' ∷ role_word e.role), role_size e.role, short),
  ),
  entries-AreShort es ok,
)

-- In a roles file of entries, a name, a space and `read` or `write` on each line, the last line with a
-- newline or without, whose names have no white space, do not start with '#' and leave the line
-- shorter than the buffer, the lookup of a user stores the role of the first entry with that name, and
-- returns AUTH_NOT_FOUND if there is none.
pub lookup-find_role :
    (files : Text → Option Text) (path username content : Text) (es : List Entry)
    → AreEntries es
    → IsFileOf content (entry_lines es)
    → files path ≡ some content
    → auth_lookup_role files (some path) (some username) ≡ role_found (find_role username es)
lookup-find_role files path username content es ok is_file there =
    lookup-first_answer files path username content (entry_lines es) (entries-AreShort es ok)
      is_file there
    ∙ entries-first_answer username es ok
