-- ===== src/Client/Welcome.antt =====
-- What the server writes to a client that it welcomes is what the client reads.
use collab_markdown_server.Base.{
  last_byte, List, Bool, ℕ, zero, suc, ◌+◌, ◌-◌, ◌≤◌, ◌<◌, ◌≡◌, refl, ap, ◌∙◌, true, some, [], ◌∷◌,
  ◌++◌, append_assoc, arith, ltb, lt→ltb, le→ltb, lt→==, if◌then◌else◌, length, length-append, take,
  drop, take-append, drop-append, Text, codes, word_mod,
}
use collab_markdown_server.Libc.Strings.{starts_with}
use collab_markdown_server.Libc.Numbers.{strtoul, decimal}
use collab_markdown_server.Libc.Numbers.RoundTrip.{
  decimal-length, are_digits, decimal-are_digits, strtoul-decimal,
}
use collab_markdown_server.Libc.Streams.{fgets, is_line, fgets-line}
use collab_markdown_server.Libc.Strings.Tokens.{is_token}
use collab_markdown_server.Markdown.Document.{Heap}
use collab_markdown_server.Command.{UserRole, role_read, role_write}
use collab_markdown_server.ServerCore.{ServerCore, server_core_flatten_doc}
use collab_markdown_server.Server.{role_to_wire_string, initial_document}
use collab_markdown_server.Client.{
  line_buf_size, strip_newline, read_line, read_rest, read_exact, connected, read_version,
  read_length, read_body, handshake, session_start, client_loop, connection_text, finished,
  after_handshake, client_main,
}

are_digits-is_line : (s : Text) → are_digits s ≡ true → is_line s ≡ true
unfolding are_digits is_token
are_digits-is_line [] h = refl
are_digits-is_line (c ∷ s) h = ground (arith, are_digits-is_line s)

pub decimal-is_line : (n : ℕ) → is_line (decimal n) ≡ true
decimal-is_line n = are_digits-is_line (decimal n) (decimal-are_digits n)

pub strip_newline-line : (l : Text) → strip_newline (l ++ (b'\n' ∷ [])) ≡ l
strip_newline-line l =
    let n : length (l ++ (b'\n' ∷ [])) ≡ suc (length l) =
      omega (arith, length-append l (b'\n' ∷ [])) in
    let m : suc (length l) - 1 ≡ length l = omega arith in
    rw (n, lt→ltb 0 (suc (length l)) (omega arith), m, last_byte l b'\n')
      (take-append (length l) l (b'\n' ∷ []) refl)

read_line-line :
    (l rest : Text)
    → is_line l ≡ true
    → length l < line_buf_size - 1
    → read_line line_buf_size (l ++ (b'\n' ∷ rest)) ≡ some (l ++ (b'\n' ∷ []), rest)
read_line-line [] rest h short = ap some (fgets-line (line_buf_size - 1) [] rest h short)
read_line-line (c ∷ l) rest h short = ap some (fgets-line (line_buf_size - 1) (c ∷ l) rest h short)

number-line :
    (n : ℕ) (rest : Text)
    → n < word_mod
    → read_line line_buf_size (decimal n ++ (b'\n' ∷ rest)) ≡ some (decimal n ++ (b'\n' ∷ []), rest)
number-line n rest room =
    read_line-line (decimal n) rest (decimal-is_line n) (omega (arith, decimal-length n room))

line-number : (n : ℕ) → n < word_mod → (strtoul (strip_newline (decimal n ++ (b'\n' ∷ [])))).0 ≡ n
line-number n room = rw (strip_newline-line (decimal n), strtoul-decimal n room) refl

-- A round that reads something, and the end of the loop.
read_rest-round :
    (fuel len : ℕ) (buf s got later : Text)
    → length buf < len
    → take (len - length buf) s ≡ got
    → drop (len - length buf) s ≡ later
    → 0 < length got
    → read_rest (suc fuel) len buf s ≡ read_rest fuel len (buf ++ got) later
unfolding read_rest
read_rest-round fuel len buf s got later short taken dropped some_byte =
    rw (read_rest, taken, dropped, lt→ltb (length buf) len short, lt→== 0 (length got) some_byte)
      refl

read_rest-done :
    (fuel len : ℕ) (buf s : Text)
    → len ≤ length buf
    → read_rest (suc fuel) len buf s ≡ some (buf, s)
unfolding read_rest
read_rest-done fuel len buf s full = rw (read_rest, le→ltb (length buf) len full) refl

-- All bytes come with the first fread, and the second round finds that they are there.
read_exact-append :
    (n : ℕ) (t later : Text) → n ≡ length t → 0 < n → read_exact n (t ++ later) ≡ some (t, later)
read_exact-append zero t later e h = elim h [ ]
read_exact-append (suc n) t later e h =
    let all : suc n - 0 ≡ length t = omega arith in
    read_rest-round (suc n) (suc n) [] (t ++ later) t later (omega arith)
      (take-append (suc n - 0) t later all) (drop-append (suc n - 0) t later all) (omega arith)
    ∙ read_rest-done n (suc n) t later (omega arith)

module _ (role : Text) (version : ℕ) where
  -- The document, where its length was announced.
  read-body :
      (t later : Text)
      → read_body role version
          (if ltb 0 (length t) then read_exact (length t) (t ++ later) else some ([], t ++ later))
        ≡ connected role version t later
  read-body [] later = refl
  read-body (c ∷ t) later =
      rw
        (
          lt→ltb 0 (suc (length t)) (omega arith),
          read_exact-append (suc (length t)) (c ∷ t) later refl (omega arith),
        )
        refl

  read-length :
      (t later : Text)
      → length t < word_mod
      → read_length role version
          (read_line line_buf_size (decimal (length t) ++ (b'\n' ∷ (t ++ later))))
        ≡ connected role version t later
  read-length t later room =
      rw (number-line (length t) (t ++ later) room, line-number (length t) room) (read-body t later)

read-version :
    (role : Text) (version : ℕ) (t later : Text)
    → version < word_mod
    → length t < word_mod
    → read_version role (
        read_line line_buf_size
          (decimal version ++ (b'\n' ∷ (decimal (length t) ++ (b'\n' ∷ (t ++ later))))))
      ≡ connected role version t later
read-version role version t later fits room =
    rw
      (
        number-line version (decimal (length t) ++ (b'\n' ∷ (t ++ later))) fits,
        line-number version fits,
      )
      (read-length role version t later room)

read-role :
    (role : UserRole) (rest : Text)
    → handshake (role_to_wire_string role ++ (b'\n' ∷ rest))
      ≡ read_version (role_to_wire_string role) (read_line line_buf_size rest)
unfolding handshake role_to_wire_string fgets starts_with
read-role role_read rest = refl
read-role role_write rest = refl

abbrev welcome : Text → Text → Text → Text → Text
welcome role v n t = role ++ (codes "\n" ++ (v ++ (codes "\n" ++ (n ++ (codes "\n" ++ t)))))

welcome-append :
    (role v n t later : Text)
    → welcome role v n t ++ later ≡ role ++ (b'\n' ∷ (v ++ (b'\n' ∷ (n ++ (b'\n' ∷ (t ++ later))))))
welcome-append role v n t later = simp (append_assoc)

-- The welcome is read whole, and nothing behind it.
pub handshake-welcome :
    (role : UserRole) (version : ℕ) (t later : Text)
    → version < word_mod
    → length t + 1 < word_mod
    → handshake
        (welcome (role_to_wire_string role) (decimal version) (decimal (length t)) t ++ later)
      ≡ connected (role_to_wire_string role) version t later
handshake-welcome role version t later fits room =
    rw (welcome-append (role_to_wire_string role) (decimal version) (decimal (length t)) t later) (
      read-role role _ ∙ read-version (role_to_wire_string role) version t later fits (omega arith))

-- A client that the server welcomes with the text of its document connects with the role, the
-- version and the text that the server meant, and goes on from there in its loop: what the server
-- writes after the welcome is what the loop still has to read. The version and the text must be
-- below 2^64 and 2^64 - 1 bytes.
pub handshake-initial_document :
    (rounds : List (Bool × Bool)) (username input : Text) (role : UserRole) (core : ServerCore)
    (h : Heap) (t later : Text)
    → core.current_version < word_mod
    → length t + 1 < word_mod
    → server_core_flatten_doc core h ≡ some t
    → (message : Text) × (initial_document role core h ≡ some message)
      × (handshake (message ++ later)
          ≡ connected (role_to_wire_string role) core.current_version t later)
      × (client_main rounds username input (message ++ later)
          ≡ finished (
              client_loop rounds (
                session_start username
                  (connection_text username (role_to_wire_string role) core.current_version t)
                  input
                  later)))
unfolding initial_document client_main
handshake-initial_document rounds username input role core h t later fits room flat =
    let message =
      welcome (role_to_wire_string role) (decimal core.current_version) (decimal (length t)) t in
    let read : handshake (message ++ later)
        ≡ connected (role_to_wire_string role) core.current_version t later =
      handshake-welcome role core.current_version t later fits room in
    (
      message,
      rw (initial_document, flat) refl,
      read,
      ap (after_handshake rounds username input) read,
    )
