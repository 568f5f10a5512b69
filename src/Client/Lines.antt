-- ===== src/Client/Lines.antt =====
-- The lines that the user types are the lines that the server handles: both sides cut them with the
-- same buffers.
use collab_markdown_server.Base.{
  ℕ, ◌-◌, ◌<◌, ◌≡◌, ◌≢◌, refl, ap, sym, ◌∙◌, Bool, Bool-cases, inl, inr, true, false, Option, some,
  List, [], ◌∷◌, ◌++◌, append_assoc, append-nil, arith, length, length-append, Text, if◌then◌else◌,
}
use collab_markdown_server.Libc.Streams.{
  fgets, fgets-append, fgets-ne_nil, fgets_again, is_line, fgets-line,
}
use collab_markdown_server.Server.Thread.Loop.{read_commands-fuel}
use collab_markdown_server.Server.Thread.{
  read_commands, command_lines, is_disconnect, username_buf_size, read_line_strip_newline,
  roles_path, arrival, authenticated,
}
use collab_markdown_server.Auth.{auth_lookup_role}
use collab_markdown_server.Client.Welcome.{strip_newline-line}
use collab_markdown_server.Client.{
  Session, behind_keyboard, client_round, client_loop, is_goodbye, session_start,
}

-- The first line of the commands, and the others behind it.
command_lines-fgets :
    (l rest : Text)
    → l ≢ []
    → fgets 511 (l ++ rest) ≡ (l, rest)
    → command_lines (l ++ rest) ≡ (if is_disconnect l then [] else l ∷ command_lines rest)
unfolding command_lines read_commands
command_lines-fgets [] rest some_byte cut = absurd (some_byte refl)
command_lines-fgets (c ∷ l) rest some_byte cut =
    rw
      (
        cut,
        read_commands-fuel (length (l ++ rest)) (length rest) rest
            (omega (arith, length-append l rest)) (omega arith),
      )
      refl

-- What has become of a text that was typed where `sent` had been sent already: some of its lines
-- were sent and can be read again as they were typed, and none is left out before the last one sent.
abbrev Forwarded : Text → Text → Session → Type 0
Forwarded typed sent c =
    (new : Text) × (later : List Text) × (c.sent ≡ sent ++ new)
    × (command_lines typed ≡ command_lines new ++ later)
    × (c.input ≡ [] → later ≡ [])
    × (typed ≡ [] → new ≡ [])

Forwarded-refl : (c : Session) → Forwarded c.input c.sent c
unfolding command_lines read_commands
Forwarded-refl c =
    ([], command_lines c.input, sym (append-nil c.sent), refl, λ e. ap command_lines e, λ e. refl)

module _ (b : ℕ) (typed sent : Text) where
  abbrev line : Text
  line = (fgets 511 (b ∷ typed)).0

  abbrev rest : Text
  rest = (fgets 511 (b ∷ typed)).1

  line-fgets : (more : Text) → (rest ≡ [] → more ≡ []) → fgets 511 (line ++ more) ≡ (line, more)
  line-fgets more last = fgets_again 511 (b ∷ typed) more last

  lines-line :
      (more : Text)
      → (rest ≡ [] → more ≡ [])
      → command_lines (line ++ more)
        ≡ (if is_disconnect line then [] else line ∷ command_lines more)
  lines-line more last =
      command_lines-fgets line more (fgets-ne_nil 510 b typed) (line-fgets more last)

  lines-typed :
      command_lines (b ∷ typed) ≡ (if is_disconnect line then [] else line ∷ command_lines rest)
  lines-typed = ap command_lines (sym (fgets-append 511 (b ∷ typed))) ∙ lines-line rest (λ e. e)

  -- The line that ends the session, and any other one.
  Forwarded-goodbye :
      (c : Session)
      → is_disconnect line ≡ true
      → c.sent ≡ sent ++ line
      → Forwarded (b ∷ typed) sent c
  Forwarded-goodbye c end e = (
    line ++ [],
    [],
    rw (append-nil line) e,
    rw (lines-typed, lines-line [] (λ e. refl), end) refl,
    λ e. refl,
    λ e. absurd cc,
  )

  Forwarded-line :
      (c : Session)
      → is_disconnect line ≡ false
      → Forwarded rest (sent ++ line) c
      → Forwarded (b ∷ typed) sent c
  Forwarded-line c other (new, later, e, lines, all, none_left) = (
    line ++ new,
    later,
    e ∙ append_assoc sent line new,
    rw (lines-typed, lines-line new none_left, other) (ap (line ∷◌) lines),
    all,
    λ e. absurd cc,
  )

-- The two programs look for the same two lines.
is_goodbye-is_disconnect : (l : Text) → is_goodbye l ≡ is_disconnect l
unfolding is_goodbye is_disconnect
is_goodbye-is_disconnect l = refl

abbrev session : Text → Text → Text → Text → Session
session input incoming sent printed = record {
  input = input;
  incoming = incoming;
  sent = sent;
  printed = printed;
}

module _ (rounds : List (Bool × Bool))
    (after : (c : Session) → Forwarded c.input c.sent (client_loop rounds c)) where
  abbrev continued : Bool × Session → Session
  continued (again, c) = if again then client_loop rounds c else c

  -- The server's branch neither reads what is typed nor sends anything.
  behind_keyboard-Forwarded :
      (server_ready : Bool) (input incoming sent printed : Text)
      → Forwarded input sent
          (continued (behind_keyboard server_ready (true, session input incoming sent printed)))
  behind_keyboard-Forwarded false input incoming sent printed =
      after (session input incoming sent printed)
  behind_keyboard-Forwarded true input [] sent printed =
      Forwarded-refl (session input [] sent printed)
  behind_keyboard-Forwarded true input (b ∷ s) sent printed = after (session input _ sent _)

  client_round-Forwarded :
      (keyboard_ready server_ready : Bool) (input incoming sent printed : Text)
      → Forwarded input sent (
          continued
            (client_round keyboard_ready server_ready (session input incoming sent printed)))
  unfolding client_round
  client_round-Forwarded false server_ready input incoming sent printed =
      behind_keyboard-Forwarded server_ready input incoming sent printed
  client_round-Forwarded true server_ready [] incoming sent printed =
      Forwarded-refl (session [] incoming sent printed)
  client_round-Forwarded true server_ready (b ∷ typed) incoming sent printed =
      let same = is_goodbye-is_disconnect (line b typed sent) in
      elim (Bool-cases (is_disconnect (line b typed sent))) [
        | inl end ↦
            rw (same, end)
              (Forwarded-goodbye b typed sent
                (session (rest b typed sent) incoming (sent ++ line b typed sent) printed) end refl)
        | inr other ↦
            rw (same, other)
              (Forwarded-line b typed sent
                (continued (
                  behind_keyboard server_ready (
                    true,
                    session (rest b typed sent) incoming (sent ++ line b typed sent) printed,
                  )))
                other
                (behind_keyboard-Forwarded server_ready (rest b typed sent) incoming
                  (sent ++ line b typed sent) printed))
      ]

client_loop-Forwarded :
    (rounds : List (Bool × Bool)) (c : Session) → Forwarded c.input c.sent (client_loop rounds c)
unfolding client_loop
client_loop-Forwarded [] c = Forwarded-refl c
client_loop-Forwarded ((keyboard_ready, server_ready) ∷ rounds) c =
    client_round-Forwarded rounds (client_loop-Forwarded rounds) keyboard_ready server_ready c.input
      c.incoming c.sent c.printed

read_line_strip_newline-line :
    (l behind : Text)
    → is_line l ≡ true
    → length l < username_buf_size - 1
    → read_line_strip_newline username_buf_size (l ++ (b'\n' ∷ behind)) ≡ (some l, behind)
unfolding read_line_strip_newline fgets
read_line_strip_newline-line [] behind h short = refl
read_line_strip_newline-line (c ∷ l) behind h short =
    rw (fgets-line (username_buf_size - 1) (c ∷ l) behind h short)
      (ap (λ (name : Text). (some name, behind)) (strip_newline-line (c ∷ l)))

-- Whatever order `select` finds the keyboard and the server ready in, the server gets the username
-- of the client as it was given, where that is a line of less than 127 bytes, and then its command
-- loop reads the lines that the loop for the typed text itself reads, in order, none left out: all
-- of them once all input is read, and otherwise the first ones.
pub client_loop-arrival :
    (files : Text → Option Text) (username shown input incoming : Text)
    (rounds : List (Bool × Bool))
    → is_line username ≡ true
    → length username < username_buf_size - 1
    → (new : Text) × (later : List Text) × (arrival files
          (client_loop rounds (session_start username shown input incoming)).sent
        ≡ authenticated username new (auth_lookup_role files (some roles_path) (some username)))
      × (command_lines input ≡ command_lines new ++ later)
      × ((client_loop rounds (session_start username shown input incoming)).input ≡ [] → later ≡ [])
unfolding arrival
client_loop-arrival files username shown input incoming rounds h short =
    let (new, later, sent, lines, all, none_left) =
      client_loop-Forwarded rounds (session_start username shown input incoming) in
    (
      new,
      later,
      rw
          (
            sent,
            append_assoc username (b'\n' ∷ []) new,
            read_line_strip_newline-line username new h short,
          )
          refl,
      lines,
      all,
    )
