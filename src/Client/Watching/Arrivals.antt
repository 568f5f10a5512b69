-- ===== src/Client/Watching/Arrivals.antt =====
-- What a thread of the server reads of its client are commands.
use collab_markdown_server.Base.{
  ℕ, zero, suc, ◌-◌, ◌<◌, ◌≡◌, refl, sym, subst, Bool-cases, inl, inr, true, ◌&&◌, Option, some, [],
  ◌∷◌, arith, length, take-length_le, ltb, ◌==◌, byte_at, Text,
}
use collab_markdown_server.Libc.Streams.{fgets, is_line}
use collab_markdown_server.Command.{UserRole}
use collab_markdown_server.Auth.{auth_ok, Answer, auth_lookup_role}
use collab_markdown_server.ServerCore.{copy_without_trailing_newline}
use collab_markdown_server.Server.Thread.{
  without_newline, read_line_strip_newline, roles_path, read_commands, command_lines, is_disconnect,
  Arrival, no_username, refused, admitted, authenticated, arrival, requests,
}
use collab_markdown_server.Client.Broadcasts.Rounds.{
  fgets-IsRead, fgets-length, copy-is_line, copy-length,
}
use collab_markdown_server.Client.Watching.{IsCommand, AreCommands}

without_newline-copy : (s : Text) → without_newline s ≡ copy_without_trailing_newline s
unfolding copy_without_trailing_newline
without_newline-copy s = elim (Bool-cases (ltb 0 (length s) && byte_at s (length s - 1) == b'\n')) [
  | inl end ↦ rw end refl
  | inr other ↦ rw other (sym (take-length_le (length s) s (omega arith)))
]

-- A name as `read_line_strip_newline` reads it.
abbrev IsName : Text → Type 0
IsName u = (is_line u ≡ true) × (length u < 128)

fgets-IsName : (s : Text) → IsName (without_newline (fgets 127 s).0)
fgets-IsName s =
    let line = (fgets 127 s).0 in
    rw (without_newline-copy line)
      (copy-is_line line (fgets-IsRead 127 s), omega (arith, copy-length line, fgets-length 127 s))

abbrev HasName : Arrival → Type 0
HasName no_username = Unit
HasName refused = Unit
HasName (admitted username role rest) = IsName username

authenticated-HasName :
    (username rest : Text) (a : Answer) → IsName username → HasName (authenticated username rest a)
authenticated-HasName username rest (auth_ok, some role) name = name
authenticated-HasName username rest _ name = tt

arrival-HasName : (files : Text → Option Text) (input : Text) → HasName (arrival files input)
unfolding arrival read_line_strip_newline
arrival-HasName files [] = tt
arrival-HasName files (c ∷ s) =
    authenticated-HasName (without_newline (fgets 127 (c ∷ s)).0) (fgets 127 (c ∷ s)).1
      (auth_lookup_role files (some roles_path) (some (without_newline (fgets 127 (c ∷ s)).0)))
      (fgets-IsName (c ∷ s))

read_commands-AreCommands :
    (username : Text) (role : UserRole) (fuel : ℕ) (s : Text)
    → IsName username
    → AreCommands (requests username role (read_commands fuel s))
unfolding read_commands AreCommands
read_commands-AreCommands username role zero s name = tt
read_commands-AreCommands username role (suc fuel) [] name = tt
read_commands-AreCommands username role (suc fuel) (c ∷ s) name =
    elim (Bool-cases (is_disconnect (fgets 511 (c ∷ s)).0)) [
      | inl end ↦ rw end tt
      | inr other ↦
          let now : IsCommand
              (record { user = username; role = role; line = (fgets 511 (c ∷ s)).0 }) =
            record { input = c ∷ s; read = refl; user = name.0; short = name.1 } in
          rw other (now, read_commands-AreCommands username role fuel (fgets 511 (c ∷ s)).1 name)
    ]

-- The commands of a client that is admitted are commands as its thread reads them, whatever it has
-- written to its FIFO.
pub arrival-AreCommands :
    (files : Text → Option Text) (input username : Text) (role : UserRole) (rest : Text)
    → arrival files input ≡ admitted username role rest
    → AreCommands (requests username role (command_lines rest))
unfolding command_lines
arrival-AreCommands files input username role rest e =
    read_commands-AreCommands username role (length rest) rest
      (subst HasName e (arrival-HasName files input))
