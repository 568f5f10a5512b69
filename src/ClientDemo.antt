-- ===== src/ClientDemo.antt =====
-- src/client_demo.c from the open FIFOs on: it copies lines from the keyboard to the demo server, and
-- from there to the terminal.
pub mod Process
use collab_markdown_server.Base.{
  ℕ, ◌-◌, Bool, true, false, Option, none, some, List, [], ◌∷◌, ◌++◌, if◌then◌else◌, Text, codes,
}
use collab_markdown_server.Libc.Strings.{text_eq}
use collab_markdown_server.Libc.Streams.{fgets}

abbrev pub line_buf_size : ℕ
line_buf_size = 512

-- What is still to come from the keyboard and from the server, and what went to the server and to the
-- terminal.
pub record Copying : Type 0 where
  pub input : Text
  pub incoming : Text
  pub sent : Text
  pub shown : Text

-- The branch for the keyboard; `false` is the break. QUIT does not end the loop.
abbrev copy_input : Text → Text → Text → Text → Bool × Copying
copy_input [] incoming sent shown =
    (false, record { input = []; incoming = incoming; sent = sent; shown = shown })
copy_input (b ∷ typed) incoming sent shown =
    let (line, rest) = fgets (line_buf_size - 1) (b ∷ typed) in
    (true, record { input = rest; incoming = incoming; sent = sent ++ line; shown = shown })

-- The branch for the server.
abbrev copy_output : Text → Text → Text → Text → Bool × Copying
copy_output input [] sent shown =
    (false, record { input = input; incoming = []; sent = sent; shown = shown })
copy_output input (b ∷ s) sent shown =
    let (line, rest) = fgets (line_buf_size - 1) (b ∷ s) in
    (
      if text_eq line (codes "SERVER_SHUTDOWN\n") then false else true,
      record { input = input; incoming = rest; sent = sent; shown = shown ++ line },
    )

abbrev behind_input : Bool → Bool × Copying → Bool × Copying
behind_input server_ready (false, c) = (false, c)
behind_input server_ready (true, c) =
    if server_ready then copy_output c.input c.incoming c.sent c.shown else (true, c)

-- One round: `select` says which of the two descriptors is ready.
unfoldable pub copy_round : Bool → Bool → Copying → Bool × Copying
copy_round keyboard_ready server_ready c =
    behind_input server_ready
      (if keyboard_ready then copy_input c.input c.incoming c.sent c.shown else (true, c))

-- Where the program is behind its rounds: it goes on, it has left the loop by a break, or it has died
-- as `select` failed.
pub data Progress : Type 0 where
  running : Progress
  left : Progress
  died : Progress

-- What `select` answers, round by round; `none` where it fails.
unfoldable pub copy_loop : List (Option (Bool × Bool)) → Copying → Progress × Copying
copy_loop [] c = (running, c)
copy_loop (none ∷ rounds) c = (died, c)
copy_loop (some (keyboard_ready, server_ready) ∷ rounds) c =
    let (again, c') = copy_round keyboard_ready server_ready c in
    let after = copy_loop rounds c' in if again then after else (left, c')
