-- ===== src/Client/Process.antt =====
-- The whole of `main` in src/client.c.
use collab_markdown_server.Base.{ℕ, Bool, false, Option, none, some, List, [], ◌∷◌, Text}
use collab_markdown_server.Libc.Numbers.Signed.{ℤ}
use collab_markdown_server.System.{System}
use collab_markdown_server.Files.{Files}
use collab_markdown_server.Arguments.{parse_pid}
use collab_markdown_server.Client.{Finished, client_main}
use collab_markdown_server.Client.Opening.{connect_server}

-- An exit before anything is sent.
abbrev not_connected : Finished
not_connected = record { success = false; sent = []; printed = [] }

module _ {W : Type 0} (sys : System W) (fs : Files W) where
  -- What is sent is written to the stream piece by piece.
  abbrev talk : List (Bool × Bool) → Text → Text → Text → Option (ℕ × ℕ) × W → Finished × W
  talk rounds username input incoming (none, w) = (not_connected, w)
  talk rounds username input incoming (some (c2s, s2c), w) =
      let end = client_main rounds username input incoming in
      (end, sys.fclose s2c (sys.fclose c2s (sys.fprintf end.sent c2s w)))

  abbrev with_pid : List (Bool × Bool) → Text → Text → Text → W → Option ℤ → Finished × W
  with_pid rounds username input incoming w none = (not_connected, w)
  with_pid rounds username input incoming w (some server_pid) =
      talk rounds username input incoming (connect_server sys fs server_pid w)

  -- `argv` with the name of the program.
  unfoldable pub client_program : List (Bool × Bool) → List Text → Text → Text → W → Finished × W
  client_program rounds (program ∷ pid ∷ username ∷ []) input incoming w =
      with_pid rounds username input incoming w (parse_pid (some pid))
  client_program rounds _ input incoming w = (not_connected, w)
