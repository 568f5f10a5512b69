-- ===== src/ClientDemo/Process.antt =====
-- The whole of `main` in src/client_demo.c, but for the greetings that it prints.
use collab_markdown_server.Base.{ℕ, Bool, Option, none, some, List, [], Text, codes}
use collab_markdown_server.System.{System}
use collab_markdown_server.Files.{o_rdonly, o_wronly, Files}
use collab_markdown_server.Fifos.Open.{Modes}
use collab_markdown_server.Fifos.Demo.{open_demo}
use collab_markdown_server.ClientDemo.{Progress, running, left, died, Copying, copy_loop}

abbrev demo_client_modes : Modes
demo_client_modes = record {
  c2s_mode = o_wronly;
  s2c_mode = o_rdonly;
  c2s_stream = codes "w";
  s2c_stream = codes "r";
}

abbrev copying_start : Text → Text → Copying
copying_start input incoming = record { input = input; incoming = incoming; sent = []; shown = [] }

module _ {W : Type 0} (sys : System W) (fs : Files W) where
  -- What `main` does at the end, where it gets there.
  abbrev close_copying : ℕ → ℕ → Progress → W → W
  close_copying c2s s2c running w = w
  close_copying c2s s2c left w = sys.fclose s2c (sys.fclose c2s w)
  close_copying c2s s2c died w = w

  -- `none` where the program dies before its loop.
  abbrev copy_between :
      List (Option (Bool × Bool))
      → Text
      → Text
      → Option (ℕ × ℕ) × W
      → Option (Progress × Copying) × W
  copy_between rounds input incoming (none, w) = (none, w)
  copy_between rounds input incoming (some (c2s, s2c), w) =
      let end = copy_loop rounds (copying_start input incoming) in
      (some end, close_copying c2s s2c end.0 (sys.fprintf end.1.sent c2s w))

  unfoldable demo_client :
      List (Option (Bool × Bool)) → Text → Text → W → Option (Progress × Copying) × W
  demo_client rounds input incoming w =
      copy_between rounds input incoming (open_demo sys fs demo_client_modes w)
