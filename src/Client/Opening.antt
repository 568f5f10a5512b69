-- ===== src/Client/Opening.antt =====
-- How src/client.c connects to the server, up to the open FIFOs.
use collab_markdown_server.Base.{ℕ, if◌then◌else◌, Option, none, some, codes}
use collab_markdown_server.Libc.Numbers.Signed.{ℤ}
use collab_markdown_server.System.{System}
use collab_markdown_server.Files.{
  o_rdonly, o_wronly, Signal, connect_signal, ready_signal, other_signal, Files,
}
use collab_markdown_server.Fifos.{c2s_path, s2c_path}
use collab_markdown_server.Fifos.Open.{Modes, open_pair}

abbrev client_modes : Modes
client_modes = record {
  c2s_mode = o_wronly;
  s2c_mode = o_rdonly;
  c2s_stream = codes "w";
  s2c_stream = codes "r";
}

module _ {W : Type 0} (sys : System W) (fs : Files W) where
  -- The test of the signal that came, and the FIFOs of the own pid.
  abbrev behind_sigwait : Option Signal × W → Option (ℕ × ℕ) × W
  behind_sigwait (some ready_signal, w) =
      let pid = fs.getpid w in open_pair sys fs client_modes (c2s_path pid) (s2c_path pid) w
  behind_sigwait (some connect_signal, w) = (none, w)
  behind_sigwait (some other_signal, w) = (none, w)
  behind_sigwait (none, w) = (none, w)

  -- The streams, or `none` where the client fails.
  unfoldable pub connect_server : ℤ → W → Option (ℕ × ℕ) × W
  connect_server server_pid w =
      let (blocked, w1) = fs.sigprocmask w in
      let (sent, w2) = fs.kill server_pid connect_signal w1 in
      if blocked then (if sent then behind_sigwait (fs.sigwait w2) else (none, w2)) else (none, w1)
