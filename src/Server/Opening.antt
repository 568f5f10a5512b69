-- ===== src/Server/Opening.antt =====
-- How the thread of a client starts in src/server.c: it makes the FIFOs, tells the client and opens
-- them, and gives up where a call fails.
pub mod Cleaned
pub mod Removed
use collab_markdown_server.Base.{
  ℕ, ◌≡◌, refl, sym, ap, ◌∙◌, ◌⊎◌, inl, inr, Bool, Bool-cases, true, false, not, ◌&&◌, ◌||◌, ◌==◌,
  if◌then◌else◌, Option, none, some, Option-cases, arith, Text, List, ◌++◌, codes,
}
use collab_markdown_server.Libc.Strings.{text_eq}
use collab_markdown_server.Libc.Numbers.Signed.{pos}
use collab_markdown_server.System.{System}
use collab_markdown_server.Files.{o_rdonly, o_wronly, ready_signal, Files, View, Same, AreFiles}
use collab_markdown_server.Fifos.{c2s_path, s2c_path}
use collab_markdown_server.Fifos.Open.{Modes, open_pair, Ends, open_pair-Ends}
use collab_markdown_server.ServerCore.Session.{Request}
use collab_markdown_server.Server.{ServerState}
use collab_markdown_server.Server.Interleaving.{Reachable, outside}
use collab_markdown_server.Server.Thread.{Arrival, arrival, client_thread_main}
use collab_markdown_server.Server.Thread.Sections.{Leaves, thread-Leaves}

abbrev pub server_modes : Modes
server_modes = record {
  c2s_mode = o_rdonly;
  s2c_mode = o_wronly;
  c2s_stream = codes "r";
  s2c_stream = codes "w";
}

abbrev pub is_some : Option (ℕ × ℕ) → Bool
is_some none = false
is_some (some streams) = true

module _ {W : Type 0} (sys : System W) (fs : Files W) where
  abbrev pub cleanup_fifo_pair : Text → Text → W → W
  cleanup_fifo_pair c2s s2c w = sys.unlink s2c (sys.unlink c2s w)

  -- `false` is -1.
  unfoldable pub make_fifo_pair : Text → Text → W → Bool × W
  make_fifo_pair c2s s2c w =
      let (made, w1) = fs.mkfifo c2s (cleanup_fifo_pair c2s s2c w) in
      let (both, w2) = fs.mkfifo s2c w1 in
      if made then (if both then (true, w2) else (false, sys.unlink c2s w2)) else (false, w1)

  abbrev pub cleaned : Text → Text → Option (ℕ × ℕ) × W → Option (ℕ × ℕ) × W
  cleaned c2s s2c (none, w) = (none, cleanup_fifo_pair c2s s2c w)
  cleaned c2s s2c (some streams, w) = (some streams, w)

  -- The streams, or `none` where the thread ends at once.
  unfoldable pub connect_client : ℕ → W → Option (ℕ × ℕ) × W
  connect_client pid w =
      let (made, w1) = make_fifo_pair (c2s_path pid) (s2c_path pid) w in
      let (told, w2) = fs.kill (pos pid) ready_signal w1 in
      if made
      then (if told
          then cleaned (c2s_path pid) (s2c_path pid)
              (open_pair sys fs server_modes (c2s_path pid) (s2c_path pid) w2)
          else (none, cleanup_fifo_pair (c2s_path pid) (s2c_path pid) w2))
      else (none, w1)

  -- The thread from its start.
  abbrev pub behind_connect :
      (Text → Option Text) → ℕ → Text → ServerState W → Option (ℕ × ℕ) × W → ServerState W
  behind_connect files pid input s (none, w) = record s { world = w }
  behind_connect files pid input s (some (c2s, s2c), w) =
      client_thread_main sys files pid (c2s_path pid) (s2c_path pid) c2s s2c input
        (record s { world = w })

  unfoldable pub client_thread : (Text → Option Text) → ℕ → Text → ServerState W → ServerState W
  client_thread files pid input s = behind_connect files pid input s (connect_client pid s.world)
