-- ===== src/Fifos/Demo.antt =====
-- The FIFOs of src/server_demo.c and src/client_demo.c, which have fixed names, and how both programs
-- open them.
use collab_markdown_server.Base.{
  ℕ, ◌≡◌, refl, ◌∙◌, inl, inr, false, ◌||◌, ◌==◌, Option, none, some, arith, Text, codes,
}
use collab_markdown_server.System.{System}
use collab_markdown_server.Files.{Files, View, AreFiles}
use collab_markdown_server.Fifos.Open.{Modes, Finish, Finishes, open_fifos, Ends, open_fifos-Ends}

abbrev pub fifo_c2s : Text
fifo_c2s = codes "FIFO_C2S_DEMO"

abbrev pub fifo_s2c : Text
fifo_s2c = codes "FIFO_S2C_DEMO"

module _ {W : Type 0} (sys : System W) (fs : Files W) where
  -- Without both streams the two descriptors are closed.
  abbrev demo_streams : Finish sys fs
  demo_streams c2s_fd s2c_fd (some c2s) (some s2c) w = (some (c2s, s2c), w)
  demo_streams c2s_fd s2c_fd (some c2s) none w = (none, fs.close s2c_fd (fs.close c2s_fd w))
  demo_streams c2s_fd s2c_fd none s2c w = (none, fs.close s2c_fd (fs.close c2s_fd w))

  abbrev pub open_demo : Modes → W → Option (ℕ × ℕ) × W
  open_demo m w = open_fifos sys fs demo_streams m fifo_c2s fifo_s2c w

module _ {W : Type 0} (sys : System W) (fs : Files W) (v : View W) (laws : AreFiles sys fs v) where
  both_closed :
      (c2s_fd s2c_fd : ℕ) (w w' : W)
      → ((q : Text) → v.exists q w' ≡ v.exists q w)
      → ((k : ℕ) → v.is_open k w' ≡ ((s2c_fd == k) || ((c2s_fd == k) || v.is_open k w)))
      → v.is_open c2s_fd w ≡ false
      → v.is_open s2c_fd w ≡ false
      → Ends v w (none, fs.close s2c_fd (fs.close c2s_fd w'))
  both_closed c2s_fd s2c_fd w w' names open_now free1 free2 = record {
    names = λ q.
        laws.close_names s2c_fd q (fs.close c2s_fd w') ∙ (laws.close_names c2s_fd q w' ∙ names q);
    descriptors = inl (
      refl,
      λ k. ground (
        arith,
        laws.close_descriptors s2c_fd k (fs.close c2s_fd w'),
        laws.close_descriptors c2s_fd k w',
        open_now k,
        free1,
        free2,
      ),
    );
  }

  demo_streams-Ends : Finishes sys fs v (demo_streams sys fs)
  demo_streams-Ends c2s_fd s2c_fd (some f) (some g) w w' names open_now free1 free2 first second =
      record {
        names = names;
        descriptors = inr ((f, g), c2s_fd, s2c_fd, refl, λ k. ground (arith, open_now k));
      }
  demo_streams-Ends c2s_fd s2c_fd (some f) none w w' names open_now free1 free2 first second =
      both_closed c2s_fd s2c_fd w w' names open_now free1 free2
  demo_streams-Ends c2s_fd s2c_fd none s2c w w' names open_now free1 free2 first second =
      both_closed c2s_fd s2c_fd w w' names open_now free1 free2

  pub open_demo-Ends : (m : Modes) (w : W) → Ends v w (open_demo sys fs m w)
  open_demo-Ends m w =
      open_fifos-Ends sys fs v laws m (demo_streams sys fs) demo_streams-Ends fifo_c2s fifo_s2c w
