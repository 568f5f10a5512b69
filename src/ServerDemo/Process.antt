-- ===== src/ServerDemo/Process.antt =====
-- The whole of `main` in src/server_demo.c.
use collab_markdown_server.Base.{
  ℕ, ◌≡◌, refl, ◌∙◌, Bool, true, false, ◌||◌, Option, none, some, if◌then◌else◌, arith, Text, codes,
}
use collab_markdown_server.Libc.Strings.{text_eq}
use collab_markdown_server.System.{System}
use collab_markdown_server.Files.{
  o_rdonly, o_wronly, Files, View, AreFiles, AreRemovable, unlink-removable,
}
use collab_markdown_server.Fifos.Open.{Modes}
use collab_markdown_server.Fifos.Demo.{fifo_c2s, fifo_s2c, open_demo, open_demo-Ends}
use collab_markdown_server.Markdown.Document.{Heap}
use collab_markdown_server.ServerDemo.{demo_main}

abbrev demo_modes : Modes
demo_modes = record {
  c2s_mode = o_rdonly;
  s2c_mode = o_wronly;
  c2s_stream = codes "r";
  s2c_stream = codes "w";
}

module _ {W : Type 0} (sys : System W) (fs : Files W) where
  abbrev cleanup_fifos : W → W
  cleanup_fifos w = sys.unlink fifo_s2c (sys.unlink fifo_c2s w)

  -- `none` where the program dies.
  unfoldable pub make_demo : W → Option (ℕ × ℕ) × W
  make_demo w =
      let (made, w1) = fs.mkfifo fifo_c2s (cleanup_fifos w) in
      let (both, w2) = fs.mkfifo fifo_s2c w1 in
      if made then (if both then open_demo sys fs demo_modes w2 else (none, w2)) else (none, w1)

  -- The exit status is 0 for `true`. `input` is all that the client writes to its FIFO. A program that
  -- dies removes the FIFOs, too.
  abbrev serve_demo : ℕ → Heap → Text → Option (ℕ × ℕ) × W → Bool × W
  serve_demo doc h input (none, w) = (false, cleanup_fifos w)
  serve_demo doc h input (some (c2s, s2c), w) = (
    true,
    cleanup_fifos (sys.fclose s2c (sys.fclose c2s (sys.fprintf (demo_main doc h input) s2c w))),
  )

  unfoldable pub demo_server : ℕ → Heap → Text → W → Bool × W
  demo_server doc h input w = serve_demo doc h input (make_demo w)

module _ {W : Type 0} (sys : System W) (fs : Files W) (v : View W) (laws : AreFiles sys fs v)
    (can : AreRemovable v fifo_c2s fifo_s2c) where
  -- The two names are not there, and the others are as before.
  abbrev HasCleaned : W → W → Type 0
  HasCleaned w w' =
      (q : Text)
      → v.exists q w' ≡ (if text_eq fifo_c2s q || text_eq fifo_s2c q then false else v.exists q w)

  -- Away from the two names.
  abbrev OthersAre : W → W → Type 0
  OthersAre w w' =
      (q : Text) → (text_eq fifo_c2s q || text_eq fifo_s2c q) ≡ false → v.exists q w' ≡ v.exists q w

  cleanup-HasCleaned : (w w' : W) → OthersAre w w' → HasCleaned w (cleanup_fifos sys fs w')
  cleanup-HasCleaned w w' others q =
      let first = unlink-removable sys fs v laws fifo_s2c q (sys.unlink fifo_c2s w') (can.1 _) in
      let second = unlink-removable sys fs v laws fifo_c2s q w' (can.0 _) in
      ground (arith, first, second, others q)

  make-OthersAre : (w : W) → OthersAre w (make_demo sys fs w).1
  unfolding make_demo
  make-OthersAre w q away =
      let w0 = cleanup_fifos sys fs w in
      let (made, w1) = fs.mkfifo fifo_c2s w0 in
      let (both, w2) = fs.mkfifo fifo_s2c w1 in
      ground (
        arith,
        cleanup-HasCleaned w w (λ q away. refl) q,
        laws.mkfifo_names fifo_c2s q w0,
        laws.mkfifo_names fifo_s2c q w1,
        (open_demo-Ends sys fs v laws demo_modes w2).names q,
        away,
      )

  serve-HasCleaned :
      (doc : ℕ) (h : Heap) (input : Text) (r : Option (ℕ × ℕ)) (w w' : W)
      → OthersAre w w'
      → HasCleaned w (serve_demo sys fs doc h input (r, w')).1
  serve-HasCleaned doc h input none w w' others = cleanup-HasCleaned w w' others
  serve-HasCleaned doc h input (some (c2s, s2c)) w w' others =
      let w1 = sys.fprintf (demo_main doc h input) s2c w' in
      cleanup-HasCleaned w (sys.fclose s2c (sys.fclose c2s w1)) (λ q away.
        laws.fclose_names s2c q (sys.fclose c2s w1)
        ∙ (laws.fclose_names c2s q w1
            ∙ (laws.fprintf_names (demo_main doc h input) q s2c w' ∙ others q away)))

  -- However mkfifo, open and fdopen answer the demo server, and whether it dies or comes to its end, if
  -- unlink does not fail for its two FIFOs and nobody else is at work in the directory: the two are not
  -- in the directory afterwards, and all other names are as before.
  pub demo_server-cleans :
      (doc : ℕ) (h : Heap) (input : Text) (w : W) (q : Text)
      → v.exists q (demo_server sys fs doc h input w).1
        ≡ (if text_eq fifo_c2s q || text_eq fifo_s2c q then false else v.exists q w)
  unfolding demo_server
  demo_server-cleans doc h input w q =
      let r = make_demo sys fs w in serve-HasCleaned doc h input r.0 w r.1 (make-OthersAre w) q
