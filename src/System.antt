-- ===== src/System.antt =====
-- The calls of the system and of the C library that act on the world outside, with the documents of
-- their behaviour that the program relies on. `W` is the state of that world; a stream is a handle.
use collab_markdown_server.Base.{ℕ, Bool, ◌≡◌, ◌≢◌, ◌⊎◌, true, false, ◌++◌, Text}

-- `fputs` and `fflush` answer `false` for EOF. `fprintf` stands for fprintf and fwrite where their
-- results are not looked at.
pub record System (W : Type 0) : Type 0 where
  pub fputs : Text → ℕ → W → Bool × W
  pub fflush : ℕ → W → Bool × W
  pub fprintf : Text → ℕ → W → W
  pub fclose : ℕ → W → W
  pub unlink : Text → W → W

-- The streams as the C library describes them, with what was written to each, buffers included. For
-- as long as a broadcast lasts, a stream takes what is put to it and is flushed, by `accepts`, or one
-- of the two calls answers EOF: a buffered fputs can succeed and the fflush behind it fail. SIGPIPE,
-- which would end the process, is not raised.
pub record AreStreams {W : Type 0} (sys : System W) (content : ℕ → W → Text) (accepts : ℕ → Bool)
    : Type 0 where
  pub put_result : (p : Text) (s : ℕ) (w : W) → accepts s ≡ true → (sys.fputs p s w).0 ≡ true
  pub flush_result : (s : ℕ) (w : W) → accepts s ≡ true → (sys.fflush s w).0 ≡ true
  pub refused :
      (p : Text) (s : ℕ) (w : W)
      → accepts s ≡ false
      → ((sys.fputs p s w).0 ≡ false) ⊎ ((sys.fflush s (sys.fputs p s w).1).0 ≡ false)
  pub put_self :
      (p : Text) (s : ℕ) (w : W)
      → accepts s ≡ true
      → content s (sys.fputs p s w).1 ≡ content s w ++ p
  pub put_other :
      (p : Text) (s other : ℕ) (w : W)
      → other ≢ s
      → content other (sys.fputs p s w).1 ≡ content other w
  pub flush_self : (s : ℕ) (w : W) → accepts s ≡ true → content s (sys.fflush s w).1 ≡ content s w
  pub flush_other :
      (s other : ℕ) (w : W) → other ≢ s → content other (sys.fflush s w).1 ≡ content other w

-- The other calls on streams: what is printed to a stream stands in it, and neither that nor closing
-- a stream nor removing a name touches another one.
pub record AreWrites {W : Type 0} (sys : System W) (content : ℕ → W → Text) : Type 0 where
  pub print_self : (p : Text) (s : ℕ) (w : W) → content s (sys.fprintf p s w) ≡ content s w ++ p
  pub print_other :
      (p : Text) (s other : ℕ) (w : W)
      → other ≢ s
      → content other (sys.fprintf p s w) ≡ content other w
  pub close_other :
      (s other : ℕ) (w : W) → other ≢ s → content other (sys.fclose s w) ≡ content other w
  pub unlink_content :
      (p : Text) (other : ℕ) (w : W) → content other (sys.unlink p w) ≡ content other w
