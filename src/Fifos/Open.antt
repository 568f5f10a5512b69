-- ===== src/Fifos/Open.antt =====
-- Opening the two FIFOs of a client, the same in `main` of src/client.c and in `client_thread_main` of
-- src/server.c but for the modes.
use collab_markdown_server.Base.{
  ℕ, ◌≡◌, refl, ◌∙◌, ◌⊎◌, inl, inr, false, ◌||◌, ◌==◌, Option, none, some, Option-cases, arith,
  Text,
}
use collab_markdown_server.System.{System}
use collab_markdown_server.Files.{OpenMode, Files, View, AreFiles}

-- The modes of the two open calls and of the two fdopen calls.
pub record Modes : Type 0 where
  pub c2s_mode : OpenMode
  pub s2c_mode : OpenMode
  pub c2s_stream : Text
  pub s2c_stream : Text

module _ {W : Type 0} (sys : System W) (fs : Files W) where
  -- fclose of a stream, or close of the descriptor that did not get one.
  abbrev close_side : Option ℕ → ℕ → W → W
  close_side none fd w = fs.close fd w
  close_side (some f) fd w = sys.fclose f w

  -- The test for NULL.
  abbrev both_streams : ℕ → ℕ → Option ℕ → Option ℕ → W → Option (ℕ × ℕ) × W
  both_streams c2s_fd s2c_fd (some c2s) (some s2c) w = (some (c2s, s2c), w)
  both_streams c2s_fd s2c_fd (some c2s) none w =
      (none, close_side none s2c_fd (close_side (some c2s) c2s_fd w))
  both_streams c2s_fd s2c_fd none s2c w = (none, close_side s2c s2c_fd (close_side none c2s_fd w))

  -- What follows the two fdopen calls, which differs between the programs.
  abbrev pub Finish : Type 0
  Finish = ℕ → ℕ → Option ℕ → Option ℕ → W → Option (ℕ × ℕ) × W

  abbrev make_streams : Finish → Modes → ℕ → ℕ → W → Option (ℕ × ℕ) × W
  make_streams finish m c2s_fd s2c_fd w =
      let (c2s, w1) = fs.fdopen m.c2s_stream c2s_fd w in
      let (s2c, w2) = fs.fdopen m.s2c_stream s2c_fd w1 in finish c2s_fd s2c_fd c2s s2c w2

  abbrev open_second : Finish → Modes → ℕ → Option ℕ × W → Option (ℕ × ℕ) × W
  open_second finish m c2s_fd (none, w) = (none, fs.close c2s_fd w)
  open_second finish m c2s_fd (some s2c_fd, w) = make_streams finish m c2s_fd s2c_fd w

  abbrev open_first : Finish → Modes → Text → Option ℕ × W → Option (ℕ × ℕ) × W
  open_first finish m s2c_path (none, w) = (none, w)
  open_first finish m s2c_path (some c2s_fd, w) =
      open_second finish m c2s_fd (fs.open_file m.s2c_mode s2c_path w)

  unfoldable pub open_fifos : Finish → Modes → Text → Text → W → Option (ℕ × ℕ) × W
  open_fifos finish m c2s_path s2c_path w =
      open_first finish m s2c_path (fs.open_file m.c2s_mode c2s_path w)

  abbrev pub open_pair : Modes → Text → Text → W → Option (ℕ × ℕ) × W
  open_pair = open_fifos both_streams

-- How opening ends: with the two streams and two descriptors more, or with none of either.
pub record Ends {W : Type 0} (v : View W) (w : W) (r : Option (ℕ × ℕ) × W) : Type 0 where
  pub names : (q : Text) → v.exists q r.1 ≡ v.exists q w
  pub descriptors :
      ((r.0 ≡ none) × ((k : ℕ) → v.is_open k r.1 ≡ v.is_open k w))
      ⊎ ((streams : ℕ × ℕ) × (c2s_fd : ℕ) × (s2c_fd : ℕ) × (r.0 ≡ some streams)
          × ((k : ℕ) → v.is_open k r.1 ≡ ((c2s_fd == k) || ((s2c_fd == k) || v.is_open k w))))

module _ {W : Type 0} (sys : System W) (fs : Files W) (v : View W) where
  -- What follows the fdopen calls keeps the names, and the two descriptors exactly if it has streams.
  abbrev pub Finishes : Finish sys fs → Type 0
  Finishes finish =
      (c2s_fd s2c_fd : ℕ) (c2s s2c : Option ℕ) (w w' : W)
      → ((q : Text) → v.exists q w' ≡ v.exists q w)
      → ((k : ℕ) → v.is_open k w' ≡ ((s2c_fd == k) || ((c2s_fd == k) || v.is_open k w)))
      → v.is_open c2s_fd w ≡ false
      → v.is_open s2c_fd w ≡ false
      → ((f : ℕ) → c2s ≡ some f → s2c ≡ none → v.fd_of f w' ≡ c2s_fd)
      → ((f : ℕ) → s2c ≡ some f → v.fd_of f w' ≡ s2c_fd)
      → Ends v w (finish c2s_fd s2c_fd c2s s2c w')

module _ {W : Type 0} (sys : System W) (fs : Files W) (v : View W) (laws : AreFiles sys fs v)
    (m : Modes) where
  both-Ends : Finishes sys fs v (both_streams sys fs)
  both-Ends c2s_fd s2c_fd (some f) (some g) w w' names open_now free1 free2 first second = record {
    names = names;
    descriptors = inr ((f, g), c2s_fd, s2c_fd, refl, λ k. ground (arith, open_now k));
  }
  both-Ends c2s_fd s2c_fd (some f) none w w' names open_now free1 free2 first second = record {
    names = λ q. laws.close_names s2c_fd q (sys.fclose f w') ∙ (laws.fclose_names f q w' ∙ names q);
    descriptors = inl (
      refl,
      λ k. ground (
        arith,
        laws.close_descriptors s2c_fd k (sys.fclose f w'),
        laws.fclose_descriptors f k w',
        open_now k,
        first f refl refl,
        free1,
        free2,
      ),
    );
  }
  both-Ends c2s_fd s2c_fd none none w w' names open_now free1 free2 first second = record {
    names = λ q.
        laws.close_names s2c_fd q (fs.close c2s_fd w') ∙ (laws.close_names c2s_fd q w' ∙ names q);
    descriptors = inl (
      refl,
      λ k. ground (
        arith,
        laws.close_descriptors s2c_fd k (fs.close c2s_fd w'),
        laws.close_descriptors c2s_fd k w',
        open_now k,
        free1,
        free2,
      ),
    );
  }
  both-Ends c2s_fd s2c_fd none (some g) w w' names open_now free1 free2 first second = record {
    names =
        λ q. laws.fclose_names g q (fs.close c2s_fd w') ∙ (laws.close_names c2s_fd q w' ∙ names q);
    descriptors = inl (
      refl,
      λ k. ground (
        arith,
        laws.fclose_descriptors g k (fs.close c2s_fd w'),
        laws.close_streams c2s_fd g w',
        second g refl,
        laws.close_descriptors c2s_fd k w',
        open_now k,
        free1,
        free2,
      ),
    );
  }

  module _ (finish : Finish sys fs) (finishes : Finishes sys fs v finish) where
    make-Ends :
        (c2s_fd s2c_fd : ℕ) (w w' : W)
        → ((q : Text) → v.exists q w' ≡ v.exists q w)
        → ((k : ℕ) → v.is_open k w' ≡ ((s2c_fd == k) || ((c2s_fd == k) || v.is_open k w)))
        → v.is_open c2s_fd w ≡ false
        → v.is_open s2c_fd w ≡ false
        → Ends v w (make_streams sys fs finish m c2s_fd s2c_fd w')
    make-Ends c2s_fd s2c_fd w w' names open_now free1 free2 =
        let w1 = (fs.fdopen m.c2s_stream c2s_fd w').1 in
        let first = laws.fdopen_same m.c2s_stream c2s_fd w' in
        let second = laws.fdopen_same m.s2c_stream s2c_fd w1 in
        finishes c2s_fd s2c_fd (fs.fdopen m.c2s_stream c2s_fd w').0
          (fs.fdopen m.s2c_stream s2c_fd w1).0 w (fs.fdopen m.s2c_stream s2c_fd w1).1
          (λ q. second.names q ∙ (first.names q ∙ names q))
          (λ k. second.descriptors k ∙ (first.descriptors k ∙ open_now k)) free1 free2
          (λ f e none_of.
            laws.fdopen_fails m.s2c_stream s2c_fd f w1 none_of
            ∙ laws.fdopen_stream m.c2s_stream c2s_fd f w' e)
          (λ g e. laws.fdopen_stream m.s2c_stream s2c_fd g w1 e)

    second-Ends :
        (c2s_fd : ℕ) (s2c_path : Text) (w w' : W)
        → ((q : Text) → v.exists q w' ≡ v.exists q w)
        → ((k : ℕ) → v.is_open k w' ≡ ((c2s_fd == k) || v.is_open k w))
        → v.is_open c2s_fd w ≡ false
        → Ends v w (open_second sys fs finish m c2s_fd (fs.open_file m.s2c_mode s2c_path w'))
    second-Ends c2s_fd s2c_path w w' names open_now free =
        let r = fs.open_file m.s2c_mode s2c_path w' in
        let kept = λ (q : Text). laws.open_names m.s2c_mode s2c_path q w' ∙ names q in
        let now = laws.open_descriptors m.s2c_mode s2c_path in
        elim (Option-cases r.0) [
          | inl e ↦ rw e (record {
            names = λ q. laws.close_names c2s_fd q r.1 ∙ kept q;
            descriptors = inl (
              refl,
              λ k.
                  ground
                    (arith, laws.close_descriptors c2s_fd k r.1, now k w', e, open_now k, free),
            );
          })
          | inr (fd, e) ↦
              let fresh = laws.open_free m.s2c_mode s2c_path fd w' e in
              rw e (
                make-Ends c2s_fd fd w r.1 kept (λ k. ground (arith, now k w', e, open_now k)) free
                  (ground (arith, fresh, open_now fd)))
        ]

    -- Opening the FIFOs changes no name and, where it fails, no descriptor.
    pub open_fifos-Ends :
        (c2s_path s2c_path : Text) (w : W)
        → Ends v w (open_fifos sys fs finish m c2s_path s2c_path w)
    unfolding open_fifos
    open_fifos-Ends c2s_path s2c_path w =
        let r = fs.open_file m.c2s_mode c2s_path w in
        let kept = λ (q : Text). laws.open_names m.c2s_mode c2s_path q w in
        let now = λ (k : ℕ). laws.open_descriptors m.c2s_mode c2s_path k w in
        elim (Option-cases r.0) [
          | inl e ↦
              rw (open_fifos, e)
                (record { names = kept; descriptors = inl (refl, λ k. ground (arith, now k, e)) })
          | inr (fd, e) ↦
              rw (open_fifos, e)
                (second-Ends fd s2c_path w r.1 kept (λ k. ground (arith, now k, e))
                  (laws.open_free m.c2s_mode c2s_path fd w e))
        ]

  pub open_pair-Ends :
      (c2s_path s2c_path : Text) (w : W) → Ends v w (open_pair sys fs m c2s_path s2c_path w)
  open_pair-Ends = open_fifos-Ends (both_streams sys fs) both-Ends
