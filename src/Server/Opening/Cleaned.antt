-- ===== src/Server/Opening/Cleaned.antt =====
-- A thread that gives up at its start leaves neither a FIFO nor a descriptor behind.
use collab_markdown_server.Base.{
  ℕ, ◌≡◌, refl, ◌∙◌, ◌⊎◌, inl, inr, Bool, Bool-cases, true, false, ◌||◌, ◌==◌, if◌then◌else◌,
  Option, none, some, arith, Text, List,
}
use collab_markdown_server.Libc.Strings.{text_eq}
use collab_markdown_server.Libc.Numbers.Signed.{pos}
use collab_markdown_server.System.{System}
use collab_markdown_server.Files.{
  ready_signal, Files, View, AreFiles, AreRemovable, unlink-removable,
}
use collab_markdown_server.Fifos.{c2s_path, s2c_path}
use collab_markdown_server.Fifos.Open.{open_pair, Ends, open_pair-Ends}
use collab_markdown_server.ServerCore.Session.{Request}
use collab_markdown_server.Server.{ServerState}
use collab_markdown_server.Server.Interleaving.{Reachable, outside}
use collab_markdown_server.Server.Thread.{arrival}
use collab_markdown_server.Server.Thread.Sections.{Leaves, IsUnserved, thread-Leaves}
use collab_markdown_server.Server.Opening.{
  server_modes, is_some, cleanup_fifo_pair, make_fifo_pair, cleaned, connect_client, behind_connect,
  client_thread,
}

module _ {W : Type 0} (sys : System W) (fs : Files W) (v : View W) (laws : AreFiles sys fs v) where
  cleanup-names :
      (c s q : Text) (w : W)
      → AreRemovable v c s
      → v.exists q (cleanup_fifo_pair sys fs c s w)
        ≡ (if text_eq c q || text_eq s q then false else v.exists q w)
  cleanup-names c s q w can = ground (
    arith,
    unlink-removable sys fs v laws s q (sys.unlink c w) (can.1 _),
    unlink-removable sys fs v laws c q w (can.0 _),
  )

  cleanup-descriptors :
      (c s : Text) (k : ℕ) (w : W) → v.is_open k (cleanup_fifo_pair sys fs c s w) ≡ v.is_open k w
  cleanup-descriptors c s k w =
      laws.unlink_descriptors s k (sys.unlink c w) ∙ laws.unlink_descriptors c k w

  make-names :
      (c s q : Text) (w : W)
      → AreRemovable v c s
      → v.exists q (make_fifo_pair sys fs c s w).1
        ≡ (if text_eq c q || text_eq s q then (make_fifo_pair sys fs c s w).0 else v.exists q w)
  unfolding make_fifo_pair
  make-names c s q w can =
      let w0 = cleanup_fifo_pair sys fs c s w in
      let w1 = (fs.mkfifo c w0).1 in
      ground (
        arith,
        cleanup-names c s q w can,
        laws.mkfifo_names c q w0,
        laws.mkfifo_names s q w1,
        unlink-removable sys fs v laws c q (fs.mkfifo s w1).1 (can.0 _),
      )

  make-descriptors :
      (c s : Text) (k : ℕ) (w : W) → v.is_open k (make_fifo_pair sys fs c s w).1 ≡ v.is_open k w
  unfolding make_fifo_pair
  make-descriptors c s k w =
      let w0 = cleanup_fifo_pair sys fs c s w in
      let w1 = (fs.mkfifo c w0).1 in
      ground (
        arith,
        cleanup-descriptors c s k w,
        laws.mkfifo_descriptors c k w0,
        laws.mkfifo_descriptors s k w1,
        laws.unlink_descriptors c k (fs.mkfifo s w1).1,
      )

  -- Where a thread stands with its two names: as the two tests say, with the others as before.
  abbrev pub NamesAre : Text → Text → Bool → W → W → Type 0
  NamesAre c s there w w' =
      (q : Text) → v.exists q w' ≡ (if text_eq c q || text_eq s q then there else v.exists q w)

  -- With its two descriptors, or with those from before.
  abbrev pub DescriptorsAre : W → Option (ℕ × ℕ) × W → Type 0
  DescriptorsAre w r =
      ((r.0 ≡ none) × ((k : ℕ) → v.is_open k r.1 ≡ v.is_open k w))
      ⊎ ((streams : ℕ × ℕ) × (c2s_fd : ℕ) × (s2c_fd : ℕ) × (r.0 ≡ some streams)
          × ((k : ℕ) → v.is_open k r.1 ≡ ((c2s_fd == k) || ((s2c_fd == k) || v.is_open k w))))

  abbrev Connects : Text → Text → W → Option (ℕ × ℕ) × W → Type 0
  Connects c s w r = NamesAre c s (is_some r.0) w r.1 × DescriptorsAre w r

  gives_up :
      (c s : Text) (w w' : W)
      → NamesAre c s false w w'
      → ((k : ℕ) → v.is_open k w' ≡ v.is_open k w)
      → Connects c s w (none, w')
  gives_up c s w w' names same = (names, inl (refl, same))

  cleanup-Connects :
      (c s : Text) (there : Bool) (w w' : W)
      → AreRemovable v c s
      → NamesAre c s there w w'
      → ((k : ℕ) → v.is_open k w' ≡ v.is_open k w)
      → Connects c s w (none, cleanup_fifo_pair sys fs c s w')
  cleanup-Connects c s there w w' can names same =
      gives_up c s w (cleanup_fifo_pair sys fs c s w')
        (λ q. ground (arith, cleanup-names c s q w' can, names q))
        (λ k. cleanup-descriptors c s k w' ∙ same k)

  cleaned-Connects :
      (c s : Text) (w w2 w' : W) (r : Option (ℕ × ℕ))
      → AreRemovable v c s
      → NamesAre c s true w w2
      → ((k : ℕ) → v.is_open k w2 ≡ v.is_open k w)
      → Ends v w2 (r, w')
      → Connects c s w (cleaned sys fs c s (r, w'))
  cleaned-Connects c s w w2 w' none can names same ends =
      cleanup-Connects c s true w w' can (λ q. ends.names q ∙ names q)
        (elim ends.descriptors [
          | inl (_, back) ↦ λ k. back k ∙ same k
          | inr (_, _, _, e, _) ↦ absurd (let f : none ≡ some _ = e in cc)
        ])
  cleaned-Connects c s w w2 w' (some streams) can names same ends = (
    λ q. ends.names q ∙ names q,
    elim ends.descriptors [
      | inl (e, _) ↦ absurd (cc)
      | inr (two, c2s_fd, s2c_fd, e, now) ↦
          inr (two, c2s_fd, s2c_fd, e, λ k. ground (arith, now k, same k))
    ],
  )

  pub connect_client-cleans :
      (pid : ℕ) (w : W)
      → AreRemovable v (c2s_path pid) (s2c_path pid)
      → NamesAre
          (c2s_path pid)
          (s2c_path pid)
          (is_some (connect_client sys fs pid w).0)
          w
          (connect_client sys fs pid w).1
        × DescriptorsAre w (connect_client sys fs pid w)
  unfolding connect_client
  connect_client-cleans pid w can =
      let c = c2s_path pid in
      let s = s2c_path pid in
      let r1 = make_fifo_pair sys fs c s w in
      let r2 = fs.kill (pos pid) ready_signal r1.1 in
      let told = laws.kill_same (pos pid) ready_signal r1.1 in
      let names = λ (q : Text). make-names c s q w can in
      let same = λ (k : ℕ). make-descriptors c s k w in
      elim (Bool-cases r1.0) [
        | inr failed ↦ rw failed (gives_up c s w r1.1 (λ q. rw failed at (names q)) same)
        | inl made ↦
            let kept = λ (q : Text). told.names q ∙ rw made at (names q) in
            let back = λ (k : ℕ). told.descriptors k ∙ same k in
            elim (Bool-cases r2.0) [
              | inr deaf ↦ rw (made, deaf) (cleanup-Connects c s true w r2.1 can kept back)
              | inl heard ↦
                  let r3 = open_pair sys fs server_modes c s r2.1 in
                  rw (made, heard)
                    (cleaned-Connects c s w r2.1 r3.1 r3.0 can kept back
                      (open_pair-Ends sys fs v laws server_modes c s r2.1))
            ]
      ]

module _ {W : Type 0} (sys : System W) (fs : Files W) (start : ServerState W)
    (files : Text → Option Text) (pid : ℕ) (input : Text) where
  -- Why a thread handles nothing: it does not get its streams, or as above.
  abbrev pub IsIdle : ServerState W → Type 0
  IsIdle s = ((connect_client sys fs pid s.world).0 ≡ none) ⊎ IsUnserved pid (arrival files input) s

  behind-Leaves :
      (s : ServerState W) (qs : List Request) (r : Option (ℕ × ℕ)) (w : W)
      → (connect_client sys fs pid s.world).0 ≡ r
      → Reachable sys start qs s
      → Leaves sys start
          (IsIdle s)
          qs
          (arrival files input)
          (behind_connect sys fs files pid input s (r, w))
  behind-Leaves s qs none w e reached = inr (inl e, outside w reached)
  behind-Leaves s qs (some (c2s, s2c)) w e reached =
      elim (thread-Leaves sys start files pid (c2s_path pid) (s2c_path pid) c2s s2c input
        (record s { world = w }) qs (outside w reached)) [
          | inl served ↦ inl served
          | inr (why, r) ↦ inr (inr why, r)
        ]

  -- The whole thread of a client, however the calls of the system answer it, is an order of critical
  -- sections if it runs with no other one beside it: from a state that the server reaches with some
  -- requests handled, it leads to one that the server reaches with the same requests and then the
  -- lines of its client, up to DISCONNECT or QUIT, under the name that the client sent and the role
  -- that the roles file has for it; or with the same requests alone, and then the thread does not get
  -- its streams, or the client sends no name, or has no role, or is not added because the document
  -- cannot be flattened or a client with its number is there.
  pub client_thread-Leaves :
      (s : ServerState W) (qs : List Request)
      → Reachable sys start qs s
      → Leaves sys start
          (IsIdle s)
          qs
          (arrival files input)
          (client_thread sys fs files pid input s)
  unfolding client_thread
  client_thread-Leaves s qs reached =
      let r = connect_client sys fs pid s.world in behind-Leaves s qs r.0 r.1 refl reached
