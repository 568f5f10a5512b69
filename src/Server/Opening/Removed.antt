-- ===== src/Server/Opening/Removed.antt =====
-- The thread of a client leaves no FIFO behind.
use collab_markdown_server.Base.{
  ℕ, ◌≡◌, add64, refl, ap, ◌∙◌, inl, inr, true, false, ◌==◌, Option, none, some, Option-cases, List,
  [], ◌∷◌, arith, Text, codes,
}
use collab_markdown_server.Libc.Strings.{text_eq_refl}
use collab_markdown_server.System.{System}
use collab_markdown_server.Files.{Files, View, AreFiles, AreRemovable, unlink-removable}
use collab_markdown_server.Fifos.{c2s_path, s2c_path}
use collab_markdown_server.Command.{UserRole}
use collab_markdown_server.ClientRegistry.{
  ClientConn, ClientRegistry, find_client, client_registry_find, client_registry_add, add_client,
  unlink_client, drop_client, client_registry_remove,
}
use collab_markdown_server.ServerCore.Session.{Request}
use collab_markdown_server.Server.{
  ServerState, initial_document, welcome_client, handle_command, client_leaves,
}
use collab_markdown_server.Server.Thread.{
  Arrival, no_username, refused, admitted, arrival, command_lines, requests, handle_commands,
  on_world, hang_up, after_welcome, run_thread, client_thread_main,
}
use collab_markdown_server.Server.Opening.{is_some, connect_client, behind_connect, client_thread}
use collab_markdown_server.Server.Opening.Cleaned.{connect_client-cleans}

module _ {W : Type 0} (sys : System W) where
  handle_commands-registry :
      (qs : List Request) (s : ServerState W) → (handle_commands sys qs s).registry ≡ s.registry
  unfolding handle_commands handle_command
  handle_commands-registry [] s = refl
  handle_commands-registry (q ∷ qs) s = handle_commands-registry qs (handle_command sys q s).1

module _ {W : Type 0} (sys : System W) (fs : Files W) (v : View W) (laws : AreFiles sys fs v) where
  -- None of the two names is there.
  abbrev pub AreGone : Text → Text → W → Type 0
  AreGone c s w = (v.exists c w ≡ false) × (v.exists s w ≡ false)

  unlinked-AreGone :
      (c s : Text) (w : W) → AreRemovable v c s → AreGone c s (sys.unlink s (sys.unlink c w))
  unlinked-AreGone c s w can =
      let first = unlink-removable sys fs v laws c c w (can.0 _) in
      let second = λ (q : Text). unlink-removable sys fs v laws s q (sys.unlink c w) (can.1 _) in
      (ground (arith, first, second c, text_eq_refl c), ground (arith, second s, text_eq_refl s))

  fclose-AreGone : (c s : Text) (f : ℕ) (w : W) → AreGone c s w → AreGone c s (sys.fclose f w)
  fclose-AreGone c s f w (first, second) =
      (laws.fclose_names f c w ∙ first, laws.fclose_names f s w ∙ second)

  module _ (pid : ℕ) (c s : Text) (can : AreRemovable v c s) (c2s s2c : ℕ) where
    hang_up-AreGone : (st : ServerState W) → AreGone c s (hang_up sys c s c2s s2c st).world
    hang_up-AreGone st = unlinked-AreGone c s (sys.fclose s2c (sys.fclose c2s st.world)) can

    -- The client that was added is the one that is removed.
    leaves-AreGone :
        (client : ClientConn) (others : List ClientConn) (st : ServerState W)
        → client.pid ≡ pid
        → client.fifo_c2s_path ≡ c
        → client.fifo_s2c_path ≡ s
        → st.registry.clients ≡ client ∷ others
        → AreGone c s (client_leaves sys pid st).world
    unfolding client_leaves client_registry_remove unlink_client drop_client
    leaves-AreGone client others st mine first second listed =
        let here : (client.pid == pid) ≡ true = ground arith in
        rw (client_registry_remove, listed, unlink_client, here, first, second)
          (fclose-AreGone c s client.out_stream (sys.unlink s (sys.unlink c st.world))
            (unlinked-AreGone c s st.world can))

    served-AreGone :
        (qs : List Request) (client : ClientConn) (others : List ClientConn) (st : ServerState W)
        → client.pid ≡ pid
        → client.fifo_c2s_path ≡ c
        → client.fifo_s2c_path ≡ s
        → st.registry.clients ≡ client ∷ others
        → AreGone c s (after_welcome sys pid c s c2s s2c qs (true, st)).world
    served-AreGone qs client others st mine first second listed =
        let served = handle_commands sys qs st in
        fclose-AreGone c s c2s (client_leaves sys pid served).world (
          leaves-AreGone client others served mine first second
            (ap (λ (r : ClientRegistry). r.clients) (handle_commands-registry sys qs st) ∙ listed))

    after-AreGone :
        (username : Text) (role : UserRole) (qs : List Request) (st : ServerState W)
        → AreGone c s
            (after_welcome sys pid c s c2s s2c qs
              (welcome_client sys pid username role c s s2c st)).world
    unfolding welcome_client client_registry_add client_registry_find
    after-AreGone username role qs st =
        let client : ClientConn = record {
          pid = pid;
          username = username;
          role = role;
          fifo_c2s_path = c;
          fifo_s2c_path = s;
          out_stream = s2c;
        } in
        elim (Option-cases (initial_document role st.core st.heap)) [
          | inl e ↦ rw (e, welcome_client) (hang_up-AreGone st)
          | inr (message, e) ↦
              let w = sys.fprintf message s2c st.world in
              elim (Option-cases (find_client pid st.registry.clients)) [
                | inr (present, taken) ↦
                    rw (e, welcome_client, add_client, taken)
                      (hang_up-AreGone (record st { world = w }))
                | inl absent ↦
                    rw (e, welcome_client, add_client, absent)
                      (served-AreGone qs client st.registry.clients
                        (record st {
                          registry = record {
                            clients = client ∷ st.registry.clients;
                            count = add64 st.registry.count 1;
                          };
                          world = w;
                        })
                        refl refl refl refl)
              ]
        ]

    run_thread-AreGone :
        (who : Arrival) (st : ServerState W)
        → AreGone c s (run_thread sys pid c s c2s s2c who st).world
    unfolding run_thread
    run_thread-AreGone no_username st = hang_up-AreGone st
    run_thread-AreGone refused st =
        hang_up-AreGone (on_world sys (sys.fprintf (codes "Reject UNAUTHORISED\n") s2c) st)
    run_thread-AreGone (admitted username role rest) st =
        after-AreGone username role (requests username role (command_lines rest)) st

  behind-AreGone :
      (files : Text → Option Text) (pid : ℕ) (input : Text) (st : ServerState W)
      (r : Option (ℕ × ℕ)) (w : W)
      → AreRemovable v (c2s_path pid) (s2c_path pid)
      → (is_some r ≡ false → AreGone (c2s_path pid) (s2c_path pid) w)
      → AreGone
          (c2s_path pid)
          (s2c_path pid)
          (behind_connect sys fs files pid input st (r, w)).world
  unfolding client_thread_main
  behind-AreGone files pid input st none w can gone = gone refl
  behind-AreGone files pid input st (some (c2s, s2c)) w can gone =
      run_thread-AreGone pid (c2s_path pid) (s2c_path pid) can c2s s2c (arrival files input)
        (record st { world = w })

  -- The whole thread of a client, if no other one runs beside it and unlink does not fail for the names
  -- of its two FIFOs, leaves neither of them in the directory: not where another call of the system
  -- fails when they are made or opened, not where the client sends no name, has no role or is not
  -- added, and not when it leaves.
  pub client_thread-AreGone :
      (files : Text → Option Text) (pid : ℕ) (input : Text) (st : ServerState W)
      → AreRemovable v (c2s_path pid) (s2c_path pid)
      → AreGone (c2s_path pid) (s2c_path pid) (client_thread sys fs files pid input st).world
  unfolding client_thread
  client_thread-AreGone files pid input st can =
      let r = connect_client sys fs pid st.world in
      let (names, _) = connect_client-cleans sys fs v laws pid st.world can in
      behind-AreGone files pid input st r.0 r.1 can (λ none_open. (
        ground (arith, names (c2s_path pid), none_open, text_eq_refl (c2s_path pid)),
        ground (arith, names (s2c_path pid), none_open, text_eq_refl (s2c_path pid)),
      ))
