-- ===== src/Server/Thread/Sections.antt =====
-- A thread is a sequence of critical sections.
use collab_markdown_server.Base.{
  none, some, Option-cases, ℕ, ◌≡◌, refl, sym, ◌⊎◌, inl, inr, Bool, true, false, Option, List, [],
  ◌∷◌, ◌++◌, append_assoc, append-nil, subst, Text,
}
use collab_markdown_server.System.{System}
use collab_markdown_server.Command.{UserRole}
use collab_markdown_server.ServerCore.Session.{Request}
use collab_markdown_server.ServerCore.{server_core_flatten_doc}
use collab_markdown_server.ClientRegistry.{
  ClientConn, client_registry_find, client_registry_add, add_client,
}
use collab_markdown_server.Server.{ServerState, initial_document, welcome_client, handle_command}
use collab_markdown_server.Server.Interleaving.{Reachable, welcomed, handled, left, outside}
use collab_markdown_server.Server.Thread.{
  Arrival, no_username, refused, admitted, arrival, requests, command_lines, handle_commands,
  run_thread, after_welcome, client_thread_main,
}

-- Why the section behind the authentication does not add a client: the document cannot be flattened,
-- or a client with its number is there.
abbrev pub IsDenied : {W : Type 0} → ℕ → ServerState W → Type 0
IsDenied pid s =
    (server_core_flatten_doc s.core s.heap ≡ none)
    ⊎ ((c : ClientConn) × (client_registry_find s.registry pid ≡ some c))

pub welcome_client-IsDenied :
    {W : Type 0} (sys : System W) (pid : ℕ) (username : Text) (role : UserRole)
    (c2s_path s2c_path : Text) (s2c : ℕ) (s : ServerState W)
    → (welcome_client sys pid username role c2s_path s2c_path s2c s).0 ≡ false
    → IsDenied pid s
unfolding welcome_client initial_document client_registry_add
welcome_client-IsDenied sys pid username role c2s_path s2c_path s2c s e =
    elim (Option-cases (server_core_flatten_doc s.core s.heap)) [
      | inl none_of_it ↦ inl none_of_it
      | inr (text, flat) ↦ elim (Option-cases (client_registry_find s.registry pid)) [
        | inr there ↦ inr there
        | inl absent ↦ absurd (
            let added : (welcome_client sys pid username role c2s_path s2c_path s2c s).0 ≡ true =
              rw (welcome_client, initial_document, flat, add_client, absent) refl in
            cc)
      ]
    ]

-- Why a thread handles nothing, once it has its streams.
abbrev pub IsUnserved : {W : Type 0} → ℕ → Arrival → ServerState W → Type 0
IsUnserved pid who s = (who ≡ no_username) ⊎ ((who ≡ refused) ⊎ IsDenied pid s)

module _ {W : Type 0} (sys : System W) (start : ServerState W) where
  handle_commands-Reachable :
      (qs more : List Request) {s : ServerState W}
      → Reachable sys start qs s
      → Reachable sys start (qs ++ more) (handle_commands sys more s)
  unfolding handle_commands
  handle_commands-Reachable qs [] {s} r =
      subst (λ (l : List Request). Reachable sys start l s) (sym (append-nil qs)) r
  handle_commands-Reachable qs (q ∷ more) {s} r =
      subst
        (λ (l : List Request).
          Reachable sys start l (handle_commands sys more (handle_command sys q s).1))
        (append_assoc qs (q ∷ []) more)
        (handle_commands-Reachable (qs ++ (q ∷ [])) more (handled q r))

  -- Where a thread can leave the shared state: it has handled the lines of its client, as the user
  -- and with the role that the roles file gives, or nothing, for the reason given.
  abbrev pub Leaves : Type 0 → List Request → Arrival → ServerState W → Type 0
  Leaves Reason qs who s =
      ((username : Text) × (role : UserRole) × (rest : Text) × (who ≡ admitted username role rest)
        × Reachable sys start (qs ++ requests username role (command_lines rest)) s)
      ⊎ (Reason × Reachable sys start qs s)

  welcome-Leaves :
      (Reason : Type 0) (pid : ℕ) (c2s_path s2c_path : Text) (c2s s2c : ℕ) (qs : List Request)
      (username : Text) (role : UserRole) (rest : Text) (added : Bool) (s : ServerState W)
      → (added ≡ false → Reason)
      → Reachable sys start qs s
      → Leaves Reason qs (admitted username role rest) (
          after_welcome sys pid c2s_path s2c_path c2s s2c
            (requests username role (command_lines rest))
            (added, s))
  welcome-Leaves Reason pid c2s_path s2c_path c2s s2c qs username role rest false s why r =
      inr (why refl, outside _ r)
  welcome-Leaves Reason pid c2s_path s2c_path c2s s2c qs username role rest true s why r =
      inl (username, role, rest, refl, outside _ (left pid (handle_commands-Reachable qs _ r)))

  run-Leaves :
      (pid : ℕ) (c2s_path s2c_path : Text) (c2s s2c : ℕ) (who : Arrival) (s : ServerState W)
      (qs : List Request)
      → Reachable sys start qs s
      → Leaves (IsUnserved pid who s) qs who (run_thread sys pid c2s_path s2c_path c2s s2c who s)
  unfolding run_thread
  run-Leaves pid c2s_path s2c_path c2s s2c no_username s qs r = inr (inl refl, outside _ r)
  run-Leaves pid c2s_path s2c_path c2s s2c refused s qs r = inr (inr (inl refl), outside _ r)
  run-Leaves pid c2s_path s2c_path c2s s2c (admitted username role rest) s qs r =
      let w = welcome_client sys pid username role c2s_path s2c_path s2c s in
      welcome-Leaves (IsUnserved pid (admitted username role rest) s) pid c2s_path s2c_path c2s s2c
        qs username role rest w.0 w.1
        (λ e. inr (inr (welcome_client-IsDenied sys pid username role c2s_path s2c_path s2c s e)))
        (welcomed pid username role c2s_path s2c_path s2c r)

-- A thread that runs with no other one beside it is an order of critical sections: from a state that
-- the server reaches with some requests handled, it leads to one that the server reaches with the
-- same requests and then the lines of its client, up to DISCONNECT or QUIT, under the name that the
-- client sent and the role that the roles file has for it; or with the same requests alone, and then
-- the client sends no name, or has no role, or is not added because the document cannot be flattened or
-- a client with its number is there.
pub thread-Leaves :
    {W : Type 0} (sys : System W) (start : ServerState W) (files : Text → Option Text) (pid : ℕ)
    (c2s_path s2c_path : Text) (c2s s2c : ℕ) (input : Text) (s : ServerState W) (qs : List Request)
    → Reachable sys start qs s
    → Leaves sys start
        (IsUnserved pid (arrival files input) s)
        qs
        (arrival files input)
        (client_thread_main sys files pid c2s_path s2c_path c2s s2c input s)
unfolding client_thread_main
thread-Leaves sys start files pid c2s_path s2c_path c2s s2c input s qs r =
    run-Leaves sys start pid c2s_path s2c_path c2s s2c (arrival files input) s qs r
