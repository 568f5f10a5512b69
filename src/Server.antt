-- ===== src/Server.antt =====
-- src/server.c: what the threads of the clients do to the shared state in their critical sections,
-- each under the mutex: a client is welcomed, a command is handled, a client leaves.
pub mod Interleaving
pub mod Linearized
pub mod Thread
pub mod Connections
pub mod Threads
pub mod Opening
pub mod Main
pub mod Following
use collab_markdown_server.Base.{
  ℕ, ◌+◌, Bool, true, false, ◌||◌, Option, none, some, List, [], ◌∷◌, ◌++◌, if◌then◌else◌, length,
  Text, codes,
}
use collab_markdown_server.Libc.Strings.{text_eq}
use collab_markdown_server.Libc.Numbers.{decimal}
use collab_markdown_server.Markdown.Document.{Heap}
use collab_markdown_server.System.{System}
use collab_markdown_server.Command.{UserRole, role_read, role_write, CommandResult}
use collab_markdown_server.ClientRegistry.{
  ClientRegistry, client_registry_init, client_registry_add, client_registry_remove,
  client_registry_broadcast,
}
use collab_markdown_server.ServerCore.{ServerCore, server_core_init, server_core_flatten_doc}
use collab_markdown_server.ServerCore.Session.{Request, Answer, round}

unfoldable pub role_to_wire_string : UserRole → Text
role_to_wire_string role_write = codes "write"
role_to_wire_string role_read = codes "read"

-- What `send_initial_document` writes: the role, the version, the length of the text and the text;
-- none where the document cannot be flattened.
unfoldable pub initial_document : UserRole → ServerCore → Heap → Option Text
initial_document role core h = elim (server_core_flatten_doc core h) [
  | none ↦ none
  | some doc_text ↦ some (
      role_to_wire_string role
      ++ (codes "\n"
          ++ (decimal core.current_version
              ++ (codes "\n" ++ (decimal (length doc_text) ++ (codes "\n" ++ doc_text))))))
]

-- The state that the threads share, and the world outside.
pub record ServerState (W : Type 0) : Type 0 where
  pub core : ServerCore
  pub heap : Heap
  pub registry : ClientRegistry
  pub world : W

-- `main`, before the first client: `doc` is the address of the document.
unfoldable pub server_start : {W : Type 0} → ℕ → Heap → W → ServerState W
server_start doc h w =
    let (core, h') = server_core_init doc h in
    record { core = core; heap = h'; registry = client_registry_init; world = w }

-- `fprintf` stands for the writes of `send_initial_document`, whose results are not looked at.
module _ {W : Type 0} (sys : System W) where
  -- The section behind the authentication; `false` where the thread gives up.
  unfoldable pub welcome_client :
      ℕ → Text → UserRole → Text → Text → ℕ → ServerState W → Bool × ServerState W
  welcome_client pid username role c2s_path s2c_path s2c s =
      elim (initial_document role s.core s.heap) [
        | none ↦ (false, s)
        | some message ↦
            let w = sys.fprintf message s2c s.world in
            let (added, registry) =
              client_registry_add s.registry pid (some username) role (some c2s_path)
                (some s2c_path) (some s2c) in
            (added, record s { registry = registry; world = w })
      ]

  -- The section around one command. The result of the broadcast is not looked at.
  unfoldable pub handle_command : Request → ServerState W → CommandResult × ServerState W
  handle_command q s =
      let a = round s.core q s.heap in
      let (sent, w) = client_registry_broadcast sys s.registry (some a.payload) s.world in
      (a.result, record { core = a.core; heap = a.heap; registry = s.registry; world = w })

  -- The section behind the loop.
  unfoldable pub client_leaves : ℕ → ServerState W → ServerState W
  client_leaves pid s =
      let (removed, registry, w) = client_registry_remove sys s.registry pid s.world in
      record s { registry = registry; world = w }
