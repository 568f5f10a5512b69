-- ===== src/ClientRegistry.antt =====
-- src/client_registry.c and include/client_registry.h: the clients that are connected. The calls of
-- the system (fputs, fflush, fclose, unlink) are parameters, on a state `W` of the world outside.
pub mod Lookup
pub mod Removal
pub mod Broadcast
pub mod Streams
use collab_markdown_server.Base.{
  ℕ, Bool, true, false, Option, none, some, List, [], ◌∷◌, ◌==◌, if◌then◌else◌, Text, add64, sub64,
}
use collab_markdown_server.System.{System}
use collab_markdown_server.Command.{UserRole}

-- `out_stream` is the handle of a stream. `client_registry_add` lets no NULL in.
pub record ClientConn : Type 0 where
  pub pid : ℕ
  pub username : Text
  pub role : UserRole
  pub fifo_c2s_path : Text
  pub fifo_s2c_path : Text
  pub out_stream : ℕ

-- The list from `head`.
pub record ClientRegistry : Type 0 where
  pub clients : List ClientConn
  pub count : ℕ

abbrev pub client_registry_init : ClientRegistry
client_registry_init = record { clients = []; count = 0 }

unfoldable pub find_client : ℕ → List ClientConn → Option ClientConn
find_client pid [] = none
find_client pid (cur ∷ rest) = if cur.pid == pid then some cur else find_client pid rest

unfoldable pub client_registry_find : ClientRegistry → ℕ → Option ClientConn
client_registry_find registry pid = find_client pid registry.clients

-- The client whose arguments are all there, or none where a NULL is among them.
abbrev pub new_client :
    ℕ → Option Text → UserRole → Option Text → Option Text → Option ℕ → Option ClientConn
new_client pid (some username) role (some c2s) (some s2c) (some out_stream) = some (record {
  pid = pid;
  username = username;
  role = role;
  fifo_c2s_path = c2s;
  fifo_s2c_path = s2c;
  out_stream = out_stream;
})
new_client pid _ role _ _ _ = none

-- `true` stands for the result 0, `false` for -1.
abbrev pub add_client : ClientRegistry → ClientConn → Bool × ClientRegistry
add_client registry client = elim (client_registry_find registry client.pid) [
  | some present ↦ (false, registry)
  | none ↦ (true, record { clients = client ∷ registry.clients; count = add64 registry.count 1 })
]

unfoldable pub client_registry_add :
    ClientRegistry
    → ℕ
    → Option Text
    → UserRole
    → Option Text
    → Option Text
    → Option ℕ
    → Bool × ClientRegistry
client_registry_add registry pid username role c2s s2c out_stream =
    elim (new_client pid username role c2s s2c out_stream) [
      | none ↦ (false, registry)
      | some client ↦ add_client registry client
    ]

-- The first client with the pid, and the list without it.
unfoldable pub unlink_client : ℕ → List ClientConn → Option (ClientConn × List ClientConn)
unlink_client pid [] = none
unlink_client pid (cur ∷ rest) =
    let behind = unlink_client pid rest in
    if cur.pid == pid
    then some (cur, rest)
    else elim behind [ none ↦ none | some (found, others) ↦ some (found, cur ∷ others) ]

unfoldable client_registry_count : ClientRegistry → ℕ
client_registry_count registry = registry.count

module _ {W : Type 0} (sys : System W) where
  -- `client_conn_free` closes the stream; its paths were unlinked before.
  unfoldable pub drop_client : ClientConn → W → W
  drop_client c w =
      sys.fclose c.out_stream (sys.unlink c.fifo_s2c_path (sys.unlink c.fifo_c2s_path w))

  unfoldable pub client_registry_remove : ClientRegistry → ℕ → W → Bool × ClientRegistry × W
  client_registry_remove registry pid w = elim (unlink_client pid registry.clients) [
    | none ↦ (false, registry, w)
    | some (cur, others) ↦
        (true, record { clients = others; count = sub64 registry.count 1 }, drop_client cur w)
  ]

  unfoldable pub free_clients : List ClientConn → W → W
  free_clients [] w = w
  free_clients (c ∷ rest) w = free_clients rest (drop_client c w)

  unfoldable pub client_registry_free : ClientRegistry → W → W
  client_registry_free registry w = free_clients registry.clients w

  -- The writes to one client; `false` where one of them returns EOF.
  unfoldable pub send : Text → ClientConn → W → Bool × W
  send payload c w =
      let (put, w1) = sys.fputs payload c.out_stream w in
      if put then sys.fflush c.out_stream w1 else (false, w1)

  unfoldable pub broadcast_clients : Text → List ClientConn → W → Bool × W
  broadcast_clients payload [] w = (true, w)
  broadcast_clients payload (c ∷ rest) w =
      let (sent, w1) = send payload c w in
      let others = broadcast_clients payload rest w1 in if sent then others else (false, w1)

  unfoldable pub client_registry_broadcast : ClientRegistry → Option Text → W → Bool × W
  client_registry_broadcast registry none w = (false, w)
  client_registry_broadcast registry (some payload) w = broadcast_clients payload registry.clients w
