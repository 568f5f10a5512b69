-- ===== src/Tests/Registry.antt =====
-- Examples for the clients: two are connected, the stream 8 answers EOF to fputs and the stream 9 to fflush.
use collab_markdown_server.Base.{
  Bool-cases, inl, inr, ◌&&◌, ℕ, ◌≡◌, ◌⊎◌, refl, Bool, true, false, not, none, some, [], ◌∷◌, ◌++◌,
  ◌==◌, if◌then◌else◌, Text, codes, arith,
}
use collab_markdown_server.System.{System, AreStreams}
use collab_markdown_server.Command.{UserRole, role_read, role_write}
use collab_markdown_server.ClientRegistry.{
  ClientConn, ClientRegistry, find_client, client_registry_find, new_client, client_registry_add,
  client_registry_remove, client_registry_broadcast, broadcast_clients, send,
}
use collab_markdown_server.ClientRegistry.Lookup.{IsRegistry, Added, add-Added, Removed}
use collab_markdown_server.ClientRegistry.Removal.{remove-Removed}
use collab_markdown_server.ClientRegistry.Broadcast.{
  reached, all_accept, is_stream_of, broadcast-reached,
}

abbrev pub Streams : Type 0
Streams = ℕ → Text

abbrev pub accepts : ℕ → Bool
accepts s = not (s == 8) && not (s == 9)

abbrev pub sys : System Streams
sys = record {
  fputs =
      λ p s w. (not (s == 8), λ k. if k == s then (if accepts s then w k ++ p else w k) else w k);
  fflush = λ s w. (accepts s, w);
  fprintf = λ p s w. λ k. if k == s then w k ++ p else w k;
  fclose = λ s w. λ k. if k == s then [] else w k;
  unlink = λ path w. w;
}

abbrev pub content : ℕ → Streams → Text
content s w = w s

pub streams : AreStreams sys content accepts
streams = record {
  put_result = λ p s w e. ground (arith, e);
  flush_result = λ s w e. e;
  refused =
      λ p s w e. elim (Bool-cases (s == 8)) [ inl same ↦ inl (rw same refl) | inr other ↦ inr e ];
  put_self = λ p s w e. ground (arith, e);
  put_other = λ p s other w ne. ground arith;
  flush_self = λ s w e. refl;
  flush_other = λ s other w ne. refl;
}

abbrev pub client : ℕ → UserRole → ℕ → ClientConn
client pid role stream = record {
  pid = pid;
  username = codes "u";
  role = role;
  fifo_c2s_path = codes "FIFO_C2S";
  fifo_s2c_path = codes "FIFO_S2C";
  out_stream = stream;
}

abbrev pub registry : ClientRegistry
registry = record {
  clients = client 12 role_read 4 ∷ client 11 role_write 9 ∷ client 10 role_write 5 ∷ [];
  count = 3;
}

well_formed : IsRegistry registry
unfolding find_client
well_formed = ((refl, (refl, (refl, tt))), omega arith)

abbrev pub quiet : Streams
quiet s = []

add-Added_example :
    ((c : ClientConn) × (new_client 13 (some (codes "ann")) role_read (some []) (some []) (some 6)
        ≡ some c)
      × (client_registry_find registry 13 ≡ none)
      × ((client_registry_add registry 13
            (some (codes "ann"))
            role_read
            (some [])
            (some [])
            (some 6)).0
          ≡ true)
      × Added registry c
          (client_registry_add registry 13
            (some (codes "ann"))
            role_read
            (some [])
            (some [])
            (some 6)).1)
    ⊎ (((new_client 13 (some (codes "ann")) role_read (some []) (some []) (some 6) ≡ none)
          ⊎ ((c : ClientConn) × (client_registry_find registry 13 ≡ some c)))
        × (client_registry_add registry 13
              (some (codes "ann"))
              role_read
              (some [])
              (some [])
              (some 6)
            ≡ (false, registry)))
add-Added_example =
    add-Added registry 13 (some (codes "ann")) role_read (some []) (some []) (some 6) well_formed

remove-Removed_example :
    ((c : ClientConn) × (client_registry_find registry 11 ≡ some c)
      × ((client_registry_remove sys registry 11 quiet).0 ≡ true)
      × Removed registry c (client_registry_remove sys registry 11 quiet).1
      × ((client_registry_remove sys registry 11 quiet).2
          ≡ sys.fclose c.out_stream
              (sys.unlink c.fifo_s2c_path (sys.unlink c.fifo_c2s_path quiet))))
    ⊎ ((client_registry_find registry 11 ≡ none)
        × (client_registry_remove sys registry 11 quiet ≡ (false, registry, quiet)))
remove-Removed_example = remove-Removed sys registry 11 quiet well_formed

broadcast-reached_example :
    ((client_registry_broadcast sys registry (some (codes "END\n")) quiet).0
      ≡ all_accept accepts registry.clients)
    × ((s : ℕ)
        → accepts s ≡ true
        → content s (client_registry_broadcast sys registry (some (codes "END\n")) quiet).1 ≡ (
            if is_stream_of s (reached accepts registry.clients)
            then content s quiet ++ codes "END\n"
            else content s quiet))
broadcast-reached_example =
    broadcast-reached sys content accepts streams registry (codes "END\n") quiet
      (refl, (refl, (refl, tt)))

-- The client behind the one with the stream 9 gets nothing.
stops_early : content 5 (client_registry_broadcast sys registry (some (codes "END\n")) quiet).1 ≡ []
unfolding client_registry_broadcast broadcast_clients send
stops_early = refl
