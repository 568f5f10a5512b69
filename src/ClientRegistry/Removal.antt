-- ===== src/ClientRegistry/Removal.antt =====
-- Taking a client out of the registry.
use collab_markdown_server.Base.{
  ℕ, ◌≡◌, refl, ◌⊎◌, inl, inr, true, false, none, some, List, arith, Option-cases, [], ◌∷◌,
}
use collab_markdown_server.System.{System}
use collab_markdown_server.ClientRegistry.{
  ClientConn, ClientRegistry, find_client, client_registry_find, unlink_client, drop_client,
  client_registry_remove,
}
use collab_markdown_server.ClientRegistry.Lookup.{
  IsRegistry, Without, unlink-Unlinked, Removed, removed,
}

find-pid :
    (pid : ℕ) (cs : List ClientConn) (c : ClientConn) → find_client pid cs ≡ some c → c.pid ≡ pid
unfolding find_client
find-pid pid [] c e = absurd cc
find-pid pid (cur ∷ rest) c e = ground (arith, find-pid pid rest c)

module _ {W : Type 0} (sys : System W) where
  -- Removing a pid from a registry with one client for each pid: where a client has it, the call
  -- succeeds, unlinks the client's two FIFOs and closes its stream, and the client is gone while every
  -- other is found as before; where none has it, the call fails and changes nothing.
  pub remove-Removed :
      (r : ClientRegistry) (pid : ℕ) (w : W)
      → IsRegistry r
      → ((c : ClientConn) × (client_registry_find r pid ≡ some c)
          × ((client_registry_remove sys r pid w).0 ≡ true)
          × Removed r c (client_registry_remove sys r pid w).1
          × ((client_registry_remove sys r pid w).2
              ≡ sys.fclose c.out_stream
                  (sys.unlink c.fifo_s2c_path (sys.unlink c.fifo_c2s_path w))))
        ⊎ ((client_registry_find r pid ≡ none)
            × (client_registry_remove sys r pid w ≡ (false, r, w)))
  unfolding client_registry_remove client_registry_find drop_client
  remove-Removed r pid w ok =
      let taken = unlink-Unlinked pid r.clients in
      elim (Option-cases (unlink_client pid r.clients)) [
        | inl absent ↦ inr (rw absent at taken, rw (absent, client_registry_remove) refl)
        | inr ((c, others), there) ↦
            let without : Without pid r.clients c others = rw there at taken in
            let same = find-pid pid r.clients c without.found in
            inl (
              c,
              without.found,
              rw (there, client_registry_remove) refl,
              rw (there, client_registry_remove) (removed r ok pid c others same without),
              rw (there, client_registry_remove) refl,
            )
      ]
