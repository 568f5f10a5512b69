-- ===== src/ClientRegistry/Lookup.antt =====
-- The registry holds one client for each pid, and knows how many there are.
use collab_markdown_server.Base.{
  ℕ, suc, ◌+◌, ◌%◌, ◌≡◌, ◌≢◌, refl, ap, sym, ◌∙◌, ◌⊎◌, inl, inr, true, false, Option, none, some,
  List, [], ◌∷◌, arith, ◌==◌, ==_iff, length, Text, add64, sub64, word_mod, Bool-cases,
  Option-cases,
}
use collab_markdown_server.Command.{UserRole}
use collab_markdown_server.ClientRegistry.{
  ClientConn, ClientRegistry, find_client, client_registry_find, new_client, add_client,
  client_registry_add, unlink_client,
}

-- No two clients with one pid.
abbrev AreUnique : List ClientConn → Type 0
AreUnique [] = Unit
AreUnique (c ∷ rest) = (find_client c.pid rest ≡ none) × AreUnique rest

-- One client for each pid, and a `count` of them in a `size_t`.
abbrev pub IsRegistry : ClientRegistry → Type 0
IsRegistry r = AreUnique r.clients × (r.count ≡ length r.clients % word_mod)

add64_mod : (n k : ℕ) → n ≡ k % word_mod → add64 n 1 ≡ suc k % word_mod
unfolding add64
add64_mod n k e = omega arith

sub64_mod : (n k m : ℕ) → n ≡ k % word_mod → k ≡ m + 1 → sub64 n 1 ≡ m % word_mod
unfolding sub64
sub64_mod n k m e f = omega arith

-- What is left of a list when the client with a pid is taken out of it.
pub record Without (pid : ℕ) (cs : List ClientConn) (c : ClientConn) (others : List ClientConn)
    : Type 0 where
  pub found : find_client pid cs ≡ some c
  pub size : length cs ≡ length others + 1
  pub kept : (other : ℕ) → other ≢ pid → find_client other others ≡ find_client other cs
  pub unique : AreUnique cs → AreUnique others × (find_client pid others ≡ none)

abbrev Unlinked : ℕ → List ClientConn → Option (ClientConn × List ClientConn) → Type 0
Unlinked pid cs none = find_client pid cs ≡ none
Unlinked pid cs (some (c, others)) = Without pid cs c others

module _ (pid : ℕ) (cur : ClientConn) (rest : List ClientConn) where
  Without-first : (cur.pid == pid) ≡ true → Without pid (cur ∷ rest) cur rest
  unfolding find_client
  Without-first e = record {
    found = rw e refl;
    size = omega arith;
    kept = λ other ne. ground arith;
    unique = λ u. (u.1, ap (λ (p : ℕ). find_client p rest) (sym ((==_iff cur.pid pid).0 e)) ∙ u.0);
  }

  module _ (c : ClientConn) (others : List ClientConn) (w : Without pid rest c others)
      (e : (cur.pid == pid) ≡ false) where
    apart : cur.pid ≢ pid
    apart same = ground arith

    Without-later : Without pid (cur ∷ rest) c (cur ∷ others)
    unfolding find_client
    Without-later = record {
      found = rw e w.found;
      size = omega (arith, w.size);
      kept = λ other ne. ground (arith, w.kept other ne);
      unique = λ u.
          let (others-unique, gone) = w.unique u.1 in
          ((w.kept cur.pid apart ∙ u.0, others-unique), rw e gone);
    }

pub unlink-Unlinked : (pid : ℕ) (cs : List ClientConn) → Unlinked pid cs (unlink_client pid cs)
unfolding unlink_client find_client
unlink-Unlinked pid [] = refl
unlink-Unlinked pid (cur ∷ rest) = elim (Bool-cases (cur.pid == pid)) [
  | inl e ↦ rw e (Without-first pid cur rest e)
  | inr e ↦
      let behind = unlink-Unlinked pid rest in
      elim (Option-cases (unlink_client pid rest)) [
        | inl gone ↦ rw (e, gone, e) (rw gone at behind)
        | inr ((c, others), there) ↦
            rw (e, there) (Without-later pid cur rest c others (rw there at behind) e)
      ]
]

-- `s` is the registry `r` with the client `c` added: still one client for each pid, with their
-- number; `c` is found by its pid, and every other pid finds what it found before.
pub record Added (r : ClientRegistry) (c : ClientConn) (s : ClientRegistry) : Type 0 where
  pub well_formed : IsRegistry s
  pub found : client_registry_find s c.pid ≡ some c
  pub kept :
      (other : ℕ) → other ≢ c.pid → client_registry_find s other ≡ client_registry_find r other

-- `s` is the registry `r` without the client `c`, and no client has its pid now.
pub record Removed (r : ClientRegistry) (c : ClientConn) (s : ClientRegistry) : Type 0 where
  pub well_formed : IsRegistry s
  pub gone : client_registry_find s c.pid ≡ none
  pub kept :
      (other : ℕ) → other ≢ c.pid → client_registry_find s other ≡ client_registry_find r other

module _ (r : ClientRegistry) (ok : IsRegistry r) where
  added :
      (c : ClientConn)
      → client_registry_find r c.pid ≡ none
      → Added r c (record { clients = c ∷ r.clients; count = add64 r.count 1 })
  unfolding client_registry_find find_client
  added c absent = record {
    well_formed = ((absent, ok.0), add64_mod r.count (length r.clients) ok.1);
    found = ground arith;
    kept = λ other ne. ground arith;
  }

  pub removed :
      (pid : ℕ) (c : ClientConn) (others : List ClientConn)
      → c.pid ≡ pid
      → Without pid r.clients c others
      → Removed r c (record { clients = others; count = sub64 r.count 1 })
  unfolding client_registry_find find_client
  removed pid c others same w =
      let (unique, gone) = w.unique ok.0 in
      record {
        well_formed = (unique, sub64_mod r.count (length r.clients) (length others) ok.1 w.size);
        gone = ap (λ (p : ℕ). find_client p others) same ∙ gone;
        kept = λ other ne. w.kept other (λ e. ne (e ∙ sym same));
      }

new_client-pid :
    (pid : ℕ) (username : Option Text) (role : UserRole) (c2s s2c : Option Text)
    (out_stream : Option ℕ) (c : ClientConn)
    → new_client pid username role c2s s2c out_stream ≡ some c
    → c.pid ≡ pid
new_client-pid pid (some username) role (some c2s) (some s2c) (some out_stream) c e = cc
new_client-pid pid none role c2s s2c out_stream c e = absurd cc
new_client-pid pid (some username) role none s2c out_stream c e = absurd cc
new_client-pid pid (some username) role (some c2s) none out_stream c e = absurd cc
new_client-pid pid (some username) role (some c2s) (some s2c) none c e = absurd cc

-- Adding a client to a registry with one client for each pid: where all arguments are there and no
-- client has the pid, it succeeds and the client is added; where an argument is NULL or the pid is
-- taken, it fails and the registry is as it was.
pub add-Added :
    (r : ClientRegistry) (pid : ℕ) (username : Option Text) (role : UserRole)
    (c2s s2c : Option Text) (out_stream : Option ℕ)
    → IsRegistry r
    → ((c : ClientConn) × (new_client pid username role c2s s2c out_stream ≡ some c)
        × (client_registry_find r pid ≡ none)
        × ((client_registry_add r pid username role c2s s2c out_stream).0 ≡ true)
        × Added r c (client_registry_add r pid username role c2s s2c out_stream).1)
      ⊎ (((new_client pid username role c2s s2c out_stream ≡ none)
            ⊎ ((c : ClientConn) × (client_registry_find r pid ≡ some c)))
          × (client_registry_add r pid username role c2s s2c out_stream ≡ (false, r)))
unfolding client_registry_add
add-Added r pid username role c2s s2c out_stream ok =
    elim (Option-cases (new_client pid username role c2s s2c out_stream)) [
      | inl missing ↦ inr (inl missing, rw (missing, client_registry_add) refl)
      | inr (c, there) ↦
          let same = new_client-pid pid username role c2s s2c out_stream c there in
          elim (Option-cases (client_registry_find r pid)) [
            | inl absent ↦
                let absent' = ap (client_registry_find r) same ∙ absent in
                inl (
                  c,
                  there,
                  absent,
                  rw (there, client_registry_add, add_client, absent') refl,
                  rw (there, client_registry_add, add_client, absent') (added r ok c absent'),
                )
            | inr (present, taken) ↦ inr (
              inr (present, taken),
              rw (there, client_registry_add, add_client, ap (client_registry_find r) same ∙ taken)
                  refl,
            )
          ]
    ]
