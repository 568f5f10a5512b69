-- ===== src/ClientRegistry/Broadcast.antt =====
-- Whom a broadcast reaches.
use collab_markdown_server.Base.{
  ℕ, subst, ◌≡◌, ◌≢◌, refl, ap, sym, ◌∙◌, inl, inr, Bool, true, false, ◌&&◌, ◌||◌, some, List,
  arith, Text, ◌==◌, ==_iff, [], ◌∷◌, ◌++◌, Bool-cases, if◌then◌else◌,
}
use collab_markdown_server.System.{System, AreStreams}
use collab_markdown_server.ClientRegistry.{
  ClientConn, ClientRegistry, send, broadcast_clients, client_registry_broadcast,
}

abbrev pub is_stream_of : ℕ → List ClientConn → Bool
is_stream_of s [] = false
is_stream_of s (c ∷ rest) = (s == c.out_stream) || is_stream_of s rest

-- Every client has a stream of its own.
abbrev pub HaveStreams : List ClientConn → Type 0
HaveStreams [] = Unit
HaveStreams (c ∷ rest) = (is_stream_of c.out_stream rest ≡ false) × HaveStreams rest

-- The clients before the first one whose stream does not accept.
unfoldable pub reached : (ℕ → Bool) → List ClientConn → List ClientConn
reached accepts [] = []
reached accepts (c ∷ rest) =
    let behind = reached accepts rest in if accepts c.out_stream then c ∷ behind else []

unfoldable pub all_accept : (ℕ → Bool) → List ClientConn → Bool
all_accept accepts [] = true
all_accept accepts (c ∷ rest) = accepts c.out_stream && all_accept accepts rest

not_reached :
    (accepts : ℕ → Bool) (s : ℕ) (cs : List ClientConn)
    → is_stream_of s cs ≡ false
    → is_stream_of s (reached accepts cs) ≡ false
unfolding reached
not_reached accepts s [] e = refl
not_reached accepts s (c ∷ rest) e = ground (arith, not_reached accepts s rest)

absurd_of : {A : Type 0} → true ≡ false → A
absurd_of e = absurd cc

module _ {W : Type 0} (sys : System W) (content : ℕ → W → Text) (accepts : ℕ → Bool)
    (streams : AreStreams sys content accepts) where
  abbrev sending : Text → ClientConn → W → Bool × W
  sending = send sys

  module _ (p : Text) (c : ClientConn) (w : W) where
    send-accepted :
        accepts c.out_stream ≡ true
        → ((sending p c w).0 ≡ true)
          × (content c.out_stream (sending p c w).1 ≡ content c.out_stream w ++ p)
          × ((other : ℕ) → other ≢ c.out_stream → content other (sending p c w).1 ≡ content other w)
    unfolding send
    send-accepted e = rw (streams.put_result p c.out_stream w e) (
      streams.flush_result c.out_stream _ e,
      streams.flush_self c.out_stream _ e ∙ streams.put_self p c.out_stream w e,
      λ other ne.
          streams.flush_other c.out_stream other _ ne ∙ streams.put_other p c.out_stream other w ne,
    )

    send-refused :
        accepts c.out_stream ≡ false
        → ((sending p c w).0 ≡ false)
          × ((other : ℕ) → other ≢ c.out_stream → content other (sending p c w).1 ≡ content other w)
    unfolding send
    send-refused e = elim (Bool-cases (sys.fputs p c.out_stream w).0) [
      | inr put ↦ rw put (refl, λ other ne. streams.put_other p c.out_stream other w ne)
      | inl put ↦ elim (streams.refused p c.out_stream w e) [
        | inl not_put ↦ absurd_of (sym put ∙ not_put)
        | inr not_flushed ↦ rw put (
          not_flushed,
          λ other ne.
              streams.flush_other c.out_stream other _ ne
              ∙ streams.put_other p c.out_stream other w ne,
        )
      ]
    ]

  -- What stands in a stream that accepts: one more copy of the payload if a client that was reached
  -- has it.
  abbrev received : Text → List ClientConn → W → ℕ → Text
  received p cs w s = if is_stream_of s (reached accepts cs) then content s w ++ p else content s w

  received-step :
      (p : Text) (c : ClientConn) (rest : List ClientConn) (w : W) (s : ℕ)
      → accepts c.out_stream ≡ true
      → is_stream_of c.out_stream rest ≡ false
      → received p rest (sending p c w).1 s ≡ received p (c ∷ rest) w s
  unfolding reached
  received-step p c rest w s e own =
      let (_, self, other) = send-accepted p c w e in
      elim (Bool-cases (s == c.out_stream)) [
        | inl same ↦
            let at = (==_iff s c.out_stream).0 same in
            let behind =
              not_reached accepts s rest (ap (λ (k : ℕ). is_stream_of k rest) at ∙ own) in
            rw (behind, e, same)
              (subst (λ (k : ℕ). content k (sending p c w).1 ≡ content k w ++ p) (sym at) self)
        | inr differs ↦ rw (e, differs, other s (λ at. ground (arith, at, differs))) refl
      ]

  abbrev Reaches : Text → List ClientConn → W → Bool × W → Type 0
  Reaches p cs w (done, w') =
      (done ≡ all_accept accepts cs)
      × ((s : ℕ) → accepts s ≡ true → content s w' ≡ received p cs w s)

  broadcast-Reaches :
      (p : Text) (cs : List ClientConn) (w : W)
      → HaveStreams cs
      → Reaches p cs w (broadcast_clients sys p cs w)
  unfolding broadcast_clients reached all_accept
  broadcast-Reaches p [] w own = (refl, λ s e. refl)
  broadcast-Reaches p (c ∷ rest) w (own, others) = elim (Bool-cases (accepts c.out_stream)) [
    | inl e ↦
        let (sent, self, other) = send-accepted p c w e in
        let (done, got) = broadcast-Reaches p rest (sending p c w).1 others in
        rw (sent, e)
          (done, λ s a. got s a ∙ (received-step p c rest w s e own ∙ rw (reached, e) refl))
    | inr e ↦
        let (sent, other) = send-refused p c w e in
        rw (sent, e) (refl, λ s a. other s (λ at. absurd_of (sym a ∙ (ap accepts at ∙ e))))
  ]

  -- A broadcast to clients that have a stream each succeeds just if all their streams accept, which
  -- means that fputs and fflush succeed; each client before the first whose stream does not, because
  -- either of the calls answers EOF, gets the payload once, and no other stream that accepts gets
  -- anything. No SIGPIPE is raised meanwhile.
  pub broadcast-reached :
      (r : ClientRegistry) (p : Text) (w : W)
      → HaveStreams r.clients
      → ((client_registry_broadcast sys r (some p) w).0 ≡ all_accept accepts r.clients)
        × ((s : ℕ)
            → accepts s ≡ true
            → content s (client_registry_broadcast sys r (some p) w).1 ≡ (
                if is_stream_of s (reached accepts r.clients)
                then content s w ++ p
                else content s w))
  unfolding client_registry_broadcast
  broadcast-reached r p w own = broadcast-Reaches p r.clients w own
