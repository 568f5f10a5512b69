-- ===== src/Client/Watching.antt =====
-- What a client shows of what the server promises.
pub mod Arrivals
pub mod Runs
use collab_markdown_server.Base.{
  ℕ, ◌+◌, ◌%◌, ◌<◌, ◌≡◌, ◌≢◌, refl, ap, sym, ◌∙◌, subst, Bool, true, false, List, [], ◌∷◌, ◌++◌,
  append_assoc, append-nil, arith, length, map, if◌then◌else◌, Text, codes, word_mod,
}
use collab_markdown_server.Libc.Numbers.{decimal}
use collab_markdown_server.Libc.Streams.{fgets, is_line}
use collab_markdown_server.Command.{UserRole}
use collab_markdown_server.ServerCore.{version_line}
use collab_markdown_server.ServerCore.Session.{Request}
use collab_markdown_server.ServerCore.Spec.{Shared, spec_round}
use collab_markdown_server.ServerCore.Spec.Broadcasts.{promised_broadcast, promised_broadcasts}
use collab_markdown_server.Server.{role_to_wire_string}
use collab_markdown_server.Server.Following.Joined.{promised_welcome}
use collab_markdown_server.Client.{
  Session, receive, print_pieces, show_broadcast, client_round, client_loop, session_start,
  connection_text, Finished, finished, client_main,
}
use collab_markdown_server.Client.Welcome.{handshake-welcome}
use collab_markdown_server.Client.Broadcasts.Pieces.{join}
use collab_markdown_server.Client.Broadcasts.Rounds.{receive-command}

-- A command as the threads of the server make it: a line as their loop reads it, and a name as they
-- read it.
pub record IsCommand (q : Request) : Type 0 where
  pub input : Text
  pub read : q.line ≡ (fgets 511 input).0
  pub user : is_line q.user ≡ true
  pub short : length q.user < 128

unfoldable pub AreCommands : List Request → Type 0
AreCommands [] = Unit
AreCommands (q ∷ qs) = IsCommand q × AreCommands qs

-- The pieces of each broadcast, put together, are what is promised.
unfoldable pub Promised : Shared → List Request → List (List Text) → Type 0
Promised s [] [] = Unit
Promised s [] (r ∷ reports) = ⊥
Promised s (q ∷ qs) [] = ⊥
Promised s (q ∷ qs) (r ∷ reports) =
    (join r ≡ promised_broadcast s q) × Promised (spec_round s q).1 qs reports

-- What is printed for the pieces.
abbrev pub reports_text : List (List Text) → Text
reports_text [] = []
reports_text (r ∷ reports) = (codes "\n" ++ (print_pieces r ++ codes "> ")) ++ reports_text reports

-- One round for each of them, with nothing typed.
abbrev pub watching : List Request → List (Bool × Bool)
watching [] = []
watching (q ∷ qs) = (false, true) ∷ watching qs

session : Text → Text → Text → Text → Session
session input incoming sent printed = record {
  input = input;
  incoming = incoming;
  sent = sent;
  printed = printed;
}

show-receive :
    (input incoming sent printed : Text)
    → incoming ≢ []
    → show_broadcast (session input incoming sent printed) ≡ (
      true,
      session input
          (receive incoming).1
          sent
          (printed ++ (codes "\n" ++ (print_pieces (receive incoming).0 ++ codes "> "))),
    )
unfolding session
show-receive input [] sent printed some_of_it = absurd (some_of_it refl)
show-receive input (b ∷ incoming) sent printed some_of_it = refl

receive-promised :
    (s : Shared) (q : Request) (later : Text)
    → IsCommand q
    → (pieces : List Text) × (receive (promised_broadcast s q ++ later) ≡ (pieces, later))
      × (join pieces ≡ promised_broadcast s q)
      × (promised_broadcast s q ++ later ≢ [])
unfolding spec_round version_line
receive-promised s q later c =
    let (pieces, run, together, whole) =
      receive-command q (spec_round s q).0 ((s.version + 1) % word_mod) c.input later (omega arith)
        c.read c.user c.short in
    (pieces, run, together, λ e. let lost = ap (◌++ later) (sym whole) ∙ e in cc)

client_loop-Promised :
    (s : Shared) (qs : List Request) (input later sent printed : Text)
    → AreCommands qs
    → (reports : List (List Text)) × Promised s qs reports
      × (client_loop (watching qs) (session input (promised_broadcasts s qs ++ later) sent printed)
          ≡ session input later sent (printed ++ reports_text reports))
unfolding session client_loop client_round AreCommands Promised promised_broadcasts
client_loop-Promised s [] input later sent printed c =
    ([], tt, ap (session input later sent) (sym (append-nil printed)))
client_loop-Promised s (q ∷ qs) input later sent printed (now, others) =
    let s' = (spec_round s q).1 in
    let rest = promised_broadcasts s' qs ++ later in
    let (pieces, run, together, some_of_it) = receive-promised s q rest now in
    let shown = codes "\n" ++ (print_pieces pieces ++ codes "> ") in
    let (reports, promised, after) =
      client_loop-Promised s' qs input later sent (printed ++ shown) others in
    let split = append_assoc (promised_broadcast s q) (promised_broadcasts s' qs) later in
    let next : Bool × Session → Session = λ x. if x.0 then client_loop (watching qs) x.1 else x.1 in
    let step = show-receive input (promised_broadcast s q ++ rest) sent printed some_of_it in
    (
      pieces ∷ reports,
      (together, promised),
      ap (λ (t : Text). next (show_broadcast (session input t sent printed))) split
          ∙ (ap next step
              ∙ (ap
                    (λ (r : List Text × Text). client_loop (watching qs) (
                      session input r.1 sent
                        (printed ++ (codes "\n" ++ (print_pieces r.0 ++ codes "> ")))))
                    run
                  ∙ (after
                      ∙ ap (session input later sent)
                          (append_assoc printed shown (reports_text reports))))),
    )

-- A client that gets the welcome and the broadcasts promised for a list of commands, and that gets to
-- read one broadcast in each round, shows the role, the version and the text that the server meant and
-- then each of the broadcasts in their order, in pieces that put together are the broadcast, and
-- nothing else; it has sent its name only and ends with success: for texts of less than 2^64 - 1
-- bytes, versions below 2^64, and commands as the threads of the server read them.
pub client_main-Promised :
    (username input : Text) (role : UserRole) (s : Shared) (qs : List Request)
    → s.version < word_mod
    → length s.text + 1 < word_mod
    → AreCommands qs
    → (reports : List (List Text)) × Promised s qs reports
      × (client_main
            (watching qs)
            username
            input
            (promised_welcome role s ++ promised_broadcasts s qs)
          ≡ record {
            success = true;
            sent = username ++ codes "\n";
            printed =
                connection_text username (role_to_wire_string role) s.version s.text
                ++ reports_text reports
                ++ codes "Disconnected.\n";
          })
unfolding client_main session
client_main-Promised username input role s qs fits room c =
    let shown = connection_text username (role_to_wire_string role) s.version s.text in
    let (reports, promised, run) =
      client_loop-Promised s qs input [] (username ++ codes "\n") shown c in
    (
      reports,
      promised,
      rw (handshake-welcome role s.version s.text (promised_broadcasts s qs) fits room) (
          ap
            (λ (t : Text).
              finished (client_loop (watching qs) (session_start username shown input t)))
            (sym (append-nil _))
          ∙ ap finished run),
    )
