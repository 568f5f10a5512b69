-- ===== src/Server/Thread/Loop.antt =====
-- The lines that the command loop of a thread reads.
use collab_markdown_server.Base.{
  ℕ, zero, suc, ◌≤◌, ◌<◌, ◌≡◌, ◌≢◌, refl, ap, ◌∙◌, ◌⊎◌, inl, inr, true, false, List, [], ◌∷◌, ◌++◌,
  map, arith, length, length-append, Text, codes, if◌then◌else◌,
}
use mathlib.Core.List.{append_cancel_right}
use collab_markdown_server.Libc.Strings.{text_eq, text_eq-ne}
use collab_markdown_server.Libc.Strings.Tokens.{is_token}
use collab_markdown_server.Libc.Streams.{fgets, fgets-shorter, is_line, fgets-line}
use collab_markdown_server.Server.Thread.{read_commands, command_lines, is_disconnect}

-- Any fuel for the length of the text is enough.
pub read_commands-fuel :
    (fuel more : ℕ) (s : Text)
    → length s ≤ fuel
    → length s ≤ more
    → read_commands fuel s ≡ read_commands more s
unfolding read_commands
read_commands-fuel zero zero s enough enough' = refl
read_commands-fuel zero (suc more) [] enough enough' = refl
read_commands-fuel zero (suc more) (c ∷ s) enough enough' = absurd (omega arith)
read_commands-fuel (suc fuel) zero [] enough enough' = refl
read_commands-fuel (suc fuel) zero (c ∷ s) enough enough' = absurd (omega arith)
read_commands-fuel (suc fuel) (suc more) [] enough enough' = refl
read_commands-fuel (suc fuel) (suc more) (c ∷ s) enough enough' =
    let less = fgets-shorter 510 c s in
    let later = read_commands-fuel fuel more (fgets 511 (c ∷ s)).1 (omega arith) (omega arith) in
    ap
      (λ (lines : List Text).
        if is_disconnect (fgets 511 (c ∷ s)).0 then [] else (fgets 511 (c ∷ s)).0 ∷ lines)
      later

-- Lines without a newline that fit the buffer and do not end the loop.
abbrev pub AreTyped : List Text → Type 0
AreTyped [] = Unit
AreTyped (l ∷ ls) =
    ((is_line l ≡ true) × (length l < 511) × (l ≢ codes "DISCONNECT") × (l ≢ codes "QUIT"))
    × AreTyped ls

-- The lines, each with its newline, and what comes behind them.
abbrev pub typed_lines : List Text → Text → Text
typed_lines [] end = end
typed_lines (l ∷ ls) end = l ++ (b'\n' ∷ typed_lines ls end)

-- The stream ends, or a line ends the loop, whatever is behind it.
abbrev pub EndsLoop : Text → Type 0
EndsLoop end =
    (end ≡ [])
    ⊎ ((rest : Text) × ((end ≡ codes "DISCONNECT\n" ++ rest) ⊎ (end ≡ codes "QUIT\n" ++ rest)))

-- A round of the loop, given the line that it has read and what is left.
abbrev round_of : ℕ → Text × Text → List Text
round_of fuel (line, rest) =
    let later = read_commands fuel rest in if is_disconnect line then [] else line ∷ later

read_commands-round :
    (fuel : ℕ) (l more : Text)
    → is_line l ≡ true
    → length l < 511
    → read_commands (suc fuel) (l ++ (b'\n' ∷ more)) ≡ round_of fuel (l ++ (b'\n' ∷ []), more)
unfolding read_commands
read_commands-round fuel [] more h short = ap (round_of fuel) (fgets-line 511 [] more h short)
read_commands-round fuel (c ∷ l) more h short =
    ap (round_of fuel) (fgets-line 511 (c ∷ l) more h short)

goes_on-is_disconnect :
    (l : Text)
    → l ≢ codes "DISCONNECT"
    → l ≢ codes "QUIT"
    → is_disconnect (l ++ (b'\n' ∷ [])) ≡ false
unfolding is_disconnect
goes_on-is_disconnect l no_disconnect no_quit =
    let line = l ++ (b'\n' ∷ []) in
    rw
      (
        text_eq-ne line (codes "DISCONNECT\n")
            (λ e. no_disconnect (append_cancel_right l (codes "DISCONNECT") (b'\n' ∷ []) e)),
        text_eq-ne line (codes "QUIT\n")
            (λ e. no_quit (append_cancel_right l (codes "QUIT") (b'\n' ∷ []) e)),
      )
      refl

read_commands-end :
    (fuel : ℕ) (end : Text) → EndsLoop end → length end ≤ fuel → read_commands fuel end ≡ []
unfolding read_commands is_disconnect text_eq is_token
read_commands-end zero end ends enough = refl
read_commands-end (suc fuel) end (inl none_left) enough = rw none_left refl
read_commands-end (suc fuel) end (inr (rest, inl e)) enough =
    rw e (read_commands-round fuel (codes "DISCONNECT") rest refl (omega arith))
read_commands-end (suc fuel) end (inr (rest, inr e)) enough =
    rw e (read_commands-round fuel (codes "QUIT") rest refl (omega arith))

read_commands-typed_lines :
    (fuel : ℕ) (ls : List Text) (end : Text)
    → AreTyped ls
    → EndsLoop end
    → length (typed_lines ls end) ≤ fuel
    → read_commands fuel (typed_lines ls end) ≡ map (λ l. l ++ (b'\n' ∷ [])) ls
read_commands-typed_lines fuel [] end typed ends enough = read_commands-end fuel end ends enough
read_commands-typed_lines zero (l ∷ ls) end typed ends enough =
    absurd (omega (arith, length-append l (b'\n' ∷ typed_lines ls end), enough))
read_commands-typed_lines (suc fuel) (l ∷ ls) end ((h, short, no_disconnect, no_quit), others) ends
      enough =
    let later =
      read_commands-typed_lines fuel ls end others ends
        (omega (arith, length-append l (b'\n' ∷ typed_lines ls end), enough)) in
    read_commands-round fuel l (typed_lines ls end) h short
    ∙ rw (goes_on-is_disconnect l no_disconnect no_quit, later) refl

-- Of lines of at most 510 bytes that are neither DISCONNECT nor QUIT, each with its newline, and then the
-- end of the stream, or a line DISCONNECT or QUIT and anything behind it, the command loop reads exactly
-- those lines, in their order, and nothing behind them; and it does so with any fuel that is at least the
-- number of the bytes.
pub command_lines-typed_lines :
    (fuel : ℕ) (ls : List Text) (end : Text)
    → AreTyped ls
    → EndsLoop end
    → length (typed_lines ls end) ≤ fuel
    → let lines = map (λ (l : Text). l ++ (b'\n' ∷ [])) ls in
      (command_lines (typed_lines ls end) ≡ lines)
      × (read_commands fuel (typed_lines ls end) ≡ lines)
unfolding command_lines
command_lines-typed_lines fuel ls end typed ends enough = (
  read_commands-typed_lines (length (typed_lines ls end)) ls end typed ends (omega arith),
  read_commands-typed_lines fuel ls end typed ends enough,
)
