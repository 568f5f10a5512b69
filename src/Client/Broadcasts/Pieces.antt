-- ===== src/Client/Broadcasts/Pieces.antt =====
-- How the loop behind a VERSION line reads lines, in pieces where they are long, up to the line END.
use collab_markdown_server.Base.{
  ℕ, zero, suc, ◌+◌, ◌-◌, ◌≤◌, ◌<◌, ◌≡◌, ◌≢◌, refl, ap, sym, ◌∙◌, subst, Bool-cases, inl, inr, true,
  List, [], ◌∷◌, ◌++◌, append_assoc, arith, length, length-append, length-take, length-drop, take,
  drop, take-append-drop, take-append, drop-length_le, drop-append_right, get_or, Text, codes, ltb,
  ltb→lt, ltb→le,
}
use collab_markdown_server.Libc.Strings.{text_eq, text_eq-ne}
use collab_markdown_server.Libc.Strings.Tokens.{is_token}
use collab_markdown_server.Libc.Streams.{fgets, fgets-line, fgets_long, is_line}
use collab_markdown_server.Command.{
  CommandResult, command_result_to_string, cmd_success, reject_unauthorised,
  reject_invalid_position, reject_deleted_position, reject_outdated_version, reject_invalid_command,
}
use collab_markdown_server.ServerCore.{end_line}
use collab_markdown_server.Client.{broadcast_pieces}

abbrev pub join : List Text → Text
join [] = []
join (piece ∷ pieces) = piece ++ join pieces

abbrev NotEnd : Text → Type 0
NotEnd l = (n : ℕ) → drop n l ≢ codes "END"

drop-drop : (n m : ℕ) (l : Text) → drop n (drop m l) ≡ drop (m + n) l
drop-drop n zero l = ap (λ (k : ℕ). drop k l) (omega arith)
drop-drop n (suc m) [] =
    drop-length_le n [] (omega arith) ∙ sym (drop-length_le (suc m + n) [] (omega arith))
drop-drop n (suc m) (c ∷ l) =
    let e : suc m + n ≡ suc (m + n) = omega arith in rw e (drop-drop n m l)

NotEnd-drop : (m : ℕ) (l : Text) → NotEnd l → NotEnd (drop m l)
NotEnd-drop m l h n e = h (m + n) (sym (drop-drop n m l) ∙ e)

bytes_end : (t : Text) → t ≡ codes "END" → (get_or t 0 0 ≡ b'E') × (get_or t 1 0 ≡ b'N')
bytes_end t e = (ap (λ (u : Text). get_or u 0 0) e, ap (λ (u : Text). get_or u 1 0) e)

-- The last three bytes of no result are END.
result-ends_otherwise :
    (r : CommandResult)
    → drop (length (command_result_to_string r) - 3) (command_result_to_string r) ≢ codes "END"
unfolding command_result_to_string
result-ends_otherwise cmd_success e = omega (arith, (bytes_end _ e).1)
result-ends_otherwise reject_unauthorised e = omega (arith, (bytes_end _ e).0)
result-ends_otherwise reject_invalid_position e = omega (arith, (bytes_end _ e).0)
result-ends_otherwise reject_deleted_position e = omega (arith, (bytes_end _ e).0)
result-ends_otherwise reject_outdated_version e = omega (arith, (bytes_end _ e).0)
result-ends_otherwise reject_invalid_command e = omega (arith, (bytes_end _ e).0)

result-length : (r : CommandResult) → 3 ≤ length (command_result_to_string r)
unfolding command_result_to_string
result-length cmd_success = omega arith
result-length reject_unauthorised = omega arith
result-length reject_invalid_position = omega arith
result-length reject_deleted_position = omega arith
result-length reject_outdated_version = omega arith
result-length reject_invalid_command = omega arith

pub result-NotEnd :
    (front : Text) (r : CommandResult) → NotEnd (front ++ command_result_to_string r)
result-NotEnd front r n e =
    let w = command_result_to_string r in
    let long = result-length r in
    let three = ap length e in
    let all = length-append front w in
    let cut = length-drop n (front ++ w) in
    result-ends_otherwise r (sym (drop-append_right n (length w - 3) front w (omega arith)) ∙ e)

-- What `broadcast_pieces` reads of a text, and what it leaves, whatever the fuel.
abbrev pub Reads : Text → Text → Text → Type 0
Reads s text later =
    (fuel : ℕ)
    → length s ≤ fuel
    → (pieces : List Text) × (broadcast_pieces fuel s ≡ (pieces, later)) × (join pieces ≡ text)

pub Reads-end : (later : Text) → Reads (end_line ++ later) end_line later
unfolding broadcast_pieces fgets text_eq
Reads-end later zero enough = absurd (omega arith)
Reads-end later (suc fuel) enough = (end_line ∷ [], refl, refl)

Reads-piece :
    (s output rest text later : Text)
    → 0 < length output
    → output ≢ codes "END\n"
    → s ≡ output ++ rest
    → fgets 511 s ≡ (output, rest)
    → Reads rest text later
    → Reads s (output ++ text) later
unfolding broadcast_pieces
Reads-piece [] output rest text later some_byte other e cut next fuel enough =
    absurd (omega (arith, ap length e, length-append output rest))
Reads-piece (c ∷ s) output rest text later some_byte other e cut next zero enough =
    absurd (omega arith)
Reads-piece (c ∷ s) output rest text later some_byte other e cut next (suc fuel) enough =
    let size : length rest ≤ fuel = omega (arith, ap length e, length-append output rest) in
    let (pieces, run, whole) = next fuel size in
    (
      output ∷ pieces,
      rw (cut, run, text_eq-ne output (codes "END\n") other) refl,
      ap (output ++◌) whole,
    )

drop-is_line : (n : ℕ) (l : Text) → is_line l ≡ true → is_line (drop n l) ≡ true
unfolding is_token
drop-is_line zero l h = h
drop-is_line (suc n) [] h = refl
drop-is_line (suc n) (c ∷ l) h = ground (arith, drop-is_line n l)

line-ne_end : (l : Text) → l ≢ codes "END" → l ++ (b'\n' ∷ []) ≢ codes "END\n"
line-ne_end l h e =
    let three : 3 ≡ length l = omega (arith, ap length e, length-append l (b'\n' ∷ [])) in
    h (sym (take-append 3 l (b'\n' ∷ []) three) ∙ ap (take 3) e)

module _ (l s text later : Text) (h : is_line l ≡ true) where
  -- A line that fits, and the first piece of one that does not.
  Reads-short :
      l ≢ codes "END"
      → length l < 511
      → Reads s text later
      → Reads (l ++ (b'\n' ∷ s)) (l ++ (b'\n' ∷ text)) later
  Reads-short other short next =
      subst (λ (t : Text). Reads (l ++ (b'\n' ∷ s)) t later) (append_assoc l (b'\n' ∷ []) text)
        (Reads-piece (l ++ (b'\n' ∷ s)) (l ++ (b'\n' ∷ [])) s text later
          (omega (arith, length-append l (b'\n' ∷ []))) (line-ne_end l other)
          (sym (append_assoc l (b'\n' ∷ []) s)) (fgets-line 511 l s h short) next)

  take-ne_end : 511 ≤ length l → take 511 l ≢ codes "END\n"
  take-ne_end long e = omega (arith, ap length e, length-take 511 l)

  Reads-long :
      511 ≤ length l
      → Reads (drop 511 l ++ (b'\n' ∷ s)) (drop 511 l ++ (b'\n' ∷ text)) later
      → Reads (l ++ (b'\n' ∷ s)) (l ++ (b'\n' ∷ text)) later
  Reads-long long next =
      let cut = λ (t : Text).
        sym (ap (λ (u : Text). u ++ t) (take-append-drop 511 l))
        ∙ append_assoc (take 511 l) (drop 511 l) t in
      subst (λ (t : Text). Reads (l ++ (b'\n' ∷ s)) t later) (sym (cut (b'\n' ∷ text)))
        (Reads-piece (l ++ (b'\n' ∷ s)) (take 511 l) (drop 511 l ++ (b'\n' ∷ s))
          (drop 511 l ++ (b'\n' ∷ text)) later (omega (arith, length-take 511 l)) (take-ne_end long)
          (cut (b'\n' ∷ s)) (fgets_long 511 l (b'\n' ∷ s) h long) next)

-- A line, however long; the first argument bounds its length.
pub Reads-line :
    (k : ℕ) (l s text later : Text)
    → length l ≤ k
    → is_line l ≡ true
    → NotEnd l
    → Reads s text later
    → Reads (l ++ (b'\n' ∷ s)) (l ++ (b'\n' ∷ text)) later
Reads-line zero l s text later bound h ends next =
    Reads-short l s text later h (ends 0) (omega arith) next
Reads-line (suc k) l s text later bound h ends next =
    let behind = λ (long : 511 ≤ length l).
      Reads-line k (drop 511 l) s text later (omega (arith, length-drop 511 l))
        (drop-is_line 511 l h) (NotEnd-drop 511 l ends) next in
    elim (Bool-cases (ltb (length l) 511)) [
      | inl e ↦ Reads-short l s text later h (ends 0) (ltb→lt _ _ e) next
      | inr e ↦ Reads-long l s text later h (ltb→le _ _ e) (behind (ltb→le _ _ e))
    ]
