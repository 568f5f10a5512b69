-- ===== src/Libc/Streams.antt =====
-- fgets on a stream that holds a text and then ends: lines, and longer lines in pieces.
use collab_markdown_server.Base.{
  ℕ, zero, suc, ◌≤◌, ◌<◌, ◌≡◌, ◌≢◌, refl, ap, Bool, true, [], ◌∷◌, ◌++◌, ◌==◌, if◌then◌else◌, arith,
  length, length-append, take, drop, Text, Bool-cases, inl, inr,
}
use collab_markdown_server.Libc.Strings.Tokens.{is_token}

-- fgets with room for `n` bytes before the NUL: the line that it reads, and what is left.
unfoldable pub fgets : ℕ → Text → Text × Text
fgets zero s = ([], s)
fgets (suc n) [] = ([], [])
fgets (suc n) (c ∷ s) =
    let (line, rest) = fgets n s in if c == b'\n' then (c ∷ [], s) else (c ∷ line, rest)

-- No newline in the text.
abbrev pub is_line : Text → Bool
is_line = is_token (λ c. c == b'\n')

-- A line that fits is read whole, with its newline.
pub fgets-line :
    (n : ℕ) (l rest : Text)
    → is_token (λ c. c == b'\n') l ≡ true
    → length l < n
    → fgets n (l ++ (b'\n' ∷ rest)) ≡ (l ++ (b'\n' ∷ []), rest)
unfolding fgets is_token
fgets-line zero l rest h short = absurd (omega arith)
fgets-line (suc n) [] rest h short = refl
fgets-line (suc n) (c ∷ l) rest h short = ground (arith, fgets-line n l rest)

-- The last line, if it ends without a newline.
pub fgets-last :
    (n : ℕ) (l : Text) → is_token (λ c. c == b'\n') l ≡ true → length l < n → fgets n l ≡ (l, [])
unfolding fgets is_token
fgets-last zero l h short = absurd (omega arith)
fgets-last (suc n) [] h short = refl
fgets-last (suc n) (c ∷ l) h short = ground (arith, fgets-last n l)

-- What one call has read, another call reads again in one piece from the same bytes, whatever is put
-- behind them, and nothing is if they were the last.
pub fgets_again :
    (n : ℕ) (s more : Text)
    → ((fgets n s).1 ≡ [] → more ≡ [])
    → fgets n ((fgets n s).0 ++ more) ≡ ((fgets n s).0, more)
unfolding fgets
fgets_again zero s more last = refl
fgets_again (suc n) [] more last = rw (last refl) refl
fgets_again (suc n) (c ∷ s) more last = elim (Bool-cases (c == b'\n')) [
  | inl end ↦ rw (end, end) refl
  | inr other ↦
      let again = fgets_again n s more (λ e. last (rw other e)) in rw (other, other, again) refl
]

-- The first piece of a line that is too long.
pub fgets_long :
    (n : ℕ) (l rest : Text)
    → is_line l ≡ true
    → n ≤ length l
    → fgets n (l ++ rest) ≡ (take n l, drop n l ++ rest)
unfolding fgets is_token
fgets_long zero l rest h long = refl
fgets_long (suc n) [] rest h long = absurd (omega arith)
fgets_long (suc n) (c ∷ l) rest h long = ground (arith, fgets_long n l rest)

-- fgets only cuts the text.
pub fgets-append : (n : ℕ) (s : Text) → (fgets n s).0 ++ (fgets n s).1 ≡ s
unfolding fgets
fgets-append zero s = refl
fgets-append (suc n) [] = refl
fgets-append (suc n) (c ∷ s) = elim (Bool-cases (c == b'\n')) [
  | inl end ↦ rw end refl
  | inr other ↦ rw other (ap (c ∷◌) (fgets-append n s))
]

-- It reads something where there is something.
pub fgets-ne_nil : (n c : ℕ) (s : Text) → (fgets (suc n) (c ∷ s)).0 ≢ []
unfolding fgets
fgets-ne_nil n c s = elim (Bool-cases (c == b'\n')) [
  | inl end ↦ rw end (λ e. cc)
  | inr other ↦ rw other (λ e. cc)
]

pub fgets-shorter : (n c : ℕ) (s : Text) → length (fgets (suc n) (c ∷ s)).1 ≤ length s
unfolding fgets
fgets-shorter n c s = elim (Bool-cases (c == b'\n')) [
  | inl end ↦ rw end (omega arith)
  | inr other ↦ rw other (
      let whole = ap length (fgets-append n s) in
      omega (arith, whole, length-append (fgets n s).0 (fgets n s).1))
]
