-- ===== src/Libc/Numbers/Signed.antt =====
-- strtol with base 10, and the conversion of a long to an int.
use collab_markdown_server.Base.{
  ℕ, zero, suc, ◌+◌, ◌-◌, ◌%◌, ◌^◌, ◌≡◌, ◌≢◌, refl, ◌∙◌, Bool, true, false, ◌&&◌, Option, none,
  some, [], ◌∷◌, arith, ltb, leb, ◌==◌, min, if◌then◌else◌, Text,
}
use collab_markdown_server.Libc.Strings.{is_space, skip_while}
use collab_markdown_server.Libc.Numbers.{read_digits, decimal}
use collab_markdown_server.Libc.Numbers.RoundTrip.{
  is_digit, are_digits, decimal-are_digits, decimal-ne_nil, read-decimal, first_digit, skip-digit,
}

-- `negsuc n` is -(n + 1).
pub data ℤ : Type 0 where
  pos : ℕ → ℤ
  negsuc : ℕ → ℤ

unfoldable negate : ℕ → ℤ
negate zero = pos 0
negate (suc n) = negsuc n

abbrev pub long_max : ℕ
long_max = 2 ^ 63 - 1

-- The value of the digits with their sign: out of range it is LONG_MAX or LONG_MIN.
unfoldable pub long_value : Bool → ℕ → ℤ
unfolding negate
long_value false n = pos (min n long_max)
long_value true n = negate (min n (long_max + 1))

-- The subject sequence behind its sign: none if there is no digit.
unfoldable pub read_long : Bool → Text → Option (ℤ × Text)
read_long negative [] = none
read_long negative (c ∷ s) =
    let (value, rest) = read_digits 0 (c ∷ s) in
    if leb b'0' c && leb c b'9' then some (long_value negative value, rest) else none

unfoldable pub read_signed : Text → Option (ℤ × Text)
read_signed [] = none
read_signed (c ∷ s) =
    if c == b'-'
    then read_long true s
    else if c == b'+'
    then read_long false s
    else read_long false (c ∷ s)

-- strtol(s, &end, 10): the value and the text at `end`; with no digits, 0 and `s` itself.
unfoldable pub strtol : Text → ℤ × Text
strtol s = elim (read_signed (skip_while is_space s)) [ none ↦ (pos 0, s) | some r ↦ r ]

-- The int of a number modulo 2^32, as the compilers define it.
abbrev int_of_word : ℕ → ℤ
int_of_word w = if ltb w (2 ^ 31) then pos w else negsuc (2 ^ 32 - 1 - w)

-- (int)value
unfoldable pub to_int : ℤ → ℤ
to_int (pos n) = int_of_word (n % 2 ^ 32)
to_int (negsuc n) = int_of_word (2 ^ 32 - 1 - n % 2 ^ 32)

abbrev pub is_positive : ℤ → Bool
is_positive (pos n) = ltb 0 n
is_positive (negsuc n) = false

strtol-read_signed :
    (s t : Text) (r : ℤ × Text) → skip_while is_space s ≡ t → read_signed t ≡ some r → strtol s ≡ r
unfolding strtol
strtol-read_signed s t r skipped found = ground (arith, skipped, found)

read_long-digits :
    (negative : Bool) (s : Text) (n : ℕ)
    → s ≢ []
    → are_digits s ≡ true
    → read_digits 0 s ≡ (n, [])
    → read_long negative s ≡ some (long_value negative n, [])
unfolding read_long
read_long-digits negative [] n ne h e = absurd (ne refl)
read_long-digits negative (c ∷ s) n ne h e = rw (first_digit c s h, e)

read_signed-digit :
    (c : ℕ) (s : Text) → is_digit c ≡ true → read_signed (c ∷ s) ≡ read_long false (c ∷ s)
unfolding read_signed
read_signed-digit c s h = ground arith

strtol-digits :
    (s : Text) (n : ℕ)
    → s ≢ []
    → are_digits s ≡ true
    → read_digits 0 s ≡ (n, [])
    → strtol s ≡ (long_value false n, [])
strtol-digits [] n ne h e = absurd (ne refl)
strtol-digits (c ∷ s) n ne h e =
    strtol-read_signed (c ∷ s) (c ∷ s) (long_value false n, []) (skip-digit c s (first_digit c s h))
      (read_signed-digit c s (first_digit c s h) ∙ read_long-digits false (c ∷ s) n ne h e)

-- With a minus sign in front it is the negative number, down to LONG_MIN.
pub strtol-negative : (n : ℕ) → strtol (b'-' ∷ decimal n) ≡ (long_value true n, [])
strtol-negative n =
    strtol-read_signed (b'-' ∷ decimal n) (b'-' ∷ decimal n) _ (unfold skip_while in refl) (
      unfold read_signed in
      read_long-digits true (decimal n) n (decimal-ne_nil n) (decimal-are_digits n)
        (read-decimal n))

-- A printed number is read back, up to LONG_MAX.
pub strtol-decimal : (n : ℕ) → strtol (decimal n) ≡ (pos (min n long_max), [])
unfolding long_value
strtol-decimal n =
    strtol-digits (decimal n) n (decimal-ne_nil n) (decimal-are_digits n) (read-decimal n)

negate-not_positive : (k : ℕ) → is_positive (negate k) ≡ false
unfolding negate
negate-not_positive zero = refl
negate-not_positive (suc k) = refl

pub negative-not_positive : (n : ℕ) → is_positive (long_value true n) ≡ false
unfolding long_value
negative-not_positive n = negate-not_positive (min n (long_max + 1))
