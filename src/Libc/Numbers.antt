-- ===== src/Libc/Numbers.antt =====
-- strtoul with base 10, and the decimal formats.
pub mod RoundTrip
pub mod Signed
use collab_markdown_server.Base.{
  ℕ, zero, suc, ◌+◌, ◌-◌, ◌*◌, ◌/◌, ◌%◌, Bool, true, false, ◌&&◌, Option, none, some, List, [], ◌∷◌,
  ltb, leb, ◌==◌, if◌then◌else◌, Text, word_mod,
}
use collab_markdown_server.Libc.Strings.{is_space, skip_while}

-- The value of the digits in front, after `acc`, and the text behind them.
unfoldable pub read_digits : ℕ → Text → ℕ × Text
read_digits acc [] = (acc, [])
read_digits acc (c ∷ s) =
    let more = read_digits (acc * 10 + (c - b'0')) s in
    if leb b'0' c && leb c b'9' then more else (acc, c ∷ s)

-- The digits of the subject sequence: none if there is no digit. A value above ULONG_MAX gives
-- ULONG_MAX, whatever the sign; a negative one is negated as an unsigned long.
unfoldable pub read_magnitude : Bool → Text → Option (ℕ × Text)
read_magnitude negative [] = none
read_magnitude negative (c ∷ s) =
    if leb b'0' c && leb c b'9'
    then (let (value, rest) = read_digits 0 (c ∷ s) in
        if ltb value word_mod
        then some (if negative then (word_mod - value) % word_mod else value, rest)
        else some (word_mod - 1, rest))
    else none

read_sign : Text → Option (ℕ × Text)
read_sign [] = none
read_sign (c ∷ s) =
    if c == b'-'
    then read_magnitude true s
    else if c == b'+'
    then read_magnitude false s
    else read_magnitude false (c ∷ s)

-- strtoul(s, &end, 10): the value and the text at `end`; with no digits, 0 and `s` itself.
unfoldable pub strtoul : Text → ℕ × Text
unfolding read_sign read_magnitude read_digits skip_while
strtoul s = elim (read_sign (skip_while is_space s)) [ none ↦ (0, s) | some r ↦ r ]

-- Decimal digits in front of `tail`; the first argument is fuel.
unfoldable pub print_digits : ℕ → ℕ → Text → Text
print_digits zero n tail = tail
print_digits (suc fuel) n tail =
    let more = print_digits fuel (n / 10) ((b'0' + n % 10) ∷ tail) in
    if ltb n 10 then (b'0' + n) ∷ tail else more

-- "%llu" and "%zu"
unfoldable pub decimal : ℕ → Text
unfolding print_digits
decimal n = print_digits (suc n) n []
