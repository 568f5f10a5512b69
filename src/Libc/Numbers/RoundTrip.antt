-- ===== src/Libc/Numbers/RoundTrip.antt =====
-- strtoul reads back what the decimal format prints.
use native.Mathlib.Nat.{pow-succ'}
use collab_markdown_server.Base.{
  ◌^◌, ◌≤◌, length, ℕ, zero, suc, ◌+◌, ◌-◌, ◌*◌, ◌/◌, ◌%◌, ◌<◌, ◌≡◌, ◌≢◌, refl, ◌∙◌, ap, inl, inr,
  Bool, Bool-cases, true, false, ◌&&◌, some, [], ◌∷◌, arith, ltb, leb, lt→ltb, le→leb, ltb→le,
  ltb→lt, if◌then◌else◌, Text, word_mod,
}
use collab_markdown_server.Libc.Strings.{is_space, skip_while}
use collab_markdown_server.Libc.Numbers.{
  read_digits, read_magnitude, read_sign, strtoul, print_digits, decimal,
}

abbrev pub is_digit : ℕ → Bool
is_digit c = leb b'0' c && leb c b'9'

-- All bytes are digits.
unfoldable pub are_digits : Text → Bool
are_digits [] = true
are_digits (c ∷ s) = is_digit c && are_digits s

print_digits-are_digits :
    (fuel n : ℕ) (tail : Text)
    → are_digits tail ≡ true
    → are_digits (print_digits fuel n tail) ≡ true
unfolding print_digits are_digits
print_digits-are_digits zero n tail h = h
print_digits-are_digits (suc fuel) n tail h =
    ground (arith, print_digits-are_digits fuel (n / 10) ((b'0' + n % 10) ∷ tail))

read-digit :
    (acc d : ℕ) (tail : Text)
    → d < 10
    → read_digits acc ((b'0' + d) ∷ tail) ≡ read_digits (acc * 10 + d) tail
unfolding read_digits
read-digit acc d tail h =
    rw (le→leb b'0' (b'0' + d) (omega arith), le→leb (b'0' + d) b'9' (omega arith))
      (ap (λ (k : ℕ). read_digits (acc * 10 + k) tail) (omega arith))

read-print_digits :
    (fuel n : ℕ) (tail : Text)
    → n < fuel
    → read_digits 0 (print_digits fuel n tail) ≡ read_digits n tail
unfolding print_digits read_digits
read-print_digits zero n tail h = elim h [ ]
read-print_digits (suc fuel) n tail h = elim (Bool-cases (ltb n 10)) [
  | inl e ↦
      rw e (read-digit 0 n tail (ltb→lt _ _ e) ∙ ap (λ (k : ℕ). read_digits k tail) (omega arith))
  | inr e ↦
      let small : n / 10 < fuel = omega (arith, ltb→le _ _ e) in
      rw e (
        read-print_digits fuel (n / 10) ((b'0' + n % 10) ∷ tail) small
        ∙ (read-digit (n / 10) (n % 10) tail (omega arith)
            ∙ ap (λ (k : ℕ). read_digits k tail) (omega arith)))
]

print_digits-ne_nil : (fuel n : ℕ) (tail : Text) → tail ≢ [] → print_digits fuel n tail ≢ []
unfolding print_digits
print_digits-ne_nil zero n tail h = h
print_digits-ne_nil (suc fuel) n tail h =
    ground (arith, print_digits-ne_nil fuel (n / 10) ((b'0' + n % 10) ∷ tail))

pub decimal-are_digits : (n : ℕ) → are_digits (decimal n) ≡ true
unfolding decimal are_digits
decimal-are_digits n = print_digits-are_digits (suc n) n [] refl

pub decimal-ne_nil : (n : ℕ) → decimal n ≢ []
unfolding decimal
decimal-ne_nil n = ground (arith, print_digits-ne_nil n (n / 10) ((b'0' + n % 10) ∷ []))

pub read-decimal : (n : ℕ) → read_digits 0 (decimal n) ≡ (n, [])
unfolding decimal read_digits
read-decimal n = read-print_digits (suc n) n [] (omega arith)

pub first_digit : (c : ℕ) (s : Text) → are_digits (c ∷ s) ≡ true → is_digit c ≡ true
unfolding are_digits
first_digit c s h = ground arith

read_magnitude-digits :
    (negative : Bool) (s : Text) (n : ℕ)
    → s ≢ []
    → are_digits s ≡ true
    → read_digits 0 s ≡ (n, [])
    → n < word_mod
    → read_magnitude negative s ≡ some (if negative then (word_mod - n) % word_mod else n, [])
unfolding read_magnitude
read_magnitude-digits negative [] n ne h e room = absurd (ne refl)
read_magnitude-digits negative (c ∷ s) n ne h e room =
    rw (first_digit c s h, e, lt→ltb n word_mod room)

pub skip-digit : (c : ℕ) (s : Text) → is_digit c ≡ true → skip_while is_space (c ∷ s) ≡ c ∷ s
unfolding skip_while
skip-digit c s h = ground arith

read_sign-digit :
    (c : ℕ) (s : Text) → is_digit c ≡ true → read_sign (c ∷ s) ≡ read_magnitude false (c ∷ s)
unfolding read_sign
read_sign-digit c s h = ground arith

strtoul-read_sign :
    (s t : Text) (r : ℕ × Text) → skip_while is_space s ≡ t → read_sign t ≡ some r → strtoul s ≡ r
unfolding strtoul
strtoul-read_sign s t r skipped found = ground (arith, skipped, found)

strtoul-digits :
    (s : Text) (n : ℕ)
    → s ≢ []
    → are_digits s ≡ true
    → read_digits 0 s ≡ (n, [])
    → n < word_mod
    → strtoul s ≡ (n, [])
strtoul-digits [] n ne h e room = absurd (ne refl)
strtoul-digits (c ∷ s) n ne h e room =
    strtoul-read_sign (c ∷ s) (c ∷ s) (n, []) (skip-digit c s (first_digit c s h))
      (read_sign-digit c s (first_digit c s h) ∙ read_magnitude-digits false (c ∷ s) n ne h e room)

-- A number below 2^64 is read back.
pub strtoul-decimal : (n : ℕ) → n < word_mod → strtoul (decimal n) ≡ (n, [])
strtoul-decimal n room =
    strtoul-digits (decimal n) n (decimal-ne_nil n) (decimal-are_digits n) (read-decimal n) room

-- With a minus sign in front it is read as the number modulo 2^64 that it stands for.
pub strtoul-negative :
    (n : ℕ) → n < word_mod → strtoul (b'-' ∷ decimal n) ≡ ((word_mod - n) % word_mod, [])
strtoul-negative n room =
    strtoul-read_sign (b'-' ∷ decimal n) (b'-' ∷ decimal n) _ (unfold skip_while in refl) (
      unfold read_sign in
      read_magnitude-digits true (decimal n) n (decimal-ne_nil n) (decimal-are_digits n)
        (read-decimal n) room)

print_digits-length :
    (k fuel n : ℕ) (tail : Text)
    → n < 10 ^ k
    → length (print_digits fuel n tail) ≤ suc k + length tail
unfolding print_digits
print_digits-length k zero n tail h = omega arith
print_digits-length zero (suc fuel) n tail h = rw (lt→ltb n 10 (omega arith)) (omega arith)
print_digits-length (suc k) (suc fuel) n tail h = elim (Bool-cases (ltb n 10)) [
  | inl e ↦ rw e (omega arith)
  | inr e ↦
      let small : n / 10 < 10 ^ k = omega (arith, pow-succ' 10 k) in
      rw e (omega (arith, print_digits-length k fuel (n / 10) ((b'0' + n % 10) ∷ tail) small))
]

-- A number of 64 bits has at most 21 digits.
pub decimal-length : (n : ℕ) → n < word_mod → length (decimal n) ≤ 21
unfolding decimal
decimal-length n room = omega (arith, print_digits-length 20 (suc n) n [] (omega arith))
