-- ===== src/Arguments.antt =====
-- The numbers on the command lines: `parse_interval_ms` of src/server.c and `parse_pid` of
-- src/client.c, which have one body.
use collab_markdown_server.Base.{
  ℕ, ◌%◌, ◌^◌, ◌≡◌, refl, ◌&&◌, Option, none, some, ◌∷◌, arith, ltb, ◌==◌, min, if◌then◌else◌, Text,
  byte_at, Bool-cases, inl, inr, ltb→lt, ltb→le, lt→ltb,
}
use collab_markdown_server.Libc.Numbers.{decimal}
use collab_markdown_server.Libc.Numbers.Signed.{
  ℤ, pos, strtol, to_int, is_positive, long_max, strtol-decimal, strtol-negative,
  negative-not_positive,
}

-- Behind strtol: nothing may be left of the text, and the value, a long, must be positive.
abbrev pub checked : ℤ × Text → Option ℤ
checked (value, end) = if byte_at end 0 == 0 && is_positive value then some (to_int value) else none

-- `none` is the answer 0; otherwise it is the int that is stored.
unfoldable pub parse_interval_ms : Option Text → Option ℤ
parse_interval_ms none = none
parse_interval_ms (some s) = checked (strtol s)

unfoldable pub parse_pid : Option Text → Option ℤ
parse_pid none = none
parse_pid (some s) = checked (strtol s)

-- What is stored for a printed number: the number up to INT_MAX, a number modulo 2^32 above.
abbrev pub stored : ℕ → Option ℤ
stored n =
    if ltb 0 n
    then if ltb n (2 ^ 31) then some (pos n) else some (to_int (pos (min n long_max)))
    else none

checked-decimal : (n : ℕ) → checked (strtol (decimal n)) ≡ stored n
unfolding to_int
checked-decimal n = elim (Bool-cases (ltb 0 n)) [
  | inr none_of_it ↦
      let zero_min : min n long_max ≡ 0 = omega (arith, ltb→le _ _ none_of_it) in
      rw (strtol-decimal n, zero_min, none_of_it) refl
  | inl some_of_it ↦
      let positive = lt→ltb 0 (min n long_max) (omega (arith, ltb→lt _ _ some_of_it)) in
      elim (Bool-cases (ltb n (2 ^ 31))) [
        | inl small ↦
            let same : min n long_max ≡ n = omega (arith, ltb→lt _ _ small) in
            let low : n % 2 ^ 32 ≡ n = omega (arith, ltb→lt _ _ small) in
            rw (strtol-decimal n, same, some_of_it, small) (rw (low, small) refl)
        | inr large ↦ rw (strtol-decimal n, positive, some_of_it, large) refl
      ]
]

checked-negative : (n : ℕ) → checked (strtol (b'-' ∷ decimal n)) ≡ none
checked-negative n = rw (strtol-negative n, negative-not_positive n) refl

-- No positive number is refused, however large: one up to 2^31 - 1 is stored as it is, one above is
-- stored as the int that its low 32 bits make (after strtol has cut it to 2^63 - 1), which can be
-- negative, although only positive values are meant to pass. Zero and negative numbers are refused.
pub parse-decimal :
    (n : ℕ)
    → (parse_interval_ms (some (decimal n)) ≡ stored n)
      × (parse_pid (some (decimal n)) ≡ stored n)
      × (parse_interval_ms (some (b'-' ∷ decimal n)) ≡ none)
      × (parse_pid (some (b'-' ∷ decimal n)) ≡ none)
unfolding parse_interval_ms parse_pid
parse-decimal n = (checked-decimal n, checked-decimal n, checked-negative n, checked-negative n)
