-- ===== src/Libc/Strings.antt =====
-- strcmp, strtok_r and isspace.
pub mod Tokens
use collab_markdown_server.Base.{
  ℕ, ◌≡◌, ◌≢◌, ◌↔◌, refl, ap, Bool, Bool-cases, inl, inr, true, false, ◌&&◌, ◌||◌, Option, none,
  some, List, [], ◌∷◌, arith, leb, ◌==◌, if◌then◌else◌, Text,
}

-- strcmp(a, b) == 0
unfoldable pub text_eq : Text → Text → Bool
text_eq [] [] = true
text_eq [] (d ∷ b) = false
text_eq (c ∷ a) [] = false
text_eq (c ∷ a) (d ∷ b) = c == d && text_eq a b

pub text_eq_sound : (a b : Text) → text_eq a b ≡ true → a ≡ b
unfolding text_eq
text_eq_sound [] [] h = refl
text_eq_sound [] (d ∷ b) h = cc
text_eq_sound (c ∷ a) [] h = cc
text_eq_sound (c ∷ a) (d ∷ b) h = ground (arith, text_eq_sound a b)

pub text_eq-ne : (a b : Text) → a ≢ b → text_eq a b ≡ false
text_eq-ne a b h = elim (Bool-cases (text_eq a b)) [
  | inl e ↦ absurd (h (text_eq_sound a b e))
  | inr e ↦ e
]

pub text_eq_refl : (a : Text) → text_eq a a ≡ true
unfolding text_eq
text_eq_refl [] = refl
text_eq_refl (c ∷ a) = ground (arith, text_eq_refl a)

-- isspace in the C locale
abbrev pub is_space : ℕ → Bool
is_space c = c == 32 || leb 9 c && leb c 13

-- The text from the first byte on that is not a delimiter.
unfoldable pub skip_while : (ℕ → Bool) → Text → Text
skip_while is_delim [] = []
skip_while is_delim (c ∷ s) = if is_delim c then skip_while is_delim s else c ∷ s

-- The bytes before the first delimiter, and those behind it.
unfoldable pub split_token : (ℕ → Bool) → Text → Text × Text
split_token is_delim [] = ([], [])
split_token is_delim (c ∷ s) =
    let (token, rest) = split_token is_delim s in if is_delim c then ([], s) else (c ∷ token, rest)

-- strtok_r: the token or NULL, and the text at `*save` afterwards.
unfoldable pub strtok : (ℕ → Bool) → Text → Option Text × Text
unfolding skip_while split_token
strtok is_delim s = elim (skip_while is_delim s) [
  | [] ↦ (none, [])
  | c ∷ r ↦ let (token, rest) = split_token is_delim (c ∷ r) in (some token, rest)
]

-- strncmp(s, literal, n) == 0, with n the length of the literal
unfoldable pub starts_with : Text → Text → Bool
starts_with s [] = true
starts_with [] (d ∷ literal) = false
starts_with (c ∷ s) (d ∷ literal) = c == d && starts_with s literal
