-- ===== src/Libc/Strings/Tokens.antt =====
-- Cutting tokens off a text that was put together from them.
use collab_markdown_server.Base.{
  ℕ, ◌≡◌, ◌≢◌, refl, Bool, true, ◌&&◌, not, none, some, [], ◌∷◌, ◌++◌, arith, Text,
}
use collab_markdown_server.Libc.Strings.{split_token, strtok}

-- No byte of the text is a delimiter.
unfoldable pub is_token : (ℕ → Bool) → Text → Bool
is_token is_delim [] = true
is_token is_delim (c ∷ s) = not (is_delim c) && is_token is_delim s

module _ (is_delim : ℕ → Bool) where
  split_token-append :
      (token rest : Text) (d : ℕ)
      → is_token is_delim token ≡ true
      → is_delim d ≡ true
      → split_token is_delim (token ++ (d ∷ rest)) ≡ (token, rest)
  unfolding split_token is_token
  split_token-append [] rest d h e = rw e
  split_token-append (c ∷ token) rest d h e = ground (arith, split_token-append token rest d)

  split_token-all :
      (token : Text) → is_token is_delim token ≡ true → split_token is_delim token ≡ (token, [])
  unfolding split_token is_token
  split_token-all [] h = refl
  split_token-all (c ∷ token) h = ground (arith, split_token-all token)

  -- A token that is not empty, with a delimiter behind it or at the end of the text.
  pub strtok-append :
      (token rest : Text) (d : ℕ)
      → token ≢ []
      → is_token is_delim token ≡ true
      → is_delim d ≡ true
      → strtok is_delim (token ++ (d ∷ rest)) ≡ (some token, rest)
  unfolding strtok is_token
  strtok-append [] rest d n h e = absurd (n refl)
  strtok-append (c ∷ token) rest d n h e = ground (arith, split_token-append (c ∷ token) rest d)

  pub strtok-all :
      (token : Text)
      → token ≢ []
      → is_token is_delim token ≡ true
      → strtok is_delim token ≡ (some token, [])
  unfolding strtok is_token
  strtok-all [] n h = absurd (n refl)
  strtok-all (c ∷ token) n h = ground (arith, split_token-all (c ∷ token))

  pub strtok-nil : strtok is_delim [] ≡ (none, [])
  unfolding strtok
  strtok-nil = refl
