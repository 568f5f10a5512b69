-- ===== src/Command/Words.antt =====
-- Reading the words of a command: names, numbers, contents and URLs.
use collab_markdown_server.Base.{
  ℕ, ◌<◌, ◌≡◌, ◌≢◌, refl, Bool, true, none, some, [], ◌∷◌, ◌++◌, arith, ◌==◌, Text, word_mod,
}
use collab_markdown_server.Libc.Strings.Tokens.{is_token, strtok-append, strtok-all, strtok-nil}
use collab_markdown_server.Libc.Numbers.{strtoul, decimal}
use collab_markdown_server.Libc.Numbers.RoundTrip.{
  are_digits, decimal-are_digits, decimal-ne_nil, strtoul-decimal,
}
use collab_markdown_server.Command.{
  parse_size, next_word, one_size, two_sizes, size_and_content, sizes_and_url,
}

abbrev pub two_numbers : ℕ → ℕ → Text
two_numbers a b = decimal a ++ (b' ' ∷ decimal b)

abbrev pub is_word : Text → Bool
is_word = is_token (λ c. c == b' ')

pub digits-word : (s : Text) → are_digits s ≡ true → is_word s ≡ true
unfolding are_digits is_token
digits-word [] h = refl
digits-word (c ∷ s) h = ground (arith, digits-word s)

pub next_word-decimal :
    (n : ℕ) (rest : Text) → next_word (decimal n ++ (b' ' ∷ rest)) ≡ (some (decimal n), rest)
unfolding next_word
next_word-decimal n rest =
    strtok-append (λ c. c == b' ') (decimal n) rest b' ' (decimal-ne_nil n)
      (digits-word _ (decimal-are_digits n)) refl

next_word-last : (n : ℕ) → next_word (decimal n) ≡ (some (decimal n), [])
unfolding next_word
next_word-last n =
    strtok-all (λ c. c == b' ') (decimal n) (decimal-ne_nil n)
      (digits-word _ (decimal-are_digits n))

next_word-url : (url : Text) → url ≢ [] → is_word url ≡ true → next_word url ≡ (some url, [])
unfolding next_word
next_word-url url ne word = strtok-all (λ c. c == b' ') url ne word

pub next_word-nil : next_word [] ≡ (none, [])
unfolding next_word
next_word-nil = strtok-nil (λ c. c == b' ')

pub parse_size-whole :
    (s : Text) (n : ℕ) → s ≢ [] → strtoul s ≡ (n, []) → parse_size (some s) ≡ some n
unfolding parse_size
parse_size-whole [] n ne h = absurd (ne refl)
parse_size-whole (c ∷ s) n ne h = rw h

pub parse_size-decimal : (n : ℕ) → n < word_mod → parse_size (some (decimal n)) ≡ some n
parse_size-decimal n room =
    parse_size-whole (decimal n) n (decimal-ne_nil n) (strtoul-decimal n room)

pub one_size-decimal : (n : ℕ) → n < word_mod → one_size (decimal n) ≡ some n
unfolding one_size
one_size-decimal n room = rw (next_word-last n, next_word-nil, parse_size-decimal n room)

pub two_sizes-decimal :
    (a b : ℕ) → a < word_mod → b < word_mod → two_sizes (two_numbers a b) ≡ some (a, b)
unfolding two_sizes
two_sizes-decimal a b ra rb = rw (
  next_word-decimal a (decimal b),
  next_word-last b,
  next_word-nil,
  parse_size-decimal a ra,
  parse_size-decimal b rb,
)

pub size_and_content-decimal :
    (n : ℕ) (content : Text)
    → n < word_mod
    → content ≢ []
    → size_and_content (decimal n ++ (b' ' ∷ content)) ≡ some (n, content)
unfolding size_and_content
size_and_content-decimal n [] room ne = absurd (ne refl)
size_and_content-decimal n (c ∷ s) room ne =
    rw (next_word-decimal n (c ∷ s), parse_size-decimal n room)

pub sizes_and_url-decimal :
    (a b : ℕ) (url : Text)
    → a < word_mod
    → b < word_mod
    → url ≢ []
    → is_word url ≡ true
    → sizes_and_url (decimal a ++ (b' ' ∷ (decimal b ++ (b' ' ∷ url)))) ≡ some ((a, b), url)
unfolding sizes_and_url
sizes_and_url-decimal a b url ra rb ne word = rw (
  next_word-decimal a (decimal b ++ (b' ' ∷ url)),
  next_word-decimal b url,
  next_word-url url ne word,
  next_word-nil,
  parse_size-decimal a ra,
  parse_size-decimal b rb,
)
