-- ===== src/Command/Negative.antt =====
-- A DEL whose length is written with a minus sign: strtoul reads it modulo 2^64, and the end of the
-- range wraps around.
use collab_markdown_server.Base.{
  ℕ, ◌-◌, ◌%◌, ◌≤◌, ◌<◌, ◌≡◌, refl, ap, ◌∙◌, true, some, [], ◌∷◌, ◌++◌, arith, ◌==◌, length, take,
  drop, Text, codes, word_mod,
}
use collab_markdown_server.Libc.Strings.{text_eq, strtok}
use collab_markdown_server.Libc.Strings.Tokens.{is_token, strtok-all}
use collab_markdown_server.Libc.Numbers.{decimal}
use collab_markdown_server.Libc.Numbers.RoundTrip.{decimal-are_digits, strtoul-negative}
use collab_markdown_server.Markdown.Document.{Heap}
use collab_markdown_server.Markdown.Working.{get_working_text}
use collab_markdown_server.Markdown.Stage.{IsCurrent}
use collab_markdown_server.Markdown.Edit.{delete, markdown_edit}
use collab_markdown_server.Markdown.Edit.Splice.{delete-wraps}
use collab_markdown_server.Command.{
  role_write, cmd_success, max_command_len, map_markdown_result, parse_size, next_word, two_sizes,
  at_two, parse_edit, run_edit, run_words, command_execute, is_live,
}
use collab_markdown_server.Command.Lines.{
  IsCurrent-is_live, are_printable, writes-name, validate-line, copy-line,
}
use collab_markdown_server.Command.Words.{
  digits-word, next_word-decimal, next_word-nil, parse_size-decimal, parse_size-whole,
}

abbrev minus : ℕ → Text
minus k = b'-' ∷ decimal k

abbrev pub delete_minus : ℕ → ℕ → Text
delete_minus pos k = codes "DEL" ++ (b' ' ∷ (decimal pos ++ (b' ' ∷ minus k)))

minus-word : (k : ℕ) → is_token (λ c. c == b' ') (minus k) ≡ true
unfolding is_token
minus-word k = digits-word (decimal k) (decimal-are_digits k)

next_word-minus : (k : ℕ) → next_word (minus k) ≡ (some (minus k), [])
unfolding next_word
next_word-minus k = strtok-all (λ c. c == b' ') (minus k) (λ e. cc) (minus-word k)

negated : (k : ℕ) → 0 < k → k < word_mod → (word_mod - k) % word_mod ≡ word_mod - k
negated k positive room = omega arith

parse_size-minus :
    (k : ℕ) → 0 < k → k < word_mod → parse_size (some (minus k)) ≡ some (word_mod - k)
parse_size-minus k positive room =
    parse_size-whole (minus k) _ (λ e. cc) (strtoul-negative k room)
    ∙ ap some (negated k positive room)

two_sizes-minus :
    (pos k : ℕ)
    → pos < word_mod
    → 0 < k
    → k < word_mod
    → two_sizes (decimal pos ++ (b' ' ∷ minus k)) ≡ some (pos, word_mod - k)
unfolding two_sizes
two_sizes-minus pos k room positive room' = rw (
  next_word-decimal pos (minus k),
  next_word-minus k,
  next_word-nil,
  parse_size-decimal pos room,
  parse_size-minus k positive room',
)

first_word :
    (pos k : ℕ)
    → next_word (delete_minus pos k) ≡ (some (codes "DEL"), decimal pos ++ (b' ' ∷ minus k))
unfolding next_word strtok
first_word pos k = refl

parse_edit-delete : (save : Text) → parse_edit (codes "DEL") save ≡ at_two delete (two_sizes save)
unfolding parse_edit text_eq
parse_edit-delete save = refl

execute-minus :
    (doc version pos k : ℕ) (h : Heap)
    → is_live doc h ≡ true
    → pos < word_mod
    → 0 < k
    → k < word_mod
    → are_printable (delete_minus pos k) ≡ true
    → length (delete_minus pos k) < max_command_len
    → command_execute doc version role_write (some (delete_minus pos k ++ (b'\n' ∷ []))) h ≡ (
      map_markdown_result (markdown_edit doc version (delete pos (word_mod - k)) h).0,
      (markdown_edit doc version (delete pos (word_mod - k)) h).1,
    )
unfolding command_execute run_words
execute-minus doc version pos k h live room positive room' printable short =
    rw
      (
        live,
        validate-line (delete_minus pos k) printable short,
        copy-line (delete_minus pos k),
        first_word pos k,
      )
      (rw (writes-name (delete 0 0), parse_edit-delete, two_sizes-minus pos k room positive room')
        (unfold run_edit in refl))

-- `DEL pos -k` by a writer, with the current version, k bytes before a `pos` within a working
-- text shorter than 2^64 bytes, and a printable line of at most 256 bytes with its newline, is
-- answered with success and deletes nothing: the k bytes before `pos` then stand in the working
-- text twice.
delete_minus-repeats :
    (doc version pos k : ℕ) (h : Heap)
    → IsCurrent doc version h
    → 0 < k
    → k ≤ pos
    → pos ≤ length (get_working_text doc h)
    → length (get_working_text doc h) < word_mod
    → are_printable (delete_minus pos k) ≡ true
    → length (delete_minus pos k) < max_command_len
    → ((command_execute doc version role_write (some (delete_minus pos k ++ (b'\n' ∷ []))) h).0
        ≡ cmd_success)
      × (get_working_text doc
            (command_execute doc version role_write (some (delete_minus pos k ++ (b'\n' ∷ []))) h).1
          ≡ take pos (get_working_text doc h) ++ drop (pos - k) (get_working_text doc h))
delete_minus-repeats doc version pos k h current positive back fits space printable short =
    let (done, text) = delete-wraps doc version pos k h current positive back fits space in
    rw
      (execute-minus doc version pos k h (IsCurrent-is_live doc version h current) (omega arith)
        positive (omega arith) printable short)
      (unfold markdown_edit map_markdown_result in (rw done, text))
