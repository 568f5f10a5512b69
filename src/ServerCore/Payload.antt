-- ===== src/ServerCore/Payload.antt =====
-- The buffer of a broadcast is as large as its text, so that no line is cut.
use collab_markdown_server.Base.{
  ℕ, ◌+◌, ◌-◌, ◌≤◌, ◌<◌, ◌≡◌, ◌∙◌, sym, List, [], ◌∷◌, ◌++◌, arith, length, length-append,
  take-length_le, Text, codes, add64, add64_small, sub64, sub64_small, word_mod, lt→ltb, refl, ◌^◌,
}
use collab_markdown_server.ServerCore.{
  EditLogEntry, version_line, edit_line, end_line, entries_size, broadcast_payload_size,
  write_entries, build_payload, printed_size,
}
use collab_markdown_server.Libc.Numbers.{decimal}
use collab_markdown_server.Libc.Numbers.RoundTrip.{decimal-length}

-- The text of a broadcast: all its lines.
unfoldable pub edit_lines : List EditLogEntry → Text
edit_lines [] = end_line
edit_lines (e ∷ rest) = edit_line e ++ edit_lines rest

abbrev pub payload_text : List EditLogEntry → ℕ → Text
payload_text entries version = version_line version ++ edit_lines entries

-- The results of snprintf for the EDIT lines are ints.
unfoldable pub AreInts : List EditLogEntry → Type 0
AreInts [] = Unit
AreInts (e ∷ rest) = (length (edit_line e) < 2 ^ 31) × AreInts rest

printed_size-int : (text : Text) → length text < 2 ^ 31 → printed_size text ≡ length text
unfolding printed_size
printed_size-int text int = rw (lt→ltb (length text) (2 ^ 31) int) refl

version-int : (version : ℕ) → version < word_mod → length (version_line version) < 2 ^ 31
unfolding version_line
version-int version fits =
    omega (arith, decimal-length version fits, length-append (decimal version) (codes "\n"))

version-size :
    (version : ℕ)
    → version < word_mod
    → add64 0 (printed_size (version_line version)) ≡ length (version_line version)
version-size version fits =
    let int = version-int version fits in
    rw (printed_size-int (version_line version) int)
      (add64_small 0 (length (version_line version)) (omega arith) ∙ omega arith)

entries_size-lines :
    (total : ℕ) (entries : List EditLogEntry)
    → AreInts entries
    → total + length (edit_lines entries) < word_mod
    → add64 (entries_size total entries) (length end_line) ≡ total + length (edit_lines entries)
unfolding entries_size edit_lines AreInts
entries_size-lines total [] ints room = add64_small total (length end_line) room
entries_size-lines total (e ∷ rest) (int, ints) room =
    let split = length-append (edit_line e) (edit_lines rest) in
    rw (printed_size-int (edit_line e) int, add64_small total (length (edit_line e)) (omega arith))
      (entries_size-lines (total + length (edit_line e)) rest ints (omega arith) ∙ omega arith)

-- The room behind what is written, without the NUL.
room_behind :
    (size off : ℕ) → off ≤ size → size + 1 < word_mod → sub64 (add64 size 1) off - 1 ≡ size - off
room_behind size off inside room =
    rw (add64_small size 1 room, sub64_small (size + 1) off (omega arith) room) (omega arith)

write_entries-lines :
    (size off : ℕ) (entries : List EditLogEntry)
    → AreInts entries
    → off + length (edit_lines entries) ≤ size
    → size + 1 < word_mod
    → write_entries size off entries ≡ edit_lines entries
unfolding write_entries edit_lines AreInts
write_entries-lines size off [] ints fits room =
    rw (room_behind size off (omega arith) room)
      (take-length_le (size - off) end_line (omega arith))
write_entries-lines size off (e ∷ rest) (int, ints) fits room =
    let split = length-append (edit_line e) (edit_lines rest) in
    rw (
      room_behind size off (omega arith) room,
      printed_size-int (edit_line e) int,
      add64_small off (length (edit_line e)) (omega arith),
      take-length_le (size - off) (edit_line e) (omega arith),
      write_entries-lines size (off + length (edit_line e)) rest ints (omega arith) room,
    )

-- For a broadcast of less than 2^64 - 1 bytes whose lines are of less than 2^31 bytes, so that snprintf
-- can return their lengths, the size computed first is exactly that of the text, and the buffer of
-- that size (and one byte) holds every line whole.
pub payload-whole :
    (entries : List EditLogEntry) (version : ℕ)
    → version < word_mod
    → AreInts entries
    → length (payload_text entries version) + 1 < word_mod
    → (broadcast_payload_size entries version ≡ length (payload_text entries version))
      × (build_payload entries version ≡ payload_text entries version)
unfolding broadcast_payload_size build_payload
payload-whole entries version fits ints room =
    let n = length (payload_text entries version) in
    let split = length-append (version_line version) (edit_lines entries) in
    let size : broadcast_payload_size entries version ≡ n =
      rw (version-size version fits) (
        entries_size-lines (length (version_line version)) entries ints (omega arith)
        ∙ sym split) in
    (
      size,
      rw (size, version-size version fits)
          (rw (
            room_behind n 0 (omega arith) room,
            take-length_le (n - 0) (version_line version) (omega arith),
            write_entries-lines n (length (version_line version)) entries ints (omega arith) room,
          )),
    )
