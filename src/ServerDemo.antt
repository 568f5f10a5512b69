-- ===== src/ServerDemo.antt =====
-- src/server_demo.c from the open FIFOs on: a server for one client. `input` is all that the client
-- writes to its FIFO.
pub mod Transcript
pub mod Process
use collab_markdown_server.Base.{
  ℕ, zero, suc, ◌-◌, Bool, true, false, Option, none, some, List, [], ◌∷◌, ◌++◌, if◌then◌else◌,
  length, Text, codes,
}
use collab_markdown_server.Libc.Strings.{text_eq}
use collab_markdown_server.Libc.Streams.{fgets}
use collab_markdown_server.Markdown.Document.{Heap}
use collab_markdown_server.Command.{role_write}
use collab_markdown_server.ServerCore.{ServerCore, server_core_init, server_core_flatten_doc}
use collab_markdown_server.ServerCore.Session.{Request, round}

abbrev pub line_buf_size : ℕ
line_buf_size = 512

-- The command of the one client.
abbrev pub demo_request : Text → Request
demo_request line = record { user = codes "demo-user"; role = role_write; line = line }

-- "DOC_BEGIN\n%s\nDOC_END\n", where the document can be flattened.
abbrev pub doc_block : Option Text → Text
doc_block none = []
doc_block (some doc) = codes "DOC_BEGIN\n" ++ (doc ++ codes "\nDOC_END\n")

abbrev pub is_quit : Text → Bool
is_quit line = text_eq line (codes "QUIT\n")

-- What the loop writes to the client, on fuel.
unfoldable pub demo_loop : ℕ → Text → ServerCore → Heap → Text
demo_loop zero input core h = []
demo_loop (suc fuel) [] core h = []
demo_loop (suc fuel) (c ∷ s) core h =
    let (line, rest) = fgets (line_buf_size - 1) (c ∷ s) in
    let a = round core (demo_request line) h in
    let later = demo_loop fuel rest a.core a.heap in
    if is_quit line
    then codes "SERVER_SHUTDOWN\n"
    else a.payload ++ (doc_block (server_core_flatten_doc a.core a.heap) ++ later)

-- Every line has a byte, so that one round for each byte is enough.
unfoldable pub demo_main : ℕ → Heap → Text → Text
demo_main doc h input =
    let (core, h1) = server_core_init doc h in
    codes "CONNECTED demo-user write\n" ++ demo_loop (length input) input core h1
