-- ===== src/Tests/Promise.antt =====
-- Examples for what the server promises, and for its threads.
use collab_markdown_server.Base.{
  ◌+◌, ◌<◌, ◌≡◌, refl, inl, inr, some, List, [], ◌∷◌, ◌++◌, length, arith, Text, Option, codes,
  word_mod,
}
use collab_markdown_server.Libc.Strings.{text_eq}
use collab_markdown_server.Libc.Streams.{fgets}
use collab_markdown_server.Markdown.Document.{find_ops}
use collab_markdown_server.Markdown.Working.{get_committed_text, get_working_text}
use collab_markdown_server.Markdown.Edit.{insert, markdown_edit}
use collab_markdown_server.Markdown.Edit.Spec.{edit_text}
use collab_markdown_server.Markdown.Edit.Spec.Obeyed.{Obeys, edit-Obeys}
use collab_markdown_server.Markdown.Stage.{check_version, IsCurrent}
use collab_markdown_server.ServerCore.{server_core_init}
use collab_markdown_server.ServerCore.Session.{answers, serve}
use collab_markdown_server.ServerCore.Spec.{nothing_shared, spec_serve, HasRoom}
use collab_markdown_server.ServerCore.Spec.Refinement.{Shows, serve-refines}
use collab_markdown_server.Server.Thread.{read_commands, command_lines}
use collab_markdown_server.Libc.Strings.Tokens.{is_token}
use collab_markdown_server.Server.Thread.Loop.{typed_lines, command_lines-typed_lines}
use collab_markdown_server.ServerDemo.{demo_main}
use collab_markdown_server.ServerDemo.Transcript.{
  demo_lines, demo_requests, promised_blocks, farewell, demo_main-promised,
}
use collab_markdown_server.Tests.Sample.{document}
use collab_markdown_server.Markdown.Document.{Heap}
use collab_markdown_server.Tests.Server.{empty_heap, hello}

pub some_room : HasRoom nothing_shared (hello ∷ [])
unfolding HasRoom
some_room = (omega arith, tt)

serve-refines_example :
    (answers (server_core_init 1 empty_heap).0 (hello ∷ []) (server_core_init 1 empty_heap).1
      ≡ (spec_serve nothing_shared (hello ∷ [])).0)
    × Shows
        (serve (server_core_init 1 empty_heap).0 (hello ∷ []) (server_core_init 1 empty_heap).1).0
        (serve (server_core_init 1 empty_heap).0 (hello ∷ []) (server_core_init 1 empty_heap).1).1
        (spec_serve nothing_shared (hello ∷ [])).1
unfolding find_ops
serve-refines_example = serve-refines 1 empty_heap (hello ∷ []) refl some_room

abbrev clean_heap : Heap
clean_heap = record { documents = λ a. some document; op_lists = [] }

clean-IsCurrent : IsCurrent 1 3 clean_heap
unfolding check_version
clean-IsCurrent = refl

clean-room : length (get_working_text 1 clean_heap) + 1 < word_mod
unfolding get_working_text get_committed_text find_ops
clean-room = omega arith

edit-Obeys_example :
    Obeys 1
      (edit_text (insert 2 (codes "!")) (get_working_text 1 clean_heap))
      (markdown_edit 1 3 (insert 2 (codes "!")) clean_heap)
unfolding find_ops
edit-Obeys_example =
    edit-Obeys 1 3 (insert 2 (codes "!")) clean_heap clean-IsCurrent refl clean-room

abbrev roles : Text → Option Text
roles path = some (codes "daniel write\n")

abbrev typed : List Text
typed = codes "INSERT 0 Hello" ∷ codes "BOLD 0 5" ∷ []

abbrev behind : Text
behind = codes "DISCONNECT\nDEL 0 1\n"

command_lines-typed_lines_example :
    (command_lines (typed_lines typed behind) ≡ codes "INSERT 0 Hello\n" ∷ codes "BOLD 0 5\n" ∷ [])
    × (read_commands 50 (typed_lines typed behind)
        ≡ codes "INSERT 0 Hello\n" ∷ codes "BOLD 0 5\n" ∷ [])
unfolding is_token
command_lines-typed_lines_example =
    command_lines-typed_lines 50 typed behind
      ((refl, omega arith, (λ e. cc), (λ e. cc)), ((refl, omega arith, (λ e. cc), (λ e. cc)), tt))
      (inr (codes "DEL 0 1\n", inl refl)) (omega arith)

demo-room :
    HasRoom nothing_shared (demo_requests (demo_lines 30 (codes "INSERT 0 Hello\nQUIT\n")).0)
unfolding HasRoom demo_lines fgets text_eq
demo-room = (omega arith, tt)

demo_main-promised_example :
    demo_main 1 empty_heap (codes "INSERT 0 Hello\nQUIT\n")
    ≡ codes "CONNECTED demo-user write\n"
      ++ (promised_blocks nothing_shared
            (demo_requests (demo_lines 30 (codes "INSERT 0 Hello\nQUIT\n")).0)
          ++ farewell (demo_lines 30 (codes "INSERT 0 Hello\nQUIT\n")).1)
unfolding find_ops
demo_main-promised_example =
    demo_main-promised 1 empty_heap 30 (codes "INSERT 0 Hello\nQUIT\n") refl (omega arith) demo-room
