-- ===== src/Lib.antt =====
-- A collaborative Markdown server: one document, edited by several clients through commands that a
-- server executes and commits. The program is written in C. This library models its document
-- engine, its command language, its server core, the threads of the server, the client and the two
-- demo programs, and proves what they do.
--
-- The parts, and the files that model them:
-- * Markdown models src/markdown.c with include/document.h and include/markdown.h. Renumber holds
--   `renumber_ordered_lists`; Document the documents and the global list `op_lists` of pending
--   operations; Working the committed and the working text (`get_committed_text`,
--   `apply_single_op`, `get_working_text`); Stage the version check, the mapping of positions
--   (`transform_position_after_pending_ops`) and the two functions that stage an operation; Edit
--   the twelve edit commands, and Edit.Spec what each of them promises, a function of the plain
--   text; Version the making, freeing, printing and committing of a document.
-- * Command models src/command.c: the check of a raw line, its splitting into words, the numbers,
--   the ladder of commands and the mapping of results.
-- * ServerCore models src/server_core.c: the log of commands, `server_core_submit`,
--   `server_core_commit` and the broadcast that it builds. ServerCore.Session models what
--   src/server.c does with them in the loop of `client_thread_main`: submit one command and commit
--   at once. ServerCore.Spec is the promise of the server: one shared text, its version, and each
--   command line a function of the text, with neither a heap nor pending operations.
-- * Server models src/server.c on the state that the threads share: the critical sections of
--   `client_thread_main`, each under the mutex; Server.Interleaving any order of them and of what
--   happens outside; Server.Linearized what such an order shows; Server.Thread the thread of one
--   client from the open FIFOs on, and what it reads from its client; Server.Connections the loop
--   of `main` and the signal handler that can run between its statements, as a step relation.
--   Server.Opening is the start of a thread, the making and opening of its FIFOs, and with it the
--   whole `client_thread_main`; Server.Threads the threads of all clients, each a phase that goes on
--   by one critical section at a time, in any order of turns; Server.Following what is written to
--   one client while the others come and go; Server.Main the start and the end of `main`.
-- * ClientRegistry models src/client_registry.c: the list of the clients that are connected, and the
--   broadcast to them.
-- * System is the interface to the calls of the system that act on the world outside (fputs, fflush,
--   fprintf, fclose, unlink), a parameter of Server and ClientRegistry; `AreStreams` is the
--   documented behaviour of the streams that the theorems about broadcasts rely on, with streams that
--   fail in fputs or in fflush, `AreWrites`
--   that of the other calls.
-- * Files is the interface to the calls on files, descriptors and signals (mkfifo, open, fdopen,
--   close, kill, sigprocmask, sigaction, sigwait, getpid), a parameter, too; `View` says which names
--   and descriptors there are, and `AreFiles` is the documented behaviour of the calls on them.
-- * Auth models src/auth.c: the role of a user in the roles file. `fopen` is a parameter, the
--   contents of the files that it opens.
-- * Client models src/client.c: the handshake, and the loop for whatever `select` answers in each
--   round; Client.Opening how it connects, Client.Process the whole `main`. Client.Lines sets what
--   it sends against what Server.Thread reads, Client.Welcome what it reads against what Server
--   writes, and Client.Broadcasts against what ServerCore builds. Client.Watching is what a client shows of what the server promises, and
--   Client.EndToEnd puts the server and one of its clients together.
-- * Arguments models the numbers on the command lines of both programs (`parse_interval_ms`,
--   `parse_pid`).
-- * Fifos models the names of the FIFOs of a client (`build_fifo_paths`), Fifos.Open how
--   src/server.c and src/client.c open them, and Fifos.Demo how the demo programs do.
-- * ServerDemo models src/server_demo.c, the server for one client: what it writes to its client;
--   ServerDemo.Process is its whole `main`. ClientDemo models src/client_demo.c, its loop for
--   whatever `select` answers; ClientDemo.Process is its whole `main`.
-- * Libc models what the program uses of the C library, by its documented behaviour: strcmp,
--   strncmp, isspace, strtok_r, strtoul and strtol for base 10, the decimal formats of printf, and
--   fgets on a stream that holds a text and then ends.
-- * Base holds the shared notation, lists, tests on numbers and the arithmetic of `size_t`.
-- * Tests holds examples, many of them on one small heap.
--
-- How the code is modelled:
-- * A `char *` text is a list of bytes without the NUL (also what is typed and what the FIFOs carry
--   holds none), and `none` stands for NULL where the code tests for it. A document stands at an
--   address of a `Heap`; NULL and freed addresses hold none. `op_lists` is a part of the heap, keyed
--   by the address of a document as in the code. `prev`, `next` and tail pointers are the places in
--   a list.
-- * A function of src/markdown.c that returns a status and changes the heap is a computation of the
--   monad `M` (Markdown.Monad): from a heap to an `Outcome` and a heap. `ok` is SUCCESS, `fail` one
--   of the three negative statuses. Early returns are the failures of its `do` blocks; what was
--   staged before a failure stays in the heap.
-- * `size_t` and `uint64_t` are natural numbers; where a sum or a difference can wrap around it is
--   written `add64` or `sub64`, modulo 2^64.
-- * The ladder of `command_execute` is `parse_edit`, which reads the words of a command, followed
--   by `markdown_edit`, which makes the call. The words are read in the order of the code.
--
-- Bounds and fuel: `renumber_loop` and `lookup_lines` run on one unit of fuel for each byte of their
-- text, which is enough as each of their rounds passes at least one byte. `print_digits` of n runs
-- on fuel n + 1, which is enough as each round divides by ten. `read_commands`, `demo_loop` and
-- `broadcast_pieces` run on one unit of fuel for each byte that is left to read, as every fgets reads
-- a byte at least, and `read_exact` on one for each byte asked for and one more. All other functions
-- are structurally recursive. Where a theorem needs texts that fit into memory it asks for a length
-- below 2^64 or below 2^64 - 1.
--
-- Not modelled: failing allocations (malloc and calloc are taken to succeed); the
-- release of memory, but for the list of operations and the document that `markdown_free` takes
-- away; pthread_create, which is taken to succeed; what the servers print to their own terminals, the
-- greetings of src/client_demo.c, the messages on the error output; the tests.
-- What a stream reads is a text that holds all that the other side ever writes: how long a read waits
-- for it is not modelled.
--
-- For `client_loop` the list of the answers of `select` ends where it fails.
--
-- Assumptions about what happens outside:
-- * A write to a FIFO whose reader has gone is taken to return an error, as with SIGPIPE ignored; the
--   server does not ignore that signal, which ends it.
-- * `strtok` keeps its place in static memory, and the server calls `auth_lookup_role` outside the
--   mutex: a thread's lookup is taken to be undisturbed by the lookups of other threads.
-- * `AreFiles` describes one call at a time, with nobody else at work on the names and descriptors
--   that the program uses; what others do between two critical sections of the server is a step of
--   its own (`elsewhere`). Any call may fail, but for close and fclose, and for unlink of a name that
--   `removable` says can be removed.
-- * The number that `snprintf` returns is an int: `printed_size` is (size_t)-1 for a line of more than
--   2^31 - 1 bytes.
pub mod Base
pub mod Libc
pub mod System
pub mod Files
pub mod Markdown
pub mod Command
pub mod ServerCore
pub mod ClientRegistry
pub mod Auth
pub mod Server
pub mod Client
pub mod Arguments
pub mod Fifos
pub mod ServerDemo
pub mod ClientDemo
pub mod Tests
