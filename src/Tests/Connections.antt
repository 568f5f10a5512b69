-- ===== src/Tests/Connections.antt =====
-- Examples for clients that connect: the second signals while the server is about to read the first.
use collab_markdown_server.Base.{◌≡◌, ◌≢◌, refl, false, [], ◌∷◌, arith}
use collab_markdown_server.Libc.Numbers.Signed.{pos}
use collab_markdown_server.Fifos.{c2s_path, s2c_path, paths-differ}
use collab_markdown_server.Server.Connections.{
  Dispatch, dispatch_start, pausing, connect_signal_handler, main_step, nobody, signal, step,
}
use collab_markdown_server.Server.Connections.Started.{
  Sublist, ArePositive, started-Sublist, signals, main_steps, signals-last,
}

abbrev paused : Dispatch
paused = main_step dispatch_start

abbrev reading : Dispatch
reading = main_step (connect_signal_handler (pos 10) paused)

abbrev after_both : Dispatch
after_both = main_steps 4 (connect_signal_handler (pos 11) reading)

started-Sublist_example :
    Sublist after_both.started (pos 11 ∷ pos 10 ∷ []) × ArePositive after_both.started
started-Sublist_example =
    started-Sublist (pos 11 ∷ pos 10 ∷ []) after_both
      (step (step (step (step (signal (pos 11) (step (signal (pos 10) (step nobody))))))))

only_second : after_both.started ≡ pos 11 ∷ []
unfolding main_step connect_signal_handler
only_second = refl

signals-last_example :
    main_steps 5 (
      connect_signal_handler (pos 12) (
        signals (pos 10 ∷ pos 11 ∷ []) (record {
          place = pausing;
          connect_received = false;
          pending_client_pid = pos 0;
          started = [];
        })))
    ≡ record {
      place = pausing;
      connect_received = false;
      pending_client_pid = pos 0;
      started = pos 12 ∷ [];
    }
signals-last_example = signals-last (pos 10 ∷ pos 11 ∷ []) (pos 12) false (pos 0) []

paths-differ_example :
    (c2s_path 10 ≢ c2s_path 101)
    × (s2c_path 10 ≢ s2c_path 101)
    × (c2s_path 10 ≢ s2c_path 101)
    × (c2s_path 10 ≢ s2c_path 10)
paths-differ_example = paths-differ 10 101 (omega arith) (omega arith) (λ e. omega (arith, e))
