-- ===== src/Fifos.antt =====
-- The names of the two FIFOs of a client: `build_fifo_paths`, the same in src/server.c and
-- src/client.c.
pub mod Open
pub mod Demo
use collab_markdown_server.Base.{
  ℕ, ◌-◌, ◌^◌, ◌<◌, ◌≡◌, ◌≢◌, refl, ap, sym, ◌∙◌, ◌++◌, arith, length, length-append, take, drop,
  take-length_le, Text, codes, word_mod, byte_at,
}
use collab_markdown_server.Libc.Numbers.{decimal, strtoul}
use collab_markdown_server.Libc.Numbers.RoundTrip.{strtoul-decimal, decimal-length}

abbrev fifo_path_size : ℕ
fifo_path_size = 128

-- snprintf(path, size, …), which keeps one byte for the NUL.
abbrev snprintf : ℕ → Text → Text
snprintf size text = take (size - 1) text

-- The paths from the client to the server and back, for a pid that is not negative.
unfoldable pub build_fifo_paths : ℕ → ℕ → ℕ → Text × Text
build_fifo_paths client_pid c2s_size s2c_size = (
  snprintf c2s_size (codes "FIFO_C2S_" ++ decimal client_pid),
  snprintf s2c_size (codes "FIFO_S2C_" ++ decimal client_pid),
)

abbrev pub c2s_path : ℕ → Text
c2s_path pid = (build_fifo_paths pid fifo_path_size fifo_path_size).0

abbrev pub s2c_path : ℕ → Text
s2c_path pid = (build_fifo_paths pid fifo_path_size fifo_path_size).1

module _ (pid : ℕ) (small : pid < 2 ^ 31) where
  whole : (front : Text) → length front ≡ 9 → take 127 (front ++ decimal pid) ≡ front ++ decimal pid
  whole front nine =
      take-length_le 127 (front ++ decimal pid)
        (omega (arith, length-append front (decimal pid), decimal-length pid (omega arith)))

  c2s-whole : c2s_path pid ≡ codes "FIFO_C2S_" ++ decimal pid
  unfolding build_fifo_paths
  c2s-whole = whole (codes "FIFO_C2S_") refl

  s2c-whole : s2c_path pid ≡ codes "FIFO_S2C_" ++ decimal pid
  unfolding build_fifo_paths
  s2c-whole = whole (codes "FIFO_S2C_") refl

decimal_inj : (p q : ℕ) → p < 2 ^ 31 → q < 2 ^ 31 → decimal p ≡ decimal q → p ≡ q
decimal_inj p q hp hq e =
    let value = λ (n : ℕ) (h : n < word_mod). ap (λ (r : ℕ × Text). r.0) (strtoul-decimal n h) in
    sym (value p (omega arith)) ∙ (ap (λ (s : Text). (strtoul s).0) e ∙ value q (omega arith))

-- No two FIFOs have one name: the paths of clients with different pids are different, in both
-- directions and across, and so are the two paths of one client.
pub paths-differ :
    (p q : ℕ)
    → p < 2 ^ 31
    → q < 2 ^ 31
    → p ≢ q
    → (c2s_path p ≢ c2s_path q)
      × (s2c_path p ≢ s2c_path q)
      × (c2s_path p ≢ s2c_path q)
      × (c2s_path p ≢ s2c_path p)
paths-differ p q hp hq other =
    let digits = λ (e : decimal p ≡ decimal q). other (decimal_inj p q hp hq e) in
    (
      λ e. digits (ap (drop 9) (sym (c2s-whole p hp) ∙ (e ∙ c2s-whole q hq))),
      λ e. digits (ap (drop 9) (sym (s2c-whole p hp) ∙ (e ∙ s2c-whole q hq))),
      λ e.
          omega
            (arith, ap (λ (t : Text). byte_at t 5) (sym (c2s-whole p hp) ∙ (e ∙ s2c-whole q hq))),
      λ e.
          omega
            (arith, ap (λ (t : Text). byte_at t 5) (sym (c2s-whole p hp) ∙ (e ∙ s2c-whole p hp))),
    )
