-- ===== src/Files.antt =====
-- The calls of the system on files, descriptors and signals, with their documented behaviour as far as
-- the program relies on it. `unlink` and `fclose` are those of `System`.
use collab_markdown_server.Base.{
  arith, true, ℕ, Bool, false, not, ◌&&◌, ◌||◌, Option, none, some, ◌≡◌, ◌==◌, if◌then◌else◌, Text,
}
use collab_markdown_server.Libc.Strings.{text_eq}
use collab_markdown_server.Libc.Numbers.Signed.{ℤ}
use collab_markdown_server.System.{System}

pub data OpenMode : Type 0 where
  o_rdonly o_wronly : OpenMode

-- SERVER_CONNECT_SIGNAL and CLIENT_READY_SIGNAL, and any other one.
pub data Signal : Type 0 where
  connect_signal ready_signal other_signal : Signal

-- `true` and `some` are success. `fdopen` takes the mode of the stream as a text.
pub record Files (W : Type 0) : Type 0 where
  pub mkfifo : Text → W → Bool × W
  pub open_file : OpenMode → Text → W → Option ℕ × W
  pub fdopen : Text → ℕ → W → Option ℕ × W
  pub close : ℕ → W → W
  pub kill : ℤ → Signal → W → Bool × W
  pub sigprocmask : W → Bool × W
  pub sigaction : W → Bool × W
  pub sigwait : W → Option Signal × W
  pub getpid : W → ℕ

-- Whether a name is in the directory, whether a descriptor is open, the descriptor of a stream, and
-- whether unlink succeeds for a name if it is there: it fails for a directory or without the rights.
pub record View (W : Type 0) : Type 0 where
  pub exists : Text → W → Bool
  pub is_open : ℕ → W → Bool
  pub fd_of : ℕ → W → ℕ
  pub removable : Text → W → Bool

-- The names and the open descriptors are as before.
pub record Same {W : Type 0} (v : View W) (w w' : W) : Type 0 where
  pub names : (q : Text) → v.exists q w' ≡ v.exists q w
  pub descriptors : (k : ℕ) → v.is_open k w' ≡ v.is_open k w

-- What opening does to the descriptors: none where it fails, else one more, which was free.
abbrev pub opened : {W : Type 0} → View W → Option ℕ → ℕ → W → Bool
opened v none k w = v.is_open k w
opened v (some fd) k w = (fd == k) || v.is_open k w

pub record AreFiles {W : Type 0} (sys : System W) (fs : Files W) (v : View W) : Type 0 where
  pub unlink_names :
      (p q : Text) (w : W)
      → v.exists q (sys.unlink p w)
        ≡ (if text_eq p q && v.removable p w then false else v.exists q w)
  pub unlink_descriptors : (p : Text) (k : ℕ) (w : W) → v.is_open k (sys.unlink p w) ≡ v.is_open k w
  pub mkfifo_names :
      (p q : Text) (w : W)
      → v.exists q (fs.mkfifo p w).1 ≡ (((fs.mkfifo p w).0 && text_eq p q) || v.exists q w)
  pub mkfifo_descriptors :
      (p : Text) (k : ℕ) (w : W) → v.is_open k (fs.mkfifo p w).1 ≡ v.is_open k w
  pub open_names :
      (m : OpenMode) (p q : Text) (w : W) → v.exists q (fs.open_file m p w).1 ≡ v.exists q w
  pub open_descriptors :
      (m : OpenMode) (p : Text) (k : ℕ) (w : W)
      → v.is_open k (fs.open_file m p w).1 ≡ opened v (fs.open_file m p w).0 k w
  pub open_free :
      (m : OpenMode) (p : Text) (fd : ℕ) (w : W)
      → (fs.open_file m p w).0 ≡ some fd
      → v.is_open fd w ≡ false
  pub fdopen_same : (m : Text) (fd : ℕ) (w : W) → Same v w (fs.fdopen m fd w).1
  pub fdopen_stream :
      (m : Text) (fd f : ℕ) (w : W)
      → (fs.fdopen m fd w).0 ≡ some f
      → v.fd_of f (fs.fdopen m fd w).1 ≡ fd
  pub fdopen_fails :
      (m : Text) (fd f : ℕ) (w : W)
      → (fs.fdopen m fd w).0 ≡ none
      → v.fd_of f (fs.fdopen m fd w).1 ≡ v.fd_of f w
  pub close_names : (fd : ℕ) (q : Text) (w : W) → v.exists q (fs.close fd w) ≡ v.exists q w
  pub close_descriptors :
      (fd k : ℕ) (w : W) → v.is_open k (fs.close fd w) ≡ (not (fd == k) && v.is_open k w)
  pub close_streams : (fd f : ℕ) (w : W) → v.fd_of f (fs.close fd w) ≡ v.fd_of f w
  pub fclose_names : (f : ℕ) (q : Text) (w : W) → v.exists q (sys.fclose f w) ≡ v.exists q w
  pub fclose_descriptors :
      (f k : ℕ) (w : W) → v.is_open k (sys.fclose f w) ≡ (not (v.fd_of f w == k) && v.is_open k w)
  pub fprintf_names : (p q : Text) (f : ℕ) (w : W) → v.exists q (sys.fprintf p f w) ≡ v.exists q w
  pub kill_same : (pid : ℤ) (signal : Signal) (w : W) → Same v w (fs.kill pid signal w).1
  pub sigprocmask_same : (w : W) → Same v w (fs.sigprocmask w).1
  pub sigaction_same : (w : W) → Same v w (fs.sigaction w).1
  -- Others may make and remove names while the program waits.
  pub sigwait_descriptors : (k : ℕ) (w : W) → v.is_open k (fs.sigwait w).1 ≡ v.is_open k w

-- unlink does not fail for the two names.
abbrev pub AreRemovable : {W : Type 0} → View W → Text → Text → Type 0
AreRemovable {W} v c s = ((w : W) → v.removable c w ≡ true) × ((w : W) → v.removable s w ≡ true)

pub unlink-removable :
    {W : Type 0} (sys : System W) (fs : Files W) (v : View W) (laws : AreFiles sys fs v)
    (p q : Text) (w : W)
    → v.removable p w ≡ true
    → v.exists q (sys.unlink p w) ≡ (if text_eq p q then false else v.exists q w)
unlink-removable sys fs v laws p q w can = ground (arith, laws.unlink_names p q w, can)
