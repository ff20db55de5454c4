-- ===== src/Iodaemon/Spawn.antt =====
-- iodaemon/spawn.go: the daemon that runs a process and serves the links to it, one after the other.
-- What it does between two waits is one step; the goroutine that waits for the child takes its step
-- at any time.
pub mod Delivered
pub mod Ended
pub mod Talks
pub mod Examples
use warden_linux.Base.{
  ◌≡◌, ℕ, suc, Bool, true, false, not, ◌&&◌, ◌||◌, List, [], ◌∷◌, ◌++◌, String, Option, none, some,
  if◌then◌else◌, Result, ok, err, Exec, ◌>>=◌, ◌>>◌, pure,
}
use warden_linux.Iodaemon.{Input, status_line}
use warden_linux.Process.{WindowSize, Output, set_win_size}
use warden_linux.System.{Error, WaitStatus}

-- Where the loop is: at Accept, at Decode on the connection of a link, or past the exit of the
-- daemon, with its status.
pub data Phase : Type 0 where
  accepting serving : Phase
  ended : ℕ → Phase

abbrev pub is_ended : Phase → Bool
is_ended (ended status) = true
is_ended _ = false

-- `input_open` says that stdinW is not closed (of a terminal a link has a descriptor of its own, so
-- that closing stdinW is no end of input for the process), and `child_reads` that its other end is not; `stdin` is
-- what was written to it, and `status` what was written to statusW. `window` is the size of the
-- terminal, and `resizes` the number of signals SIGWINCH that the child was sent.
pub record Daemon : Type 0 where
  pub with_tty : Bool
  pub started : Bool
  pub input_open : Bool
  pub child_reads : Bool
  pub stdin : List String
  pub window : Option WindowSize
  pub resizes : ℕ
  pub status : String
  pub phase : Phase

-- The daemon that has printed "ready".
pub new : Bool → WindowSize → Daemon
new with_tty window = record {
  with_tty = with_tty;
  started = false;
  input_open = true;
  child_reads = true;
  stdin = [];
  window = if with_tty then some (set_win_size window) else none;
  resizes = 0;
  status = "";
  phase = accepting;
}

-- The calls of the operating system before the loop.
pub record Setup (W : Type 0) : Type 0 where
  pub mkdir_socket : Exec W Error (Unit {0})
  pub listen : Exec W Error (Unit {0})
  pub look_path : Exec W Error String
  pub pipe : Exec W Error (Unit {0})
  pub open_pty : Exec W Error (Unit {0})

-- An error is fatal: the daemon exits with 1 and has not printed "ready".
pub setup : {W : Type 0} → Setup W → Bool → WindowSize → Exec W Error Daemon
unfolding new
setup os with_tty window = do
  os.mkdir_socket
  os.listen
  bin ← os.look_path
  os.pipe
  if with_tty then os.open_pty else (os.pipe >> os.pipe)
  os.pipe
  pure (new with_tty window)

-- The three descriptors for a link are open: a terminal is the child's input and output in one, so
-- that its output is closed with its input.
pub rights_open : Daemon → Bool
rights_open d = d.input_open || not d.with_tty

-- A link has connected. `sent` says that a message with descriptors that are open could be written to
-- it; where it cannot, `break` leaves the loop, and the daemon ends. `start` is what Start of the
-- child returns.
pub accept : Bool → Result Error (Unit {0}) → Daemon → Daemon
unfolding rights_open
accept sent start d =
    if sent && rights_open d
    then (if d.started then record d { phase = serving } else elim start [
      | ok done ↦ record d { started = true; phase = serving }
      | err e ↦ record d { phase = ended 1 }
    ])
    else record d { phase = ended 0 }

abbrev resize : WindowSize → Daemon → Daemon
resize w d = record d {
  window = if d.with_tty && d.input_open then some (set_win_size w) else d.window;
  resizes = suc d.resizes;
}

-- An input was decoded. Where it cannot be passed on, the connection is closed.
pub receive : Input → Daemon → Daemon
receive i d = elim i.window_size [
  | some w ↦ resize w d
  | none ↦
      if i.eof
      then (if d.input_open
          then record d { input_open = false }
          else record d { phase = accepting })
      else if d.input_open && d.child_reads
      then record d { stdin = d.stdin ++ i.chunk ∷ [] }
      else record d { phase = accepting }
]

-- Decode returns an error, such as at the end of a connection.
pub hang_up : Daemon → Daemon
hang_up d = record d { phase = accepting }

-- The child has ended.
pub child_exit : Option WaitStatus → Daemon → Daemon
child_exit status d = record d { status = status_line status; phase = ended 0 }

-- What the daemon has printed for Spawn to read: "ready", and "pid:" once the child has started; then
-- it closes its output.
unfoldable pub printed : Daemon → Output
printed d = record { lines = if d.started then 2 else 1; closed = d.started || is_ended d.phase }

-- The steps at which no input is decoded.
pub data Quiet : Daemon → Daemon → Type 0 where
  connects :
      (sent : Bool) (start : Result Error (Unit {0})) (d : Daemon)
      → d.phase ≡ accepting
      → Quiet d (accept sent start d)
  accept_fails : (d : Daemon) → d.phase ≡ accepting → Quiet d (record d { phase = ended 1 })
  hangs_up : (d : Daemon) → d.phase ≡ serving → Quiet d (hang_up d)
  stops_reading : (d : Daemon) → Quiet d (record d { child_reads = false })
  exits :
      (status : Option WaitStatus) (d : Daemon)
      → d.started ≡ true
      → is_ended d.phase ≡ false
      → Quiet d (child_exit status d)

-- What may happen, with the inputs that are decoded, on all connections, in their order.
pub data Run : Daemon → List Input → Daemon → Type 0 where
  stop : {d : Daemon} → Run d [] d
  quiet : {d e f : Daemon} {is : List Input} → Quiet d e → Run e is f → Run d is f
  takes :
      {d e : Daemon} (i : Input) {is : List Input}
      → d.phase ≡ serving
      → Run (receive i d) is e
      → Run d (i ∷ is) e
