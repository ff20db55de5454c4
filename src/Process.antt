-- ===== src/Process.antt =====
-- linux_backend/process_tracker/process.go: one process, the linker that follows it, and those who
-- wait for it or unlink it. The goroutines meet at two channels and a condition variable; what one of
-- them does between two waits is one step. The close of the input that the linker ends with, which may
-- wait for ever, is in ProcessStreams.
pub mod Progress
pub mod Examples
use warden_linux.Base.{
  ◌≡◌, ℕ, zero, suc, ◌%◌, ◌^◌, ◌-◌, ℤ, pos, negsuc, Result, ok, err, Bool, true, false, List, [],
  ◌∷◌, ◌++◌, String, Option, none, some, if◌then◌else◌,
}
use warden_linux.System.{Cmd, Error, WaitStatus, exit_status}
use warden_linux.Text.{◌<>◌, decimal, decimal_int, path_join}

-- What `Wait` returns: a status and no error, or -1 and an error.
pub data Outcome : Type 0 where
  finished : ℤ → Outcome
  failed : Error → Outcome

-- Where the linker is: before the only run of runLinker, while `iodaemon link` runs, at the channel
-- `unlinked` after it has exited (with the status in ProcessState, if that is set), or behind it.
pub data Phase : Type 0 where
  idle : Phase
  running : Phase
  waiting : Option WaitStatus → Phase
  ended : Phase

-- `linked` says that the channel is closed, `unlinked` that the channel holds its value; `outcome`
-- stands for done, exitStatus and exitErr.
pub record Process : Type 0 where
  pub id : ℕ
  pub with_tty : Bool
  pub phase : Phase
  pub linked : Bool
  pub unlinked : Bool
  pub outcome : Option Outcome

-- NewProcess
pub new : ℕ → Bool → Process
new id with_tty = record {
  id = id;
  with_tty = with_tty;
  phase = idle;
  linked = false;
  unlinked = true;
  outcome = none;
}

-- `wait` is blocked while this is none.
pub wait : Process → Option Outcome
wait p = p.outcome

pub completed : Outcome → Process → Process
completed outcome p = elim p.outcome [
  | none ↦ record p { outcome = some outcome }
  | some earlier ↦ p
]

-- runLinker where the terminal or the pipe cannot be opened, or the link cannot be started.
pub link_failed : Error → Process → Process
unfolding completed
link_failed e p = completed (failed e) (record p { phase = ended })

-- The link runs, and the channel `linked` is closed.
pub link_started : Process → Process
link_started p = record p { phase = running; linked = true }

-- runner.Wait has returned.
pub link_exited : Option WaitStatus → Process → Process
link_exited status p = record p { phase = waiting status }

abbrev pub outcome_of : Option WaitStatus → Outcome
outcome_of none = failed (Error.os "could not determine exit status")
outcome_of (some status) = finished (exit_status status)

-- The value was read off `unlinked`.
pub link_ended : Option WaitStatus → Process → Process
unfolding completed
link_ended status p = completed (outcome_of status) (record p { phase = ended; unlinked = false })

-- Unlink behind `<-p.linked`: it takes the value and interrupts the link, or the value is gone.
pub unlink : Process → Bool × Process
unlink p = if p.unlinked then (true, record p { unlinked = false }) else (false, p)

pub data Step : Process → Process → Type 0 where
  fails : (e : Error) (p : Process) → p.phase ≡ idle → Step p (link_failed e p)
  starts : (p : Process) → p.phase ≡ idle → Step p (link_started p)
  exits :
      (status : Option WaitStatus) (p : Process) → p.phase ≡ running → Step p (link_exited status p)
  ends :
      (status : Option WaitStatus) (p : Process)
      → p.phase ≡ waiting status
      → p.unlinked ≡ true
      → Step p (link_ended status p)
  unlinks : (p : Process) → p.linked ≡ true → Step p (unlink p).1

pub data Steps : Process → Process → Type 0 where
  here : {p : Process} → Steps p p
  then : {p q r : Process} → Steps p q → Step q r → Steps p r

-- warden.WindowSize
pub record WindowSize : Type 0 where
  pub columns : ℤ
  pub rows : ℤ

-- `uint16(n)`, of an int
abbrev pub to_u16 : ℤ → ℤ
to_u16 (pos n) = pos (n % 2 ^ 16)
to_u16 (negsuc n) = pos (2 ^ 16 - 1 - n % 2 ^ 16)

-- SetWinSize of ptyutil/winsize.go, on a terminal: the size that it then has.
unfoldable pub set_win_size : WindowSize → WindowSize
set_win_size w = record { columns = to_u16 w.columns; rows = to_u16 w.rows }

-- warden.TTYSpec
pub record TtySpec : Type 0 where
  pub window_size : Option WindowSize

-- The terminal between a process and its link: its size, and how many signals SIGWINCH were sent to
-- the link.
pub record Terminal : Type 0 where
  pub size : WindowSize
  pub resizes : ℕ

abbrev pub resize_to : Option WindowSize → WindowSize → WindowSize
resize_to none size = size
resize_to (some w) size = set_win_size w

-- SetTTY, which waits while `linked` is open. `signal` is what Signal returns: an error where the link
-- has exited. A process with no terminal of its own has nothing to set.
unfoldable pub set_tty :
    Result Error (Unit {0})
    → TtySpec
    → Process
    → Terminal
    → Option (Result Error (Unit {0}) × Terminal)
set_tty signal tty p t =
    if p.linked
    then (if p.with_tty
        then some
            (signal, record { size = resize_to tty.window_size t.size; resizes = suc t.resizes })
        else some (ok tt, t))
    else none

-- What Spawn sends on its channels `ready` and `active`: none while nothing was sent.
abbrev pub Channel : Type 0
Channel = Option (Result Error (Unit {0}))

-- The output of the command that Spawn runs: its complete lines, and whether it is closed.
pub record Output : Type 0 where
  pub lines : ℕ
  pub closed : Bool

abbrev pub end_of_file : Error
end_of_file = Error.os "EOF"

abbrev unless_closed : Bool → Channel
unless_closed closed = if closed then some (err end_of_file) else none

abbrev read_lines : ℕ → Bool → Channel × Channel
read_lines zero closed = (unless_closed closed, none)
read_lines (suc zero) closed = (some (ok tt), unless_closed closed)
read_lines (suc (suc n)) closed = (some (ok tt), some (ok tt))

-- Spawn, with what StdoutPipe and Background return: the two channels when its goroutine has read what
-- there is of the output.
unfoldable pub spawn :
    Result Error (Unit {0}) → Result Error (Unit {0}) → Output → Channel × Channel
spawn (err e) background out = (some (err e), none)
spawn (ok done) (err e) out = (some (err e), none)
spawn (ok done) (ok begun) out = read_lines out.lines out.closed

abbrev pub window_flags : Option WindowSize → List String
window_flags none = []
window_flags (some w) =
    ("-windowColumns=" <> decimal_int w.columns) ∷ ("-windowRows=" <> decimal_int w.rows) ∷ []

abbrev pub tty_flags : Option TtySpec → List String
tty_flags none = []
tty_flags (some tty) = "-tty" ∷ window_flags tty.window_size

-- The command that Spawn runs in the background.
unfoldable pub spawn_cmd : String → ℕ → Cmd → Option TtySpec → Cmd
spawn_cmd container_path id cmd tty = record {
  path = "bash";
  args =
      ("-c" ∷ (spawn_path <> " \"$@\" &") ∷ spawn_path ∷ [])
      ++ tty_flags tty
      ++ ("spawn" ∷ process_sock ∷ cmd.path ∷ [])
      ++ cmd.args;
  env = cmd.env;
}
  where
    spawn_path : String
    spawn_path = path_join (container_path ∷ "bin" ∷ "iodaemon" ∷ [])

    process_sock : String
    process_sock = path_join (container_path ∷ "processes" ∷ (decimal id <> ".sock") ∷ [])
