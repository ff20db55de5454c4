-- ===== src/Iodaemon/Spawn/Talks.antt =====
-- What iodaemon/spawn.go and linux_backend/process_tracker/process.go tell each other, by way of
-- iodaemon/link.go and of what the daemon prints.
use warden_linux.Base.{
  ◌≡◌, ℕ, pos, suc, ◌^◌, ◌<◌, true, List, [], ◌∷◌, none, some, if◌then◌else◌, Result, ok, err,
  arith,
}
use warden_linux.Iodaemon.Spawn.Delivered.{append}
use warden_linux.Iodaemon.Spawn.{Daemon, receive, printed, is_ended}
use warden_linux.Iodaemon.{Input, resized, set_window_size}
use warden_linux.Process.{Process, WindowSize, Terminal, set_tty, set_win_size, spawn, end_of_file}
use warden_linux.System.{Error}

-- The inputs that a link sends are decoded, one after the other.
pub deliver : List Input → Daemon → Daemon
deliver [] d = d
deliver (i ∷ is) d = deliver is (receive i d)

-- What the link sends at a signal that finds its terminal with a size.
abbrev pub sent_at : WindowSize → List Input
sent_at size = (resized append (ok size) []).1

-- SetTTY with a size of 16 bits, on a process with a terminal whose link runs and whose input no link
-- has ended: the link tells the daemon, which sets the terminal of the process to that size, with
-- columns and rows in their places, and signals the process. SetTTY returns what the signal to the
-- link returned.
pub window-set_tty :
    (signal : Result Error (Unit {0})) (columns rows : ℕ) (p : Process) (t t' : Terminal)
    (d : Daemon) {r : Result Error (Unit {0})}
    → set_tty signal
        (record { window_size = some (record { columns = pos columns; rows = pos rows }) })
        p
        t
      ≡ some (r, t')
    → p.with_tty ≡ true
    → d.with_tty ≡ true
    → d.input_open ≡ true
    → columns < 2 ^ 16
    → rows < 2 ^ 16
    → ((deliver (sent_at t'.size) d).window
        ≡ some (record { columns = pos columns; rows = pos rows }))
      × ((deliver (sent_at t'.size) d).resizes ≡ suc d.resizes)
      × (r ≡ signal)
unfolding set_tty set_win_size resized set_window_size deliver receive
window-set_tty signal columns rows p t t' d set tty tty' open' c b = ground arith

-- `active` says how it stands with the process.
pub active-printed :
    (d : Daemon)
    → (spawn (ok tt) (ok tt) (printed d)).1 ≡ (
        if d.started
        then some (ok tt)
        else if is_ended d.phase
        then some (err end_of_file)
        else none)
unfolding spawn printed
active-printed d = ground arith
