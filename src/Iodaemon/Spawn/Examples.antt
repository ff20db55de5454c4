-- ===== src/Iodaemon/Spawn/Examples.antt =====
-- The theorems on iodaemon at a process that reads from two links, and at one whose second link finds
-- its terminal closed.
use warden_linux.Base.{◌≡◌, refl, pos, true, false, ◌&&◌, List, [], ◌∷◌, some, ok, Result, arith}
use warden_linux.Iodaemon.Spawn.Delivered.{stdin-links}
use warden_linux.Iodaemon.Spawn.Ended.{after_exit, link_end-refused, wait-child_exit}
use warden_linux.Iodaemon.Spawn.{
  Daemon, ended, accepting, new, rights_open, accept, receive, hang_up, Run, stop, quiet, takes,
  connects, hangs_up,
}
use warden_linux.Iodaemon.{Input, write, close, copy, copy_stdin, data_input, eof_input, link_end}
use warden_linux.Process
use warden_linux.Process.Examples.{linked, to_linked, linked_runs, linked_whole}
use warden_linux.Process.{
  Process, Terminal, set_tty, set_win_size, WindowSize, TtySpec, Steps, finished, spawn_cmd,
}
use warden_linux.System.{Error, exited}

abbrev window : WindowSize
window = record { columns = pos 80; rows = pos 24 }

abbrev begun : Result Error (Unit {0})
begun = ok tt

abbrev ready : Daemon
ready = new false window

abbrev first_link : Daemon
first_link = receive (data_input "hello") (accept true begun ready)

abbrev size_input : Input
size_input = record { chunk = ""; eof = false; window_size = some window }

abbrev sized : Daemon
sized = receive size_input first_link

abbrev second_link : Daemon
second_link = receive (data_input "goodbye") (accept true begun (hang_up sized))

abbrev exhausted : Daemon
exhausted = receive eof_input second_link

abbrev decoded : List Input
decoded = data_input "hello" ∷ size_input ∷ data_input "goodbye" ∷ eof_input ∷ []

two_links : Run ready decoded exhausted
unfolding new accept receive hang_up
two_links = quiet (connects true begun ready refl) (
    takes (data_input "hello") refl (
      takes size_input refl (
        quiet (hangs_up sized refl) (
          quiet (connects true begun (hang_up sized) refl)
            (takes (data_input "goodbye") refl (takes eof_input refl stop))))))

exhausted_reads : exhausted.child_reads ≡ true
unfolding new accept receive hang_up
exhausted_reads = refl

stdin-links_example : (exhausted.stdin ≡ "hello" ∷ "goodbye" ∷ []) × (exhausted.input_open ≡ false)
unfolding write close copy copy_stdin
stdin-links_example =
    stdin-links window (("hello" ∷ []) ∷ []) ("goodbye" ∷ []) decoded refl two_links exhausted_reads

-- A process with a terminal, whose first link has ended its input and is gone.
abbrev terminal : Daemon
terminal = new true window

abbrev closed : Daemon
closed = hang_up (receive eof_input (accept true begun terminal))

to_closed : Run terminal (eof_input ∷ []) closed
unfolding new accept receive hang_up
to_closed = quiet (connects true begun terminal refl) (
    takes eof_input refl
      (quiet (hangs_up (receive eof_input (accept true begun terminal)) refl) stop))

closed_accepting : closed.phase ≡ accepting
unfolding hang_up
closed_accepting = refl

closed_refuses : (true && rights_open closed) ≡ false
unfolding new accept receive hang_up rights_open
closed_refuses = refl

link_end-refused_example :
    ((accept true begun closed).phase ≡ ended 0)
    × (link_end (accept true begun closed).status ≡ exited 1)
link_end-refused_example =
    link_end-refused true window true begun to_closed closed_accepting closed_refuses stop

wait-child_exit_example :
    Steps linked (after_exit exhausted (exited 42) linked)
    × (Process.wait (after_exit exhausted (exited 42) linked) ≡ some (finished (pos 42)))
wait-child_exit_example =
    wait-child_exit 1 false exhausted (exited 42) to_linked linked_runs linked_whole (omega arith)
