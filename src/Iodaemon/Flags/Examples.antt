-- ===== src/Iodaemon/Flags/Examples.antt =====
-- The command lines of a process with a terminal, as iodaemon reads them.
use warden_linux.Base.{◌≡◌, true, [], ◌∷◌, pos, negsuc, some, arith}
use warden_linux.Iodaemon.Flags.CommandLines.{bash_args, process_sock, tty_set, main-spawn_cmd}
use warden_linux.Iodaemon.Flags.{defaults, main, spawns, links}
use warden_linux.Process.{TtySpec, spawn_cmd}
use warden_linux.ProcessTracker
use warden_linux.ProcessTracker.{link_cmd}
use warden_linux.System.{Cmd}

abbrev terminal : TtySpec
terminal = record { window_size = some (record { columns = pos 111; rows = negsuc 221 }) }

abbrev process : ProcessTracker.Process
process = record { id = 7; with_tty = true; linkable = true }

abbrev shell : Cmd
shell = record { path = "/depot/c1/bin/wsh"; args = "-tty" ∷ "sh" ∷ []; env = [] }

main-spawn_cmd_example :
    (main (λ s. true) (bash_args (spawn_cmd "/depot/c1" 7 shell (some terminal)).args)
      ≡ spawns
          (process_sock "/depot/c1" 7)
          shell.path
          (shell.path ∷ shell.args)
          (tty_set (some terminal) defaults))
    × (main (λ s. true) (link_cmd "/depot/c1" process).args ≡ links (process_sock "/depot/c1" 7))
main-spawn_cmd_example =
    main-spawn_cmd (λ s. true) "/depot/c1" process shell (some terminal) (omega arith)
