-- ===== src/Iodaemon/Flags/CommandLines.antt =====
-- What iodaemon/main.go makes of the command lines of linux_backend/process_tracker/process.go.
use mathlib.Core.List.{append_assoc}
use warden_linux.Base.{
  ◌≡◌, refl, ap, ◌∙◌, ℕ, ℤ, Bool, true, false, List, [], ◌∷◌, ◌++◌, String, Option, none, some,
  if◌then◌else◌,
}
use warden_linux.Iodaemon.Flags.{
  Flags, defaults, main, spawns, links, flag, run, dispatch, token, split_value, set_flag,
  parse_bool,
}
use warden_linux.Process.{WindowSize, TtySpec, spawn_cmd, tty_flags, window_flags}
use warden_linux.ProcessTracker
use warden_linux.ProcessTracker.{link_cmd}
use warden_linux.System.{Cmd}
use warden_linux.Text.{◌<>◌, ◌===◌, decimal, decimal_int, path_join}
use warden_linux.Iodaemon.Flags.Tokens.{IsInt, parse_int-decimal_int, token-columns, token-rows}

-- What `bash -c script name args` passes on to the script as "$@".
abbrev pub bash_args : List String → List String
bash_args (c ∷ script ∷ name ∷ args) = args
bash_args _ = []

abbrev pub process_sock : String → ℕ → String
process_sock container_path id =
    path_join (container_path ∷ "processes" ∷ (decimal id <> ".sock") ∷ [])

abbrev pub window_set : Option WindowSize → Flags → Flags
window_set none f = f
window_set (some w) f = record f { window_columns = w.columns; window_rows = w.rows }

abbrev pub tty_set : Option TtySpec → Flags → Flags
tty_set none f = f
tty_set (some tty) f = window_set tty.window_size (record f { tty = true })

-- The sizes are ints.
abbrev pub FitsWindow : Option WindowSize → Type 0
FitsWindow none = Unit {0}
FitsWindow (some w) = IsInt w.columns × IsInt w.rows

abbrev pub Fits : Option TtySpec → Type 0
Fits none = Unit {0}
Fits (some tty) = FitsWindow tty.window_size

module _ (is_duration : String → Bool) where
  run-spawn :
      (sock path : String) (args : List String) (f : Flags)
      → run is_duration ("spawn" ∷ sock ∷ path ∷ args) f ≡ spawns sock path (path ∷ args) f
  unfolding run token dispatch
  run-spawn sock path args f = refl

  run-tty :
      (v : String) (rest : List String) (f : Flags)
      → run is_duration ("-tty" ∷ v ∷ rest) f ≡ run is_duration (v ∷ rest) (record f { tty = true })
  unfolding run token split_value
  run-tty v rest f = refl

  run-valued :
      (s name value v : String) (rest : List String) (f g : Flags)
      → token s ≡ flag name (some value)
      → (name === "tty") ≡ false
      → set_flag is_duration name value f ≡ some g
      → run is_duration (s ∷ v ∷ rest) f ≡ run is_duration (v ∷ rest) g
  unfolding run
  run-valued s name value v rest f g read other set = rw (read, run) (rw (other) (rw (set) refl))

  set_columns-decimal_int :
      (n : ℤ) (f : Flags)
      → IsInt n
      → set_flag is_duration "windowColumns" (decimal_int n) f
        ≡ some (record f { window_columns = n })
  unfolding set_flag
  set_columns-decimal_int n f b = rw (parse_int-decimal_int n b) refl

  set_rows-decimal_int :
      (n : ℤ) (f : Flags)
      → IsInt n
      → set_flag is_duration "windowRows" (decimal_int n) f ≡ some (record f { window_rows = n })
  unfolding set_flag
  set_rows-decimal_int n f b = rw (parse_int-decimal_int n b) refl

  run-window_flags :
      (window : Option WindowSize) (sock path : String) (args : List String) (f : Flags)
      → FitsWindow window
      → run is_duration (window_flags window ++ "spawn" ∷ sock ∷ path ∷ args) f
        ≡ spawns sock path (path ∷ args) (window_set window f)
  run-window_flags none sock path args f b = run-spawn sock path args f
  run-window_flags (some w) sock path args f b =
      let rows = "-windowRows=" <> decimal_int w.rows in
      let wide : Flags = record f { window_columns = w.columns } in
      run-valued ("-windowColumns=" <> decimal_int w.columns) "windowColumns"
        (decimal_int w.columns) rows ("spawn" ∷ sock ∷ path ∷ args) f wide
        (token-columns (decimal_int w.columns)) refl (set_columns-decimal_int w.columns f b.0)
      ∙ run-valued rows "windowRows" (decimal_int w.rows) "spawn" (sock ∷ path ∷ args) wide
          (record wide { window_rows = w.rows }) (token-rows (decimal_int w.rows)) refl
          (set_rows-decimal_int w.rows wide b.1)
      ∙ run-spawn sock path args (window_set (some w) f)

  run-tty_window :
      (window : Option WindowSize) (sock path : String) (args : List String) (f : Flags)
      → run is_duration ("-tty" ∷ (window_flags window ++ "spawn" ∷ sock ∷ path ∷ args)) f
        ≡ run is_duration
            (window_flags window ++ "spawn" ∷ sock ∷ path ∷ args)
            (record f { tty = true })
  run-tty_window none sock path args f = run-tty "spawn" (sock ∷ path ∷ args) f
  run-tty_window (some w) sock path args f =
      run-tty ("-windowColumns=" <> decimal_int w.columns)
        (("-windowRows=" <> decimal_int w.rows) ∷ "spawn" ∷ sock ∷ path ∷ args) f

  run-tty_flags :
      (tty : Option TtySpec) (sock path : String) (args : List String)
      → Fits tty
      → run is_duration (tty_flags tty ++ "spawn" ∷ sock ∷ path ∷ args) defaults
        ≡ spawns sock path (path ∷ args) (tty_set tty defaults)
  run-tty_flags none sock path args b = run-spawn sock path args defaults
  run-tty_flags (some tty) sock path args b =
      run-tty_window tty.window_size sock path args defaults
      ∙ run-window_flags tty.window_size sock path args (record defaults { tty = true }) b

  run-link :
      (with_tty : Bool) (sock : String) (f : Flags)
      → run is_duration (("-tty=" <> (if with_tty then "true" else "false")) ∷ "link" ∷ sock ∷ []) f
        ≡ links sock
  unfolding run token split_value parse_bool dispatch
  run-link true sock f = refl
  run-link false sock f = refl

  -- The daemon and the link of a process understand each other: from the arguments that Spawn gives to
  -- bash, the one reads the socket of the process, its path, its arguments with the path before them,
  -- and a terminal where there is one, with its size, two ints of 64 bits, where that is given and 80
  -- by 24 where it is not;
  -- whatever the path and the arguments are. And from those of runLinker, the other reads the same
  -- socket.
  pub main-spawn_cmd :
      (container_path : String) (p : ProcessTracker.Process) (cmd : Cmd) (tty : Option TtySpec)
      → Fits tty
      → (main is_duration (bash_args (spawn_cmd container_path p.id cmd tty).args)
          ≡ spawns
              (process_sock container_path p.id)
              cmd.path
              (cmd.path ∷ cmd.args)
              (tty_set tty defaults))
        × (main is_duration (link_cmd container_path p).args
            ≡ links (process_sock container_path p.id))
  unfolding main spawn_cmd link_cmd
  main-spawn_cmd container_path p cmd tty b = (
    ap (λ args. run is_duration args defaults)
          (append_assoc (tty_flags tty) ("spawn" ∷ process_sock container_path p.id ∷ cmd.path ∷ [])
            cmd.args)
        ∙ run-tty_flags tty (process_sock container_path p.id) cmd.path cmd.args b,
    run-link p.with_tty (process_sock container_path p.id) defaults,
  )
