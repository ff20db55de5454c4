-- ===== src/Container/Run/Options.antt =====
-- The options of linux_backend/src/wsh/wsh.c, and what it makes of the command line that
-- linux_backend/linux_container.go writes.
pub mod Examples
use Prim.Native.Char.{code}
use warden_linux.Base.{
  Bool, true, false, List, [], ◌∷◌, ◌++◌, String, Option, none, some, if◌then◌else◌, ◌==◌, ◌||◌,
}
use warden_linux.Container.{Container}
use warden_linux.Text.{◌===◌}

-- wsh_t, as far as the options set it.
pub record Wsh : Type 0 where
  pub socket_path : Option String
  pub user : Option String
  pub dir : Option String
  pub environment_variables : List String

abbrev pub no_options : Wsh
no_options = record { socket_path = none; user = none; dir = none; environment_variables = [] }

-- `rsh` is where the compatibility mode begins.
pub data Parsed : Type 0 where
  parsed : Wsh → List String → Parsed
  usage rsh invalid : Parsed

unfoldable pub is_option : String → Bool
is_option String.[] = false
is_option (String.◌∷◌ c s) = code c == 45

-- wsh__getopt, on the arguments behind the name of the program.
unfoldable pub getopt : Wsh → List String → Parsed
unfolding is_option
getopt w [] = parsed w []
getopt w (a ∷ []) =
    if is_option a
    then (if a === "-h" || a === "--help" then usage else if a === "--rsh" then rsh else invalid)
    else parsed w (a ∷ [])
getopt w (a ∷ v ∷ rest) =
    let with_socket = getopt (record w { socket_path = some v }) rest in
    let with_user = getopt (record w { user = some v }) rest in
    let with_dir = getopt (record w { dir = some v }) rest in
    let with_env =
      getopt (record w { environment_variables = w.environment_variables ++ v ∷ [] }) rest in
    if is_option a
    then (if a === "-h" || a === "--help"
        then usage
        else if a === "--socket"
        then with_socket
        else if a === "--user"
        then with_user
        else if a === "--dir"
        then with_dir
        else if a === "--env"
        then with_env
        else if a === "--rsh"
        then rsh
        else invalid)
    else parsed w (a ∷ v ∷ rest)

abbrev pub dir_of : String → Option String
dir_of dir = if dir === "" then none else some dir
