-- ===== src/System.antt =====
-- What the program calls and does not implement: the command runner
-- (github.com/cloudfoundry/gunk/command_runner) and the operating system. They are a parameter: a
-- type of worlds, and what each call does to the world and returns.
use warden_linux.Base.{ℕ, ℤ, pos, negsuc, ◌≡◌, ok, List, String, Bool, Exec}
use warden_linux.NetworkPool.{NetworkError}
use warden_linux.PortPool.{PortError}
use warden_linux.UidPool.{UidError}

-- exec.Cmd: the fields that the program sets. Its streams are not modelled.
pub record Cmd : Type 0 where
  pub path : String
  pub args : List String
  pub env : List String

-- The errors that the program returns. `os` is one that a call of the runner, the operating system
-- or a library returned.
pub data Error : Type 0 where
  os : String → Error
  uids : UidError → Error
  networks : NetworkError → Error
  ports : PortError → Error
  unknown_rootfs_provider : Error
  invalid_docker_url : Error
  unknown_handle : String → Error
  failed_to_snapshot : Error → Error
  unknown_process : ℕ → Error
  no_network_or_port : Error
  bad_number : String → Error
  unknown_tag : String → String → Error
  all_endpoints_failed : Error → Error
  no_endpoints : Error
  must_specify : String → Error

-- syscall.WaitStatus: how a process ended, with its status byte or the signal that killed it.
pub data WaitStatus : Type 0 where
  exited : ℕ → WaitStatus
  signaled : ℕ → WaitStatus

-- WaitStatus.ExitStatus
abbrev pub exit_status : WaitStatus → ℤ
exit_status (exited status) = pos status
exit_status (signaled signal) = negsuc 0

pub record System (W : Type 0) : Type 0 where
  -- os.Getenv("PATH")
  pub search_path : String
  -- Run, Start, Kill and Signal of the command runner; `output` is Run with a buffer for the
  -- command's output.
  pub run : Cmd → Exec W Error (Unit {0})
  pub start : Cmd → Exec W Error (Unit {0})
  pub kill : Cmd → W → W
  pub interrupt : Cmd → W → W
  pub output : Cmd → Exec W Error String
  -- os.Pipe, and Start of a command that writes to the pipe: all that it writes.
  pub pipe : Cmd → Exec W Error String
  -- ioutil.ReadFile, ioutil.WriteFile, os.MkdirAll, os.RemoveAll, os.Stat, ioutil.ReadDir
  pub read_file : String → Exec W Error String
  pub write_file : String → String → Exec W Error (Unit {0})
  pub mkdir_all : String → Exec W Error (Unit {0})
  pub remove_all : String → W → W
  pub exists : String → W → Bool
  pub read_dir : String → Exec W Error (List String)

-- A system on which no command and no write fails.
pub record Succeeds {W : Type 0} (sys : System W) : Type 0 where
  pub run_ok : (cmd : Cmd) (w : W) → (sys.run cmd w).0 ≡ ok tt
  pub start_ok : (cmd : Cmd) (w : W) → (sys.start cmd w).0 ≡ ok tt
  pub write_ok : (file text : String) (w : W) → (sys.write_file file text w).0 ≡ ok tt
