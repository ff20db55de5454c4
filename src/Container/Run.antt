-- ===== src/Container/Run.antt =====
-- Run and Attach of linux_backend/linux_container.go.
pub mod Options
use warden_linux.Base.{
  ℕ, Bool, false, true, List, [], ◌∷◌, ◌++◌, String, Option, none, some, if◌then◌else◌, Result, err,
  Exec, ◌>>=◌,
}
use warden_linux.Container.{Container, Host}
use warden_linux.Process.{TtySpec, spawn_cmd}
use warden_linux.ProcessTracker
use warden_linux.ProcessTracker.{ProcessTracker}
use warden_linux.System.{Cmd, Error}
use warden_linux.Text.{◌<>◌, ◌===◌, decimal, path_join}

-- warden.ResourceLimits
pub record ResourceLimits : Type 0 where
  pub address_space : Option ℕ
  pub core : Option ℕ
  pub cpu : Option ℕ
  pub data_segment : Option ℕ
  pub fsize : Option ℕ
  pub locks : Option ℕ
  pub memlock : Option ℕ
  pub msgqueue : Option ℕ
  pub nice : Option ℕ
  pub nofile : Option ℕ
  pub nproc : Option ℕ
  pub rss : Option ℕ
  pub rtprio : Option ℕ
  pub sigpending : Option ℕ
  pub stack : Option ℕ

-- warden.ProcessSpec
pub record ProcessSpec : Type 0 where
  pub path : String
  pub args : List String
  pub env : List String
  pub dir : String
  pub privileged : Bool
  pub limits : ResourceLimits
  pub tty : Option TtySpec

abbrev rlimit : String → Option ℕ → List String
rlimit name none = []
rlimit name (some n) = (name <> "=" <> decimal n) ∷ []

-- setRLimitsEnv, on a command whose environment is still empty.
pub rlimits_env : ResourceLimits → List String
rlimits_env l =
    rlimit "RLIMIT_AS" l.address_space
    ++ rlimit "RLIMIT_CORE" l.core
    ++ rlimit "RLIMIT_CPU" l.cpu
    ++ rlimit "RLIMIT_DATA" l.data_segment
    ++ rlimit "RLIMIT_FSIZE" l.fsize
    ++ rlimit "RLIMIT_LOCKS" l.locks
    ++ rlimit "RLIMIT_MEMLOCK" l.memlock
    ++ rlimit "RLIMIT_MSGQUEUE" l.msgqueue
    ++ rlimit "RLIMIT_NICE" l.nice
    ++ rlimit "RLIMIT_NOFILE" l.nofile
    ++ rlimit "RLIMIT_NPROC" l.nproc
    ++ rlimit "RLIMIT_RSS" l.rss
    ++ rlimit "RLIMIT_RTPRIO" l.rtprio
    ++ rlimit "RLIMIT_SIGPENDING" l.sigpending
    ++ rlimit "RLIMIT_STACK" l.stack

-- `for _, envVar := range spec.Env { args = append(args, "--env", envVar) }`
pub env_args : List String → List String
env_args [] = []
env_args (e ∷ es) = "--env" ∷ e ∷ env_args es

pub user_of : Bool → String
user_of privileged = if privileged then "root" else "vcap"

pub sock_path : Container → String
sock_path c = path_join (c.path ∷ "run" ∷ "wshd.sock" ∷ [])

pub wsh_args : Container → ProcessSpec → List String
unfolding env_args user_of sock_path
wsh_args c spec =
    ("--socket" ∷ sock_path c ∷ "--user" ∷ user_of spec.privileged ∷ [])
    ++ (env_args spec.env
        ++ ((if spec.dir === "" then [] else "--dir" ∷ spec.dir ∷ []) ++ (spec.path ∷ spec.args)))

pub wsh_cmd : Container → ProcessSpec → Cmd
unfolding wsh_args rlimits_env
wsh_cmd c spec = record {
  path = path_join (c.path ∷ "bin" ∷ "wsh" ∷ []);
  args = wsh_args c spec;
  env = rlimits_env spec.limits;
}

abbrev is_some : {A : Type 0} → Option A → Bool
is_some none = false
is_some (some a) = true

abbrev with_tracker :
    {A : Type 0} → Container → Result Error A × ProcessTracker → Result Error A × Container
with_tracker c (r, tracker) = (r, record c { process_tracker = tracker })

-- `spawned` is what the channels ready and active of Spawn give for the command that it runs.
pub run :
    (Cmd → Result Error (Unit {0}) × Result Error (Unit {0})) → ProcessSpec → Exec Container Error ℕ
unfolding wsh_cmd
run spawned spec c =
    let tracker = c.process_tracker in
    let cmd = spawn_cmd tracker.container_path tracker.next_process_id (wsh_cmd c spec) spec.tty in
    with_tracker c (ProcessTracker.run (is_some spec.tty) (spawned cmd).0 (spawned cmd).1 tracker)

pub attach : ℕ → Exec Container Error ℕ
attach id c = with_tracker c (ProcessTracker.attach id c.process_tracker)
