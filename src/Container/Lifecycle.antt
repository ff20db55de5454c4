-- ===== src/Container/Lifecycle.antt =====
-- Start, Stop, Cleanup and the notifier of memory shortage, of linux_backend/linux_container.go.
pub mod Keeps
pub mod Cleaned
pub mod Notifier
use warden_linux.Base.{
  Bool, false, [], ◌∷◌, ◌++◌, String, Option, none, some, if◌then◌else◌, Result, ok, err, Exec,
  ◌>>=◌, ◌>>◌,
}
use warden_linux.CgroupsManager
use warden_linux.Container.{
  Container, Host, state_active, state_stopped, in_world, on_container, this,
}
use warden_linux.ProcessTracker
use warden_linux.System.{Cmd, Error, System}
use warden_linux.Text.{◌<>◌, path_join}

unfoldable pub set_state : String → Container → Container
set_state state c = record c { state = state }

unfoldable pub register_event : String → Container → Container
register_event event c = record c { events = c.events ++ event ∷ [] }

unfoldable pub oom_cmd : String → Container → Cmd
oom_cmd cgroups_path c = record {
  path = path_join (c.path ∷ "bin" ∷ "oom" ∷ []);
  args = CgroupsManager.subsystem_path cgroups_path c.id "memory" ∷ [];
  env = [];
}

module _ {P W : Type 0} (sys : System W) where
  pub start : Exec (Host P W) Error (Unit {0})
  unfolding set_state
  start = do
    c ← this
    in_world (
        sys.run (record {
          path = path_join (c.path ∷ "start.sh" ∷ []);
          args = [];
          env = ("id=" <> c.id) ∷ "container_iface_mtu=1500" ∷ ("PATH=" <> sys.search_path) ∷ [];
        }))
    on_container (set_state state_active)

  -- The notifier stays the container's after it was killed.
  unfoldable pub stop_oom_notifier : Exec (Host P W) Error (Unit {0})
  stop_oom_notifier h = elim h.container.oom_notifier [
    | none ↦ (ok tt, h)
    | some notifier ↦ (ok tt, record h { world = sys.kill notifier h.world })
  ]

  -- The notifier is set before it is started, and stays set where the start fails.
  pub new_oom_notifier : String → Exec (Host P W) Error (Unit {0})
  unfolding oom_cmd
  new_oom_notifier cgroups_path = do
    on_container (λ c. record c { oom_notifier = some (oom_cmd cgroups_path c) })
    c ← this
    in_world (sys.start (oom_cmd cgroups_path c))

  unfoldable pub start_oom_notifier : String → Exec (Host P W) Error (Unit {0})
  unfolding new_oom_notifier
  start_oom_notifier cgroups_path h = elim h.container.oom_notifier [
    | some notifier ↦ (ok tt, h)
    | none ↦ new_oom_notifier cgroups_path h
  ]

  pub stop : Bool → Exec (Host P W) Error (Unit {0})
  unfolding set_state stop_oom_notifier
  stop kill = do
    c ← this
    in_world (
        sys.run (record {
          path = path_join (c.path ∷ "stop.sh" ∷ []);
          args = if kill then "-w" ∷ "0" ∷ [] else [];
          env = [];
        }))
    stop_oom_notifier
    on_container (set_state state_stopped)

  -- The rest of the notifier's goroutine, given what Wait returned.
  pub watch_for_oom : Result Error (Unit {0}) → Exec (Host P W) Error (Unit {0})
  unfolding register_event stop
  watch_for_oom (ok _) h =
      (ok tt, ((on_container (register_event "out of memory") >> stop false) h).1)
  watch_for_oom (err e) h = (ok tt, h)

  -- It returns nothing, and waits for ever where UnlinkAll does.
  unfoldable pub cleanup : Host P W → Option (Host P W)
  unfolding stop_oom_notifier
  cleanup h =
      let stopped : Host P W = (stop_oom_notifier h).1 in
      elim (ProcessTracker.unlink_all sys stopped.container.process_tracker stopped.world) [
        | none ↦ none
        | some (tracker, w) ↦ some (record stopped {
          container = record stopped.container { process_tracker = tracker };
          world = w;
        })
      ]
