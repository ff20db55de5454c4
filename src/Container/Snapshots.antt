-- ===== src/Container/Snapshots.antt =====
-- linux_backend/snapshot.go, and Snapshot and Restore of linux_backend/linux_container.go.
pub mod Examples
pub mod Restored
pub mod Frames
pub mod World
pub mod Conserved
use warden_linux.Base.{
  ℕ, Bool, List, [], ◌∷◌, map, String, Option, none, some, ok, Exec, ◌>>=◌, ◌>>◌, pure, for_each,
}
use warden_linux.Base.{◌≡◌}
use warden_linux.Container.Lifecycle.{set_state, register_event}
use warden_linux.Container.Limits.{limit_memory}
use warden_linux.Container.Net.{net_in, net_out, net_cmd}
use warden_linux.Container.{
  Container, Host, BandwidthLimits, DiskLimits, MemoryLimits, CpuLimits, NetInSpec, NetOutSpec,
  Properties, Resources, in_world, on_container, this,
}
use warden_linux.IdPool.{IdPool}
use warden_linux.PortPool.{PortError}
use warden_linux.ProcessTracker
use warden_linux.ProcessTracker.{Process, ProcessTracker}
use warden_linux.System.{Error, System}

pub record LimitsSnapshot : Type 0 where
  pub memory : Option MemoryLimits
  pub disk : Option DiskLimits
  pub bandwidth : Option BandwidthLimits
  pub cpu : Option CpuLimits

pub record ProcessSnapshot : Type 0 where
  pub id : ℕ
  pub tty : Bool

pub record ContainerSnapshot : Type 0 where
  pub id : String
  pub handle : String
  pub grace_time : ℕ
  pub state : String
  pub events : List String
  pub limits : LimitsSnapshot
  pub resources : Resources
  pub processes : List ProcessSnapshot
  pub net_ins : List NetInSpec
  pub net_outs : List NetOutSpec
  pub properties : Properties

abbrev pub process_snapshot : Process → ProcessSnapshot
process_snapshot p = record { id = p.id; tty = p.with_tty }

-- What Snapshot encodes.
unfoldable pub snapshot : Container → ContainerSnapshot
snapshot c = record {
  id = c.id;
  handle = c.handle;
  grace_time = c.grace_time;
  state = c.state;
  events = c.events;
  limits = record {
    memory = c.current_memory_limits;
    disk = c.current_disk_limits;
    bandwidth = c.current_bandwidth_limits;
    cpu = c.current_cpu_limits;
  };
  resources = c.resources;
  processes = map process_snapshot (ProcessTracker.active_processes c.process_tracker);
  net_ins = c.net_ins;
  net_outs = c.net_outs;
  properties = c.properties;
}

-- The JSON text of a snapshot (encoding/json), and what is read back from it.
pub record Codec : Type 0 where
  pub encode : ContainerSnapshot → String
  pub decode : String → Option ContainerSnapshot

pub register_events : List String → Container → Container
unfolding register_event
register_events [] c = c
register_events (event ∷ rest) c = register_events rest (register_event event c)

pub restore_processes : List ProcessSnapshot → ProcessTracker → ProcessTracker
restore_processes [] t = t
restore_processes (p ∷ rest) t = restore_processes rest (ProcessTracker.restore p.id p.tty t)

module _ {P W : Type 0} (ports : IdPool P ℕ PortError) (sys : System W)
    (cgroups_path : String) where
  pub restore_memory : Option MemoryLimits → Exec (Host P W) Error (Unit {0})
  restore_memory none = pure tt
  restore_memory (some limits) = limit_memory sys cgroups_path limits

  pub restore_net_in : NetInSpec → Exec (Host P W) Error (Unit {0})
  restore_net_in spec = do mapped ← net_in ports sys spec.host_port spec.container_port; pure tt

  pub restore_net_out : NetOutSpec → Exec (Host P W) Error (Unit {0})
  restore_net_out spec = net_out ports sys spec.network spec.port

  pub restore : ContainerSnapshot → Exec (Host P W) Error (Unit {0})
  unfolding set_state register_events restore_processes restore_memory restore_net_in
      restore_net_out
  restore s = do
    on_container (set_state s.state)
    on_container (register_events s.events)
    restore_memory s.limits.memory
    on_container
        (λ c. record c { process_tracker = restore_processes s.processes c.process_tracker })
    c ← this
    in_world (sys.run (net_cmd c ("setup" ∷ []) []))
    for_each restore_net_in s.net_ins
    for_each restore_net_out s.net_outs
