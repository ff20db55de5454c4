-- ===== src/Container.antt =====
-- linux_backend/linux_container.go: the container's state, and how its methods reach the parts that
-- they share. The methods stand in the children; each holds the mutex of the field that it writes,
-- and a call is modelled as one step on the state.
pub mod Lifecycle
pub mod Net
pub mod Limits
pub mod Snapshots
pub mod Stats
pub mod Streams
pub mod Run
pub mod Info
use warden_linux.Base.{ℕ, List, [], String, Option, none, ok, Exec, map_err, zoom}
use warden_linux.IdPool.{IdPool}
use warden_linux.Network.{Network}
use warden_linux.PortPool.{PortError}
use warden_linux.ProcessTracker.{ProcessTracker}
use warden_linux.System
use warden_linux.System.{Cmd, Error}

pub record NetInSpec : Type 0 where
  pub host_port : ℕ
  pub container_port : ℕ

pub record NetOutSpec : Type 0 where
  pub network : String
  pub port : ℕ

-- linux_backend/resources.go
pub record Resources : Type 0 where
  pub uid : ℕ
  pub network : Network
  pub ports : List ℕ

-- warden.BandwidthLimits, DiskLimits, MemoryLimits, CPULimits
pub record BandwidthLimits : Type 0 where
  pub rate_in_bytes_per_second : ℕ
  pub burst_rate_in_bytes_per_second : ℕ

pub record DiskLimits : Type 0 where
  pub block_soft : ℕ
  pub block_hard : ℕ
  pub inode_soft : ℕ
  pub inode_hard : ℕ
  pub byte_soft : ℕ
  pub byte_hard : ℕ

pub record MemoryLimits : Type 0 where
  pub limit_in_bytes : ℕ

pub record CpuLimits : Type 0 where
  pub limit_in_shares : ℕ

-- The three states, which are texts.
abbrev pub state_born : String
state_born = "born"

abbrev pub state_active : String
state_active = "active"

abbrev pub state_stopped : String
state_stopped = "stopped"

abbrev pub Properties : Type 0
Properties = List (String × String)

-- LinuxContainer, less its mutexes and the parts that it shares with others.
pub record Container : Type 0 where
  pub id : String
  pub handle : String
  pub path : String
  pub properties : Properties
  pub grace_time : ℕ
  pub state : String
  pub events : List String
  pub resources : Resources
  pub process_tracker : ProcessTracker
  pub oom_notifier : Option Cmd
  pub current_bandwidth_limits : Option BandwidthLimits
  pub current_disk_limits : Option DiskLimits
  pub current_memory_limits : Option MemoryLimits
  pub current_cpu_limits : Option CpuLimits
  pub net_ins : List NetInSpec
  pub net_outs : List NetOutSpec

-- NewLinuxContainer
unfoldable pub new :
    String → String → String → Properties → ℕ → Resources → ProcessTracker → Container
new id handle path properties grace_time resources tracker = record {
  id = id;
  handle = handle;
  path = path;
  properties = properties;
  grace_time = grace_time;
  state = state_born;
  events = [];
  resources = resources;
  process_tracker = tracker;
  oom_notifier = none;
  current_bandwidth_limits = none;
  current_disk_limits = none;
  current_memory_limits = none;
  current_cpu_limits = none;
  net_ins = [];
  net_outs = [];
}

-- What a method of a container works on: the container, the port pool that it shares with the
-- other containers, and the world.
pub record Host (P W : Type 0) : Type 0 where
  pub container : Container
  pub port_pool : P
  pub world : W

module _ {P W A : Type 0} where
  abbrev pub in_world : Exec W Error A → Exec (Host P W) Error A
  in_world = zoom (λ h. h.world) (λ w h. record h { world = w })

  abbrev pub in_port_pool : Exec P PortError A → Exec (Host P W) Error A
  in_port_pool m =
      map_err Error.ports (zoom (λ h. h.port_pool) (λ p h. record h { port_pool = p }) m)

module _ {P W : Type 0} where
  abbrev pub on_world : (W → W) → Exec (Host P W) Error (Unit {0})
  on_world f h = (ok tt, record h { world = f h.world })

  abbrev pub on_container : (Container → Container) → Exec (Host P W) Error (Unit {0})
  on_container f h = (ok tt, record h { container = f h.container })

  abbrev pub this : Exec (Host P W) Error Container
  this h = (ok h.container, h)
