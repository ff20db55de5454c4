-- ===== src/Container/Info.antt =====
-- Info of linux_backend/linux_container.go.
pub mod Reported
use warden_linux.BandwidthManager
use warden_linux.BandwidthManager.{BandwidthStat}
use warden_linux.Base.{ℕ, List, String, Option, none, some, Result, ok, err, Exec, ◌>>=◌, pure, map}
use warden_linux.CgroupsManager
use warden_linux.Container.Stats.{MemoryStat, CpuStat, parse_memory_stat, parse_cpu_stat}
use warden_linux.Container.{Container, NetInSpec, Properties}
use warden_linux.ProcessTracker.{active_processes}
use warden_linux.QuotaManager.Report.{DiskStat, get_usage}
use warden_linux.QuotaManager.{QuotaManager}
use warden_linux.System.{Error, System}

-- warden.PortMapping
pub record PortMapping : Type 0 where
  pub host_port : ℕ
  pub container_port : ℕ

-- warden.ContainerInfo; an address stands for its text.
pub record ContainerInfo : Type 0 where
  pub state : String
  pub events : List String
  pub properties : Properties
  pub host_ip : ℕ
  pub container_ip : ℕ
  pub container_path : String
  pub process_ids : List ℕ
  pub memory_stat : MemoryStat
  pub cpu_stat : CpuStat
  pub disk_stat : DiskStat
  pub bandwidth_stat : BandwidthStat
  pub mapped_ports : List PortMapping

abbrev pub mapping_of : NetInSpec → PortMapping
mapping_of spec = record { host_port = spec.host_port; container_port = spec.container_port }

pub mapped_ports_of : Container → List PortMapping
mapped_ports_of c = map mapping_of c.net_ins

pub process_ids_of : Container → List ℕ
process_ids_of c = map (λ p. p.id) (active_processes c.process_tracker)

pub info_of : Container → String → String → String → DiskStat → BandwidthStat → ContainerInfo
unfolding mapped_ports_of process_ids_of
info_of c memory usage cpu disk bandwidth = record {
  state = c.state;
  events = c.events;
  properties = c.properties;
  host_ip = c.resources.network.host_ip;
  container_ip = c.resources.network.container_ip;
  container_path = c.path;
  process_ids = process_ids_of c;
  memory_stat = parse_memory_stat memory;
  cpu_stat = parse_cpu_stat usage cpu;
  disk_stat = disk;
  bandwidth_stat = bandwidth;
  mapped_ports = mapped_ports_of c;
}

module _ {W : Type 0} (sys : System W) (cgroups_path : String) (quota : QuotaManager)
    (c : Container) where
  -- The three files.
  pub read_stats : Exec W Error (String × String × String)
  read_stats = do
    memory ← CgroupsManager.get sys cgroups_path c.id "memory" "memory.stat"
    usage ← CgroupsManager.get sys cgroups_path c.id "cpuacct" "cpuacct.usage"
    cpu ← CgroupsManager.get sys cgroups_path c.id "cpuacct" "cpuacct.stat"
    pure (memory, usage, cpu)

  pub finish : String × String × String → DiskStat → Exec W Error ContainerInfo
  unfolding info_of
  finish (memory, usage, cpu) disk = do
    bandwidth ← BandwidthManager.get_limits sys c.path c.id
    pure (info_of c memory usage cpu disk bandwidth)

  pub with_usage :
      String × String × String
      → Option (Result Error DiskStat × W)
      → Option (Result Error ContainerInfo × W)
  unfolding finish
  with_usage stats none = none
  with_usage stats (some (err e, w)) = some (err e, w)
  with_usage stats (some (ok disk, w)) = some (finish stats disk w)

  pub with_stats :
      Result Error (String × String × String) × W → Option (Result Error ContainerInfo × W)
  unfolding with_usage
  with_stats (err e, w) = some (err e, w)
  with_stats (ok stats, w) = with_usage stats (get_usage sys quota c.resources.uid w)

  -- `none` is a call that does not return, since that of the quota manager does not.
  pub info : W → Option (Result Error ContainerInfo × W)
  unfolding read_stats with_stats
  info w = with_stats (read_stats w)
