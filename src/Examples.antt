-- ===== src/Examples.antt =====
-- The data of the examples: a small configuration, a container, and a world of two numbers.
pub mod PoolRuns
use warden_linux.Base.{
  refl, ℕ, ◌+◌, ◌*◌, ◌^◌, true, List, [], ◌∷◌, String, none, some, Result, ok, err, if◌then◌else◌,
}
use warden_linux.Container.{Container, Host}
use warden_linux.Container.Snapshots.{ContainerSnapshot}
use warden_linux.ContainerPool.Create.Steps.{ConfigLaws}
use warden_linux.ContainerPool.{Config, Pools, ContainerSpec, RootfsProvider}
use warden_linux.Network.{IpNet, Network}
use warden_linux.NetworkPool.{NetworkPool}
use warden_linux.NetworkPool.Laws.{network_pool, network_pool-IdPoolLaws}
use warden_linux.PortPool.{PortPool}
use warden_linux.PortPool.Laws.{port_pool, port_pool-IdPoolLaws}
use warden_linux.ProcessTracker
use warden_linux.System.{Error, System, Succeeds}
use warden_linux.UidPool.{UidPool}
use warden_linux.UidPool.Laws.{uid_pool, uid_pool-IdPoolLaws}

-- A system on which every command ends as given, and nothing else fails.
abbrev pub sys_with : Result Error (Unit {0}) → System (Unit {0})
sys_with ends = record {
  search_path = "/bin";
  run = λ cmd w. (ends, w);
  start = λ cmd w. (ok tt, w);
  kill = λ cmd w. w;
  interrupt = λ cmd w. w;
  output = λ cmd w. (ok "", w);
  pipe = λ cmd w. (ok "", w);
  read_file = λ file w. (ok "", w);
  write_file = λ file text w. (ok tt, w);
  mkdir_all = λ path w. (ok tt, w);
  remove_all = λ path w. w;
  exists = λ path w. true;
  read_dir = λ path w. (ok [], w);
}

pub works : Succeeds (sys_with (ok tt))
works = record { run_ok = λ cmd w. refl; start_ok = λ cmd w. refl; write_ok = λ file text w. refl }

-- 10.254.0.0/28
abbrev pub block : IpNet
block = record { ip = 0xffff * 2 ^ 32 + 0x0afe0000; addresses = 16 }

abbrev pub network_at : ℕ → Network
network_at k = record {
  ip_net = record { ip = block.ip + 4 * k; addresses = 4 };
  host_ip = block.ip + 4 * k + 1;
  container_ip = block.ip + 4 * k + 2;
}

abbrev pub config_with :
    Result Error (Unit {0}) → Result Error String → Config UidPool NetworkPool PortPool (Unit {0})
config_with ends rootfs = record {
  sys = sys_with ends;
  uids = uid_pool;
  networks = network_pool;
  ports = port_pool;
  uid_pool_size = λ p. p.initial_pool_size;
  network_pool_size = λ p. p.initial_pool_size;
  bin_path = "/bin";
  depot_path = "/depot";
  cgroups_path = "/cgroups";
  pool_network = "10.254.0.0/28";
  deny_networks = [];
  allow_networks = [];
  quota_manager = record { enabled = true; bin_path = "/bin"; mount_point = "/" };
  parse_url = λ text. ok (record { scheme = ""; path = text; fragment = "" });
  rootfs_provider = λ scheme.
      some
        (record { provide_rootfs = λ id url w. (rootfs, w); cleanup_rootfs = λ id w. (ok tt, w) });
  codec = record { encode = λ s. ""; decode = λ text. none };
  ip_text = λ ip. "10.254.0.1";
}

pub config-ConfigLaws :
    (ends : Result Error (Unit {0})) (rootfs : Result Error String)
    → ConfigLaws (config_with ends rootfs)
config-ConfigLaws ends rootfs = record {
  uids = uid_pool-IdPoolLaws;
  networks = network_pool-IdPoolLaws;
  ports = port_pool-IdPoolLaws;
}

-- Two user ids, of which the first is free as given, and one free network.
abbrev pub uids_left : List ℕ → UidPool
uids_left free = record { start = 10; size = 2; pool = free; initial_pool_size = 2 }

abbrev pub networks_left : List Network → NetworkPool
networks_left free = record { ip_net = block; pool = free; initial_pool_size = 4 }

abbrev pub ports_left : List ℕ → PortPool
ports_left free = record { start = 61000; size = 4; pool = free }

abbrev pub pools_left :
    List ℕ → List Network → List ℕ → Pools UidPool NetworkPool PortPool (Unit {0})
pools_left uids networks ports = record {
  uid_pool = uids_left uids;
  network_pool = networks_left networks;
  port_pool = ports_left ports;
  world = tt;
  container_num = 7;
}

abbrev pub spec : ContainerSpec
spec = record {
  handle = "web";
  grace_time = 60;
  rootfs_path = "/rootfs";
  bind_mounts = [];
  properties = ("owner", "test") ∷ [];
}

-- A container that runs, with one mapping, one permission and a limit on memory.
abbrev pub web : Container
web = record {
  id = "c7";
  handle = "web";
  path = "/depot/c7";
  properties = ("owner", "test") ∷ [];
  grace_time = 60;
  state = "active";
  events = "out of memory" ∷ [];
  resources = record { uid = 10; network = network_at 0; ports = 61000 ∷ 61001 ∷ [] };
  process_tracker = record {
    container_path = "/depot/c7";
    processes = [];
    next_process_id = 1;
    linking = [];
  };
  oom_notifier = none;
  current_bandwidth_limits = none;
  current_disk_limits = none;
  current_memory_limits = some (record { limit_in_bytes = 4096 });
  current_cpu_limits = some (record { limit_in_shares = 2 });
  net_ins = record { host_port = 61000; container_port = 8080 } ∷ [];
  net_outs = record { network = "10.0.0.0/8"; port = 0 } ∷ [];
}

abbrev pub web_snapshot : ContainerSnapshot
web_snapshot = record {
  id = "c7";
  handle = "web";
  grace_time = 60;
  state = "active";
  events = [];
  limits = record { memory = none; disk = none; bandwidth = none; cpu = none };
  resources = record { uid = 10; network = network_at 0; ports = 61000 ∷ [] };
  processes = [];
  net_ins = [];
  net_outs = [];
  properties = [];
}

abbrev pub host_of : Container → List ℕ → Host PortPool (Unit {0})
host_of c free = record { container = c; port_pool = ports_left free; world = tt }
