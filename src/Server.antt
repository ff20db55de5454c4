-- ===== src/Server.antt =====
-- main.go: the flags, and how the parts are put together. What it calls of others (the package net,
-- and the graph, its driver and the registry of github.com/docker/docker) is a parameter; so is the
-- server of github.com/cloudfoundry-incubator/garden, which calls Start of the backend.
pub mod Started
pub mod Examples
use warden_linux.Backend
use warden_linux.Backend.{Backend}
use warden_linux.Base.{
  ℕ, ◌%◌, Bool, true, false, List, [], ◌∷◌, String, Option, none, some, if◌then◌else◌, u32_mod,
  Result, ok, err, Exec, ◌>>=◌, ◌>>◌, pure,
}
use warden_linux.Container.Snapshots.{Codec}
use warden_linux.ContainerPool.{Config, Pools, Url, RootfsProvider}
use warden_linux.Network.{IpNet}
use warden_linux.NetworkPool
use warden_linux.NetworkPool.Laws.{network_pool}
use warden_linux.NetworkPool.{NetworkPool}
use warden_linux.PortPool
use warden_linux.PortPool.Laws.{port_pool}
use warden_linux.PortPool.{PortPool}
use warden_linux.QuotaManager
use warden_linux.QuotaManager.{QuotaManager}
use warden_linux.RepositoryFetcher
use warden_linux.RepositoryFetcher.{Registry, Graph}
use warden_linux.RootfsProviders
use warden_linux.RootfsProviders.{GraphDriver}
use warden_linux.Sysconfig
use warden_linux.System.{Error, System}
use warden_linux.Text.{◌===◌, split_on}
use warden_linux.UidPool
use warden_linux.UidPool.Laws.{uid_pool}
use warden_linux.UidPool.{UidPool}

-- The flags, without those of the server that listens.
pub record Flags : Type 0 where
  pub snapshots_path : String
  pub bin_path : String
  pub depot_path : String
  pub overlays_path : String
  pub rootfs_path : String
  pub disable_quotas : Bool
  pub debug : Bool
  pub network_pool : String
  pub port_pool_start : ℕ
  pub port_pool_size : ℕ
  pub uid_pool_start : ℕ
  pub uid_pool_size : ℕ
  pub deny_networks : String
  pub allow_networks : String
  pub graph_root : String
  pub docker_registry : String
  pub tag : String

-- `index_server_address` is what registry.IndexServerAddress returns.
pub defaults : String → Flags
defaults index_server_address = record {
  snapshots_path = "";
  bin_path = "";
  depot_path = "";
  overlays_path = "";
  rootfs_path = "";
  disable_quotas = false;
  debug = false;
  network_pool = "10.254.0.0/22";
  port_pool_start = 61001;
  port_pool_size = 5000;
  uid_pool_start = 10000;
  uid_pool_size = 256;
  deny_networks = "";
  allow_networks = "";
  graph_root = "/var/lib/warden-docker-graph";
  docker_registry = index_server_address;
  tag = "";
}

-- What main and the parts call of others: `runner` takes the flag for debugging, `container_num` is
-- the time at which the generator of container ids begins.
pub record Libraries (W : Type 0) : Type 0 where
  pub runner : Bool → System W
  pub os_environ : List String
  pub parse_cidr : String → Result Error IpNet
  pub ip_net_text : IpNet → String
  pub new_graph_driver : String → Exec W Error (GraphDriver W)
  pub new_graph : String → GraphDriver W → Exec W Error (Graph W)
  pub new_registry : String → Exec W Error (Registry W)
  pub parse_url : String → Result Error Url
  pub codec : Codec
  pub ip_text : ℕ → String
  pub container_num : W → ℕ

pub record Server (W : Type 0) : Type 0 where
  pub config : Config UidPool NetworkPool PortPool W
  pub backend : Backend UidPool NetworkPool PortPool W
  pub snapshots_path : String

-- `log.Fatalln("must specify ...")`
abbrev pub required : {W : Type 0} → String → String → Exec W Error (Unit {0})
required name value w = if value === "" then (err (Error.must_specify name), w) else (ok tt, w)

module _ {W : Type 0} (lib : Libraries W) (f : Flags) where
  -- The runner that hands the server's names to every command.
  pub runner : System W
  runner = Sysconfig.new_runner lib.os_environ (Sysconfig.new_config f.tag) (lib.runner f.debug)

  pub quota_manager : Exec W Error QuotaManager
  unfolding runner
  quota_manager = do
    made ← QuotaManager.new runner f.depot_path f.bin_path
    pure (if f.disable_quotas then QuotaManager.disable made else made)

  pub rootfs_provider : GraphDriver W → Graph W → Registry W → String → Option (RootfsProvider W)
  unfolding runner
  rootfs_provider driver graph reg scheme =
      if scheme === ""
      then some (RootfsProviders.new_overlay runner f.bin_path f.overlays_path f.rootfs_path)
      else if scheme === "docker"
      then some (
          RootfsProviders.new_docker (RootfsProviders.retrying (RepositoryFetcher.fetch reg graph))
            driver)
      else none

  -- container_pool.New, on what it is given.
  pub config_of :
      IpNet
      → QuotaManager
      → GraphDriver W
      → Graph W
      → Registry W
      → Config UidPool NetworkPool PortPool W
  unfolding runner rootfs_provider
  config_of net quota driver graph reg = record {
    sys = runner;
    uids = uid_pool;
    networks = network_pool;
    ports = port_pool;
    uid_pool_size = UidPool.initial_size;
    network_pool_size = NetworkPool.initial_size;
    bin_path = f.bin_path;
    depot_path = f.depot_path;
    cgroups_path = (Sysconfig.new_config f.tag).cgroup_path;
    pool_network = lib.ip_net_text net;
    deny_networks = split_on 44 f.deny_networks;
    allow_networks = split_on 44 f.allow_networks;
    quota_manager = quota;
    parse_url = lib.parse_url;
    rootfs_provider = rootfs_provider driver graph reg;
    codec = lib.codec;
    ip_text = lib.ip_text;
  }

  -- The numbers of the flags are cut to 32 bits.
  pub pools_of : IpNet → W → Pools UidPool NetworkPool PortPool W
  pools_of net w = record {
    uid_pool = UidPool.new (f.uid_pool_start % u32_mod) (f.uid_pool_size % u32_mod);
    network_pool = NetworkPool.new net;
    port_pool = PortPool.new (f.port_pool_start % u32_mod) (f.port_pool_size % u32_mod);
    world = w;
    container_num = lib.container_num w;
  }

  abbrev pub parsed_net : Exec W Error IpNet
  parsed_net w = (lib.parse_cidr f.network_pool, w)

  abbrev pub with_setup :
      Config UidPool NetworkPool PortPool W
      → Result Error (Unit {0}) × Backend UidPool NetworkPool PortPool W
      → Result Error (Server W) × W
  with_setup config (ok done, b) = (
    ok (record { config = config; backend = b; snapshots_path = f.snapshots_path }),
    b.pools.world,
  )
  with_setup config (err e, b) = (err e, b.pools.world)

  -- linux_backend.New, and Setup.
  pub set_up : IpNet → Config UidPool NetworkPool PortPool W → Exec W Error (Server W)
  unfolding pools_of
  set_up net config w = with_setup config (Backend.setup config (Backend.new (pools_of net w)))

  pub checked : Exec W Error (Unit {0})
  checked = do
    required "bin" f.bin_path
    required "depot" f.depot_path
    required "overlays" f.overlays_path
    required "rootfs" f.rootfs_path

  -- The parts of Docker that the images come from.
  pub images : Exec W Error (GraphDriver W × Graph W × Registry W)
  images = do
    (lib.runner f.debug).mkdir_all f.graph_root
    driver ← lib.new_graph_driver f.graph_root
    graph ← lib.new_graph f.graph_root driver
    reg ← lib.new_registry f.docker_registry
    pure (driver, graph, reg)

  -- Up to the start of the server that listens. An error is logged, and the program exits with 1.
  pub main : Exec W Error (Server W)
  unfolding checked quota_manager images config_of set_up
  main = do
    checked
    net ← parsed_net
    quota ← quota_manager
    parts ← images
    set_up net (config_of net quota parts.0 parts.1 parts.2)
