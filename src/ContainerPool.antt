-- ===== src/ContainerPool.antt =====
-- linux_backend/container_pool/container_pool.go: the pool that makes, restores and destroys
-- containers. It shares the pools of user ids, networks and ports among them.
pub mod Ids
pub mod Create
pub mod Restore
pub mod Destroy
pub mod PortCounts
pub mod Interleaved
use warden_linux.Base.{
  ℕ, ◌+◌, ◌%◌, Bool, true, false, List, [], ◌∷◌, String, Option, none, some, if◌then◌else◌, ltb,
  u64_mod, Result, ok, err, Exec, ◌>>=◌, ◌>>◌, pure, map_err, zoom, for_each,
}
use warden_linux.Container
use warden_linux.Container.{Container, Host, Properties, Resources}
use warden_linux.Container.Snapshots
use warden_linux.Container.Snapshots.{ContainerSnapshot, Codec}
use warden_linux.IdPool.{IdPool}
use warden_linux.Network.{Network}
use warden_linux.NetworkPool.{NetworkError}
use warden_linux.PortPool.{PortError}
use warden_linux.ProcessTracker
use warden_linux.QuotaManager.{QuotaManager}
use warden_linux.System.{Cmd, Error, System}
use warden_linux.Text.{◌<>◌, ◌===◌, decimal, path_join, join_with}
use warden_linux.UidPool.{UidError}

-- warden.BindMount
pub record BindMount : Type 0 where
  pub src_path : String
  pub dst_path : String
  pub read_write : Bool
  pub of_container : Bool

-- warden.ContainerSpec
pub record ContainerSpec : Type 0 where
  pub handle : String
  pub grace_time : ℕ
  pub rootfs_path : String
  pub bind_mounts : List BindMount
  pub properties : Properties

-- What the pool uses of net/url: the parts of a URL.
pub record Url : Type 0 where
  pub scheme : String
  pub path : String
  pub fragment : String

-- rootfs_provider.RootFSProvider
pub record RootfsProvider (W : Type 0) : Type 0 where
  pub provide_rootfs : String → Url → Exec W Error String
  pub cleanup_rootfs : String → Exec W Error (Unit {0})

-- What a LinuxContainerPool is made of, and never changes: its configuration, the runner and the
-- operating system, and the methods of its pools, whose states are in `Pools`.
pub record Config (U N P W : Type 0) : Type 0 where
  pub sys : System W
  pub uids : IdPool U ℕ UidError
  pub networks : IdPool N Network NetworkError
  pub ports : IdPool P ℕ PortError
  pub uid_pool_size : U → ℕ
  pub network_pool_size : N → ℕ
  pub bin_path : String
  pub depot_path : String
  pub cgroups_path : String
  pub pool_network : String
  pub deny_networks : List String
  pub allow_networks : List String
  pub quota_manager : QuotaManager
  pub parse_url : String → Result Error Url
  pub rootfs_provider : String → Option (RootfsProvider W)
  pub codec : Codec
  -- net.IP's String
  pub ip_text : ℕ → String

pub record Pools (U N P W : Type 0) : Type 0 where
  pub uid_pool : U
  pub network_pool : N
  pub port_pool : P
  pub world : W
  -- The number that the generator of container ids has come to.
  pub container_num : ℕ

abbrev pub map_value : {A B E : Type 0} → (A → B) → Result E A → Result E B
map_value f (ok a) = ok (f a)
map_value f (err e) = err e

module _ {U N P W A : Type 0} where
  abbrev pub in_uid_pool : Exec U UidError A → Exec (Pools U N P W) Error A
  in_uid_pool m = map_err Error.uids (zoom (λ s. s.uid_pool) (λ u s. record s { uid_pool = u }) m)

  abbrev pub in_network_pool : Exec N NetworkError A → Exec (Pools U N P W) Error A
  in_network_pool m =
      map_err Error.networks (zoom (λ s. s.network_pool) (λ n s. record s { network_pool = n }) m)

  abbrev pub in_port_pool : Exec P PortError A → Exec (Pools U N P W) Error A
  in_port_pool m =
      map_err Error.ports (zoom (λ s. s.port_pool) (λ p s. record s { port_pool = p }) m)

  abbrev pub in_world : Exec W Error A → Exec (Pools U N P W) Error A
  in_world = zoom (λ s. s.world) (λ w s. record s { world = w })

  abbrev pub undo_on_error :
      (Pools U N P W → Pools U N P W)
      → Result Error A
      → Pools U N P W
      → Result Error A × Pools U N P W
  undo_on_error undo (ok a) s = (ok a, s)
  undo_on_error undo (err e) s = (err e, undo s)

  -- `if err != nil { undo(); return nil, err }`
  abbrev pub undoing :
      (Pools U N P W → Pools U N P W) → Exec (Pools U N P W) Error A → Exec (Pools U N P W) Error A
  undoing undo m s = undo_on_error undo (m s).0 (m s).1

module _ {U N P W : Type 0} where
  -- A method of a container, run on the pools that it shares; the container as the method leaves it.
  abbrev pub with_container :
      Container → Exec (Host P W) Error (Unit {0}) → Exec (Pools U N P W) Error Container
  with_container c m s =
      let (r, h) = m (record { container = c; port_pool = s.port_pool; world = s.world }) in
      (map_value (λ _. h.container) r, record s { port_pool = h.port_pool; world = h.world })

  abbrev pub on_pools : (Pools U N P W → Pools U N P W) → Exec (Pools U N P W) Error (Unit {0})
  on_pools f s = (ok tt, f s)

  abbrev pub from_result : {A : Type 0} → Result Error A → Exec (Pools U N P W) Error A
  from_result r s = (r, s)

  module _ (config : Config U N P W) where
    pub release_uid : ℕ → Pools U N P W → Pools U N P W
    release_uid uid s = record s { uid_pool = config.uids.release uid s.uid_pool }

    pub release_network : Network → Pools U N P W → Pools U N P W
    release_network network s = record s {
      network_pool = config.networks.release network s.network_pool;
    }

    pub release_port : ℕ → Pools U N P W → Pools U N P W
    release_port port s = record s { port_pool = config.ports.release port s.port_pool }

    pub release_ports : List ℕ → Pools U N P W → Pools U N P W
    unfolding release_port
    release_ports [] s = s
    release_ports (port ∷ rest) s = release_ports rest (release_port port s)

    unfoldable pub max_containers : Pools U N P W → ℕ
    max_containers s =
        let max_net = config.network_pool_size s.network_pool in
        let max_uid = config.uid_pool_size s.uid_pool in
        if ltb max_net max_uid then max_net else max_uid

    unfoldable pub setup : Exec (Pools U N P W) Error (Unit {0})
    setup = in_world (
        config.sys.run (record {
          path = path_join (config.bin_path ∷ "setup.sh" ∷ []);
          args = [];
          env =
              ("POOL_NETWORK=" <> config.pool_network)
              ∷ ("DENY_NETWORKS=" <> join_with " " config.deny_networks)
              ∷ ("ALLOW_NETWORKS=" <> join_with " " config.allow_networks)
              ∷ ("CONTAINER_DEPOT_PATH=" <> config.depot_path)
              ∷ ("CONTAINER_DEPOT_MOUNT_POINT_PATH=" <> config.quota_manager.mount_point)
              ∷ ("DISK_QUOTA_ENABLED="
                  <> (if config.quota_manager.enabled then "true" else "false"))
              ∷ ("PATH=" <> config.sys.search_path)
              ∷ [];
        }))
