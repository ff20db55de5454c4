-- ===== src/ContainerPool/Restore.antt =====
-- Restore of linux_backend/container_pool/container_pool.go.
pub mod Examples
pub mod Accounting
pub mod Holds
pub mod Again
use warden_linux.Base.{
  ℕ, List, [], ◌∷◌, String, Option, none, some, Result, ok, err, Exec, ◌>>=◌, ◌>>◌, pure, for_each,
}
use warden_linux.Container
use warden_linux.Container.{Container}
use warden_linux.Container.Snapshots
use warden_linux.Container.Snapshots.{ContainerSnapshot}
use warden_linux.ContainerPool.{
  Config, Pools, in_uid_pool, in_network_pool, in_port_pool, undoing, from_result, with_container,
  release_uid, release_network, release_ports,
}
use warden_linux.ProcessTracker
use warden_linux.System.{Error}
use warden_linux.Text.{path_join}

pub decoded : Option ContainerSnapshot → Result Error ContainerSnapshot
decoded none = err (Error.os "invalid snapshot")
decoded (some s) = ok s

module _ {U N P W : Type 0} (config : Config U N P W) where
  -- A port that is taken makes all of the snapshot's ports be released, with those that were not
  -- taken out yet.
  pub give_back : ContainerSnapshot → Pools U N P W → Pools U N P W
  give_back snapshot s = release_ports config snapshot.resources.ports (
      release_network config snapshot.resources.network
        (release_uid config snapshot.resources.uid s))

  pub remove_port : ContainerSnapshot → ℕ → Exec (Pools U N P W) Error (Unit {0})
  unfolding give_back
  remove_port snapshot port = undoing (give_back snapshot) (in_port_pool (config.ports.remove port))

  pub remove_ports : ContainerSnapshot → List ℕ → Exec (Pools U N P W) Error (Unit {0})
  unfolding remove_port
  remove_ports snapshot ports = for_each (remove_port snapshot) ports

  -- What the container holds is taken out of the pools.
  pub reclaim : ContainerSnapshot → Exec (Pools U N P W) Error (Unit {0})
  reclaim snapshot = do
    in_uid_pool (config.uids.remove snapshot.resources.uid)
    undoing (release_uid config snapshot.resources.uid)
        (in_network_pool (config.networks.remove snapshot.resources.network))
    remove_ports snapshot snapshot.resources.ports

  pub blank_container : ContainerSnapshot → Container
  blank_container s =
      let container_path = path_join (config.depot_path ∷ s.id ∷ []) in
      Container.new s.id s.handle container_path s.properties s.grace_time s.resources
        (ProcessTracker.new container_path)

  pub restore : String → Exec (Pools U N P W) Error Container
  unfolding decoded
  restore text = do
    snapshot ← from_result (decoded (config.codec.decode text))
    reclaim snapshot
    with_container (blank_container snapshot)
        (Snapshots.restore config.ports config.sys config.cgroups_path snapshot)
