-- ===== src/ContainerPool/Destroy.antt =====
-- Destroy and Prune of linux_backend/container_pool/container_pool.go.
pub mod Examples
pub mod Accounting
pub mod Uninterrupted
use warden_linux.Base.{
  Bool, List, [], ◌∷◌, String, Option, none, some, if◌then◌else◌, Result, ok, err, Exec, ◌>>=◌,
  ◌>>◌, pure, for_each, ◌||◌,
}
use warden_linux.Container.{Container}
use warden_linux.ContainerPool.Create.{provider_of}
use warden_linux.ContainerPool.{
  Config, Pools, in_world, from_result, on_pools, release_uid, release_network, release_ports,
}
use warden_linux.System.{Error}
use warden_linux.Text.{◌===◌, path_join}

-- A container with no file for its provider has the default one.
pub saved_scheme : Result Error String → String
saved_scheme (ok scheme) = scheme
saved_scheme (err e) = ""

module _ {U N P W : Type 0} (config : Config U N P W) where
  pub destroy_id : String → Exec (Pools U N P W) Error (Unit {0})
  unfolding saved_scheme
  destroy_id id = do
    scheme ← λ s.
        let (r, w) =
          config.sys.read_file (path_join (config.depot_path ∷ id ∷ "rootfs-provider" ∷ []))
            s.world in
        (ok (saved_scheme r), record s { world = w })
    provider ← from_result (provider_of (config.rootfs_provider scheme))
    in_world (
        config.sys.run (record {
          path = path_join (config.bin_path ∷ "destroy.sh" ∷ []);
          args = path_join (config.depot_path ∷ id ∷ []) ∷ [];
          env = [];
        }))
    in_world (provider.cleanup_rootfs id)

  -- What the container holds goes back once everything else is gone.
  pub destroy : Container → Exec (Pools U N P W) Error (Unit {0})
  destroy c = do
    destroy_id c.id
    on_pools (release_ports config c.resources.ports)
    on_pools (release_uid config c.resources.uid)
    on_pools (release_network config c.resources.network)

  pub prune_entry : (String → Bool) → String → Exec (Pools U N P W) Error (Unit {0})
  prune_entry keep id s = if id === "tmp" || keep id then (ok tt, s) else destroy_id id s

  pub prune : (String → Bool) → Exec (Pools U N P W) Error (Unit {0})
  unfolding prune_entry
  prune keep = do
    entries ← in_world (config.sys.read_dir config.depot_path)
    for_each (prune_entry keep) entries
