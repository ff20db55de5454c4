-- ===== src/ContainerPool/Create.antt =====
-- Create of linux_backend/container_pool/container_pool.go.
pub mod Examples
pub mod Steps
pub mod Uninterrupted
pub mod Accounting
pub mod Bounds
pub mod Ranges
use warden_linux.Base.{
  ℕ, ◌+◌, ◌%◌, List, [], ◌∷◌, String, Option, none, some, if◌then◌else◌, u64_mod, Result, ok, err,
  Exec, ◌>>=◌, ◌>>◌, pure, for_each,
}
use warden_linux.Container
use warden_linux.Container.{Container}
use warden_linux.ContainerPool.Ids.{container_id}
use warden_linux.ContainerPool.{
  BindMount, ContainerSpec, Url, RootfsProvider, Config, Pools, in_uid_pool, in_network_pool,
  in_world, undoing, from_result, release_uid, release_network,
}
use warden_linux.Network.{Network}
use warden_linux.ProcessTracker
use warden_linux.System.{Cmd, Error}
use warden_linux.Text.{◌<>◌, ◌===◌, decimal, path_join}

unfoldable pub provider_of :
    {W : Type 0} → Option (RootfsProvider W) → Result Error (RootfsProvider W)
provider_of none = err Error.unknown_rootfs_provider
provider_of (some provider) = ok provider

module _ {U N P W : Type 0} (config : Config U N P W) where
  -- The user id and the network of a new container.
  pub reserve : Exec (Pools U N P W) Error (ℕ × Network)
  unfolding release_uid
  reserve = do
    uid ← in_uid_pool config.uids.acquire
    network ← undoing (release_uid config uid) (in_network_pool config.networks.acquire)
    pure (uid, network)

  -- `<-p.containerIDs`
  pub next_id : Exec (Pools U N P W) Error String
  next_id s = (
    ok (container_id s.container_num),
    record s { container_num = (s.container_num + 1) % u64_mod },
  )

  -- The root file system, by the provider that is registered for the URL's scheme.
  pub provide : String → String → Exec (Pools U N P W) Error (Url × String)
  unfolding provider_of
  provide id rootfs_path = do
    url ← from_result (config.parse_url rootfs_path)
    provider ← from_result (provider_of (config.rootfs_provider url.scheme))
    path ← in_world (provider.provide_rootfs id url)
    pure (url, path)

  pub new_container : ContainerSpec → String → ℕ → Network → Container
  new_container spec id uid network =
      let container_path = path_join (config.depot_path ∷ id ∷ []) in
      Container.new id (if spec.handle === "" then id else spec.handle) container_path
        spec.properties spec.grace_time (record { uid = uid; network = network; ports = [] })
        (ProcessTracker.new container_path)

  pub create_cmd : Container → String → Cmd
  create_cmd c rootfs_path = record {
    path = path_join (config.bin_path ∷ "create.sh" ∷ []);
    args = c.path ∷ [];
    env =
        ("id=" <> c.id)
        ∷ ("rootfs_path=" <> rootfs_path)
        ∷ ("user_uid=" <> decimal c.resources.uid)
        ∷ ("network_host_ip=" <> config.ip_text c.resources.network.host_ip)
        ∷ ("network_container_ip=" <> config.ip_text c.resources.network.container_ip)
        ∷ ("PATH=" <> config.sys.search_path)
        ∷ [];
  }

  pub save_rootfs_provider : String → String → Exec (Pools U N P W) Error (Unit {0})
  save_rootfs_provider id provider = do
    in_world (config.sys.mkdir_all (path_join (config.depot_path ∷ id ∷ [])))
    in_world (
        config.sys.write_file (path_join (config.depot_path ∷ id ∷ "rootfs-provider" ∷ []))
          provider)

  -- `echo … >> hook`, by bash
  pub hook_cmd : String → String → Cmd
  hook_cmd container_path line = record {
    path = "bash";
    args =
        "-c"
        ∷ ("echo"
            <> line
            <> " >> "
            <> path_join (container_path ∷ "lib" ∷ "hook-child-before-pivot.sh" ∷ []))
        ∷ [];
    env = [];
  }

  pub append_to_hook : String → String → Exec (Pools U N P W) Error (Unit {0})
  unfolding hook_cmd
  append_to_hook container_path line = in_world (config.sys.run (hook_cmd container_path line))

  pub bind_mount_source : String → BindMount → String
  bind_mount_source container_path bm =
      if bm.of_container
      then path_join (container_path ∷ "tmp" ∷ "rootfs" ∷ bm.src_path ∷ [])
      else bm.src_path

  pub write_bind_mount : String → BindMount → Exec (Pools U N P W) Error (Unit {0})
  unfolding append_to_hook bind_mount_source
  write_bind_mount container_path bm = do
    let dst = path_join (container_path ∷ "mnt" ∷ bm.dst_path ∷ [])
    let src = bind_mount_source container_path bm
    let mode : String = if bm.read_write then "rw" else "ro"
    append_to_hook container_path ""
    append_to_hook container_path (" mkdir -p " <> dst)
    append_to_hook container_path (" mount -n --bind " <> src <> " " <> dst)
    append_to_hook container_path
        (" mount -n --bind -o remount," <> mode <> " " <> src <> " " <> dst)

  pub write_bind_mounts : String → List BindMount → Exec (Pools U N P W) Error (Unit {0})
  unfolding write_bind_mount
  write_bind_mounts container_path = for_each (write_bind_mount container_path)

  -- Only two failures give the user id and the network back: of the network pool, and of create.sh.
  pub create : ContainerSpec → Exec (Pools U N P W) Error Container
  create spec = do
    reserved ← reserve
    id ← next_id
    provided ← provide id spec.rootfs_path
    let c = new_container spec id reserved.0 reserved.1
    undoing (λ s. release_network config reserved.1 (release_uid config reserved.0 s))
        (in_world (config.sys.run (create_cmd c provided.1)))
    save_rootfs_provider id provided.0.scheme
    write_bind_mounts c.path spec.bind_mounts
    pure c
