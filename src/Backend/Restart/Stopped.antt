-- ===== src/Backend/Restart/Stopped.antt =====
-- What Stop of linux_backend/linux_backend.go leaves, and when it returns.
use warden_linux.Backend.Snapshots.{save_snapshot, stop_container, stop_each, stop}
use warden_linux.Backend.{Backend}
use warden_linux.Base.{
  ◌≡◌, refl, Bool, true, ◌&&◌, [], ◌∷◌, String, none, some, if◌then◌else◌, arith,
}
use warden_linux.Container.Lifecycle.Cleaned.{is_linked, cleaned, cleanup_lem}
use warden_linux.Container.{Container, Host}
use warden_linux.ContainerPool.{Config}
use warden_linux.Dict.{Dict}

-- For each process of each container a link was started.
abbrev pub all_linked : Dict Container → Bool
all_linked [] = true
all_linked ((handle, c) ∷ rest) = is_linked c.process_tracker && all_linked rest

module _ {U N P W : Type 0} (config : Config U N P W) (snapshots_path : String) where
  abbrev pub host : Container → P → W → Host P W
  host c ports w = record { container = c; port_pool = ports; world = w }

  unfoldable pub stopped_container : Container → P → W → Container × W
  stopped_container c ports w =
      let h = cleaned config.sys (host c ports w) in
      (h.container, (save_snapshot config snapshots_path h.container h.world).1)

  unfoldable pub stopped_each : Dict Container → P → W → Dict Container × W
  unfolding stopped_container
  stopped_each [] ports w = ([], w)
  stopped_each ((handle, c) ∷ rest) ports w =
      let (c', w') = stopped_container c ports w in
      let (rest', w'') = stopped_each rest ports w' in ((handle, c') ∷ rest', w'')

  unfoldable pub stopped : Backend U N P W → Backend U N P W
  unfolding stopped_each
  stopped b =
      let (containers, w) = stopped_each b.containers b.pools.port_pool b.pools.world in
      record { containers = containers; pools = record b.pools { world = w } }

  stop_container_lem :
      (c : Container) (ports : P) (w : W)
      → stop_container config snapshots_path c ports w
        ≡ (if is_linked c.process_tracker then some (stopped_container c ports w) else none)
  unfolding stop_container stopped_container
  stop_container_lem c ports w = ground (arith, cleanup_lem config.sys (host c ports w))

  stop_each_lem :
      (m : Dict Container) (ports : P) (w : W)
      → stop_each config snapshots_path m ports w
        ≡ (if all_linked m then some (stopped_each m ports w) else none)
  unfolding stop_each stopped_each
  stop_each_lem [] ports w = refl
  stop_each_lem ((handle, c) ∷ m) ports w =
      ground
        (arith, stop_container_lem c ports w, stop_each_lem m ports (stopped_container c ports w).1)

  -- Stop returns where a link was started for each process of each container in the table, and waits
  -- for ever where one has none, such as a process that could not be spawned; where it returns, the
  -- containers are stopped one after the other.
  pub stop_lem :
      (b : Backend U N P W)
      → stop config snapshots_path b ≡ (if all_linked b.containers then some (stopped b) else none)
  unfolding stop stopped
  stop_lem b = ground (arith, stop_each_lem b.containers b.pools.port_pool b.pools.world)
