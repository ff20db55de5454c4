-- ===== src/Backend/Snapshots.antt =====
-- Start and Stop of linux_backend/linux_backend.go: what is saved at the end of one run of the
-- server, and restored at the beginning of the next.
use warden_linux.Backend.{Backend, in_pools, register}
use warden_linux.Base.{
  Bool, false, List, [], ◌∷◌, String, Option, none, some, if◌then◌else◌, Result, ok, err, Exec,
  ◌>>=◌, ◌>>◌, pure, ◌||◌,
}
use warden_linux.Container.Lifecycle
use warden_linux.Container.Snapshots as Saved
use warden_linux.Container.{Container}
use warden_linux.ContainerPool.Destroy
use warden_linux.ContainerPool.Restore
use warden_linux.ContainerPool.{Config, in_world}
use warden_linux.Dict.{Dict}
use warden_linux.System.{Error}
use warden_linux.Text.{◌===◌, path_join}

pub has_id : Dict Container → String → Bool
has_id [] id = false
has_id ((handle, c) ∷ rest) id = c.id === id || has_id rest id

module _ {U N P W : Type 0} (config : Config U N P W) (snapshots_path : String) where
  unfoldable pub restore : String → Exec (Backend U N P W) Error Container
  restore text = do c ← in_pools (Restore.restore config text); register c; pure c

  -- A file that cannot be opened is not restored, and neither error ends the loop.
  unfoldable pub restore_entry : String → Backend U N P W → Backend U N P W
  unfolding restore
  restore_entry name b =
      let (text, w) = config.sys.read_file (path_join (snapshots_path ∷ name ∷ [])) b.pools.world in
      let opened : Backend U N P W = record b { pools = record b.pools { world = w } } in
      elim text [ ok t ↦ (restore t opened).1 | err e ↦ opened ]

  unfoldable pub restore_entries : List String → Backend U N P W → Backend U N P W
  unfolding restore_entry
  restore_entries [] b = b
  restore_entries (name ∷ rest) b = restore_entries rest (restore_entry name b)

  unfoldable pub restore_snapshots : Backend U N P W → Backend U N P W
  unfolding restore_entries
  restore_snapshots b =
      let (names, w) = config.sys.read_dir snapshots_path b.pools.world in
      let listed : Backend U N P W = record b { pools = record b.pools { world = w } } in
      elim names [ ok entries ↦ restore_entries entries listed | err e ↦ listed ]

  pub restore_if_saved : Backend U N P W → Backend U N P W
  unfolding restore_snapshots
  restore_if_saved b =
      if config.sys.exists snapshots_path b.pools.world
      then (let r = restore_snapshots b in
          record r {
            pools = record r.pools { world = config.sys.remove_all snapshots_path r.pools.world };
          })
      else b

  -- With no path for snapshots nothing is restored and no directory is made.
  pub load_snapshots : Exec (Backend U N P W) Error (Unit {0})
  unfolding restore_if_saved
  load_snapshots b =
      if snapshots_path === ""
      then (ok tt, b)
      else in_pools (in_world (config.sys.mkdir_all snapshots_path)) (restore_if_saved b)

  pub start : Exec (Backend U N P W) Error (Unit {0})
  unfolding load_snapshots has_id
  start = do load_snapshots; λ b. in_pools (Destroy.prune config (has_id b.containers)) b

  unfoldable pub save_snapshot : Container → W → Result Error (Unit {0}) × W
  save_snapshot c w =
      if snapshots_path === ""
      then (ok tt, w)
      else (let (r, w') =
            config.sys.write_file (path_join (snapshots_path ∷ c.id ∷ []))
              (config.codec.encode (Saved.snapshot c)) w in
          (elim r [ ok done ↦ ok done | err e ↦ err (Error.failed_to_snapshot e) ], w'))

  -- Cleanup, then the snapshot, whose error is logged. A Cleanup that never returns is a none, and
  -- with it the loop, and Stop.
  unfoldable pub stop_container : Container → P → W → Option (Container × W)
  unfolding save_snapshot
  stop_container c ports w =
      elim (Lifecycle.cleanup config.sys (record { container = c; port_pool = ports; world = w })) [
        | none ↦ none
        | some h ↦ some (h.container, (save_snapshot h.container h.world).1)
      ]

  unfoldable pub stop_each : Dict Container → P → W → Option (Dict Container × W)
  unfolding stop_container
  stop_each [] ports w = some ([], w)
  stop_each ((handle, c) ∷ rest) ports w = elim (stop_container c ports w) [
    | none ↦ none
    | some (c', w') ↦ elim (stop_each rest ports w') [
      | none ↦ none
      | some (rest', w'') ↦ some ((handle, c') ∷ rest', w'')
    ]
  ]

  unfoldable pub stop : Backend U N P W → Option (Backend U N P W)
  unfolding stop_each
  stop b = elim (stop_each b.containers b.pools.port_pool b.pools.world) [
    | none ↦ none
    | some (containers, w) ↦
        some (record { containers = containers; pools = record b.pools { world = w } })
  ]
