-- ===== src/Backend/Restart/Round/Examples.antt =====
-- Two servers on a disk that keeps the files with one text, of which the first has one container.
use text.Mathlib.TextEquality.{eq_iff}
use text.Mathlib.TextPositions.{eq_refl}
use warden_linux.Backend.Restart.Round.{restore_snapshots-stop}
use warden_linux.Backend.Restart.Saves.{values, Writes, AllCoded}
use warden_linux.Backend.Restart.{sum, Files, Enough, AllRestored}
use warden_linux.Backend.Restart.Stopped.{stopped_container, stopped_each, stopped, stop_lem}
use warden_linux.Backend.Snapshots.{save_snapshot, stop, restore_snapshots}
use warden_linux.Backend.{Backend}
use warden_linux.Base.{
  ◌≡◌, refl, inl, inr, map, true, false, [], ◌∷◌, String, none, some, ok, err, if◌then◌else◌,
  Bool-cases, arith,
}
use warden_linux.Container.Lifecycle.Cleaned.{cleaned, unlinked_each}
use warden_linux.Container.Lifecycle.{stop_oom_notifier}
use warden_linux.Container.Snapshots.{snapshot}
use warden_linux.Container.{Container}
use warden_linux.ContainerPool.Create.Steps.{ConfigLaws}
use warden_linux.ContainerPool.{Config}
use warden_linux.Dict.{Dict, find, put, find-put}
use warden_linux.Examples.{web, network_at, uids_left, networks_left, ports_left}
use warden_linux.NetworkPool.Laws.{network_pool, network_pool-IdPoolLaws}
use warden_linux.NetworkPool.{NetworkPool}
use warden_linux.PortPool.Laws.{port_pool, port_pool-IdPoolLaws}
use warden_linux.PortPool.{PortPool}
use warden_linux.ProcessTracker.{active_processes, is_linking}
use warden_linux.System.{Error, System, Succeeds}
use warden_linux.Text.{◌===◌, path_join}
use warden_linux.UidPool.Laws.{uid_pool, uid_pool-IdPoolLaws}
use warden_linux.UidPool.{UidPool}

abbrev Disk : Type 0
Disk = Dict String

abbrev one_port : Container
one_port = record web {
  resources = record { uid = 10; network = network_at 0; ports = 61000 ∷ [] };
  process_tracker = record {
    container_path = "/depot/c7";
    processes = record { id = 1; with_tty = false; linkable = true } ∷ [];
    next_process_id = 2;
    linking = 1 ∷ [];
  };
}

abbrev disk : System Disk
disk = record {
  search_path = "/bin";
  run = λ cmd w. (ok tt, w);
  start = λ cmd w. (ok tt, w);
  kill = λ cmd w. w;
  interrupt = λ cmd w. w;
  output = λ cmd w. (ok "", w);
  pipe = λ cmd w. (ok "", w);
  read_file = λ file w.
      (elim (find file w) [ none ↦ err (Error.os "no such file") | some text ↦ ok text ], w);
  write_file = λ file text w. (ok tt, if text === "saved" then put file text w else w);
  mkdir_all = λ path w. (ok tt, w);
  remove_all = λ path w. w;
  exists = λ path w. true;
  read_dir = λ path w. (ok ("c7" ∷ []), w);
}

abbrev saves : Config UidPool NetworkPool PortPool Disk
saves = record {
  sys = disk;
  uids = uid_pool;
  networks = network_pool;
  ports = port_pool;
  uid_pool_size = λ p. p.initial_pool_size;
  network_pool_size = λ p. p.initial_pool_size;
  bin_path = "/bin";
  depot_path = "/depot";
  cgroups_path = "/cgroups";
  pool_network = "10.254.0.0/28";
  deny_networks = [];
  allow_networks = [];
  quota_manager = record { enabled = true; bin_path = "/bin"; mount_point = "/" };
  parse_url = λ text. ok (record { scheme = ""; path = text; fragment = "" });
  rootfs_provider = λ scheme. none;
  codec = record { encode = λ s. "saved"; decode = λ text. some (snapshot one_port) };
  ip_text = λ ip. "10.254.0.1";
}

saves-ConfigLaws : ConfigLaws saves
saves-ConfigLaws = record {
  uids = uid_pool-IdPoolLaws;
  networks = network_pool-IdPoolLaws;
  ports = port_pool-IdPoolLaws;
}

disk-Succeeds : Succeeds disk
disk-Succeeds = record {
  run_ok = λ cmd w. refl;
  start_ok = λ cmd w. refl;
  write_ok = λ file text w. refl;
}

abbrev Held : String → String → Disk → Type 0
Held id text w = (find (path_join ("/snapshots" ∷ id ∷ [])) w ≡ some text) × (text ≡ "saved")

-- No write takes a saved text away.
write-Held :
    (file text id kept : String) (w : Disk)
    → Held id kept w
    → Held id kept (disk.write_file file text w).1
write-Held file text id kept w h =
    let path = path_join ("/snapshots" ∷ id ∷ []) in
    elim (Bool-cases (text === "saved")) [
      | inl e ↦ (ground (arith, e, h, find-put file path text w, eq_iff text "saved"), h.1)
      | inr e ↦ (ground (arith, e, h), h.1)
    ]

disk-Files : Files saves "/snapshots" Held
disk-Files = record {
  reads = λ id text w h. ground (arith, h);
  read_keeps = λ id text file w h. h;
  list_keeps = λ id text dir w h. h;
  stable = λ id text. record {
    runs = λ cmd w h. h;
    starts = λ cmd w h. h;
    writes = λ name file other w h. write-Held _ other id text w h;
  };
}

disk-Writes : Writes saves "/snapshots" Held
disk-Writes = record {
  written = λ id s w done.
      let path = path_join ("/snapshots" ∷ id ∷ []) in
      (ground (arith, find-put path path "saved" w, eq_refl path), refl);
  others = λ id other kept s w ne h.
      write-Held (path_join ("/snapshots" ∷ id ∷ [])) "saved" other kept w h;
  kills = λ id text cmd w h. h;
  interrupts = λ id text cmd w h. h;
}

abbrev first : Backend UidPool NetworkPool PortPool Disk
first = record {
  containers = ("web", one_port) ∷ [];
  pools = record {
    uid_pool = uids_left (11 ∷ []);
    network_pool = networks_left [];
    port_pool = ports_left [];
    world = [];
    container_num = 8;
  };
}

abbrev second : Backend UidPool NetworkPool PortPool Disk
second = record {
  containers = [];
  pools = record {
    uid_pool = uids_left (10 ∷ 11 ∷ []);
    network_pool = networks_left (network_at 0 ∷ []);
    port_pool = ports_left (61000 ∷ []);
    world = (stopped saves "/snapshots" first).pools.world;
    container_num = 9;
  };
}

listed :
    (disk.read_dir "/snapshots" second.pools.world).0
    ≡ ok (map (λ c. c.id) (values (stopped saves "/snapshots" first).containers))
unfolding stopped stopped_each stopped_container save_snapshot cleaned stop_oom_notifier
    unlinked_each
listed = refl

coded : AllCoded saves "/snapshots" (values (stopped saves "/snapshots" first).containers)
unfolding stopped stopped_each stopped_container save_snapshot cleaned stop_oom_notifier
    unlinked_each snapshot active_processes
coded = (refl, tt)

second-Enough : Enough saves "/snapshots" (one_port ∷ []) second.pools
unfolding sum
second-Enough = record {
  uids = λ u. ground arith;
  networks = λ n. ground arith;
  ports = λ p. ground arith;
}

returned : stop saves "/snapshots" first ≡ some (stopped saves "/snapshots" first)
unfolding is_linking
returned = stop_lem saves "/snapshots" first

restore_snapshots-stop_example :
    AllRestored saves "/snapshots"
      (one_port ∷ [])
      (restore_snapshots saves "/snapshots" second).containers
restore_snapshots-stop_example =
    restore_snapshots-stop saves "/snapshots" disk-Succeeds Held disk-Writes refl saves-ConfigLaws
      disk-Files first (stopped saves "/snapshots" first) second returned refl listed coded
      ((refl, refl, tt), (refl, tt), tt) (tt, tt) (tt, tt) second-Enough

-- A process that could not be spawned: it is in the table, and no link was started for it.
abbrev unspawned : Container
unspawned = record one_port { process_tracker = record one_port.process_tracker { linking = [] } }

abbrev stuck : Backend UidPool NetworkPool PortPool Disk
stuck = record first { containers = ("web", one_port) ∷ ("api", unspawned) ∷ [] }

stop_lem_example : stop saves "/snapshots" stuck ≡ none
unfolding is_linking
stop_lem_example = stop_lem saves "/snapshots" stuck
