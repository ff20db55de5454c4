-- ===== src/Server/Examples.antt =====
-- The theorems on main.go at the flags of a small server.
use mathlib.Core.Path.{subst}
use warden_linux.Backend.Exclusive.Runs.{run, creates, maps, destroys}
use warden_linux.Backend.Exclusive.{Inv}
use warden_linux.Backend
use warden_linux.Base.{◌≡◌, refl, true, [], ◌∷◌, none, ok, err, arith}
use warden_linux.ContainerPool
use warden_linux.ContainerPool.{max_containers}
use warden_linux.Examples.{sys_with, spec, block}
use warden_linux.Examples.PoolRuns.{block-IsV4Block}
use warden_linux.Network.{IpNet}
use warden_linux.NetworkPool.Subnets.{IsV4Block}
use warden_linux.QuotaManager
use warden_linux.QuotaManager.{QuotaManager}
use warden_linux.RepositoryFetcher.{Registry, Graph}
use warden_linux.RootfsProviders.{GraphDriver}
use warden_linux.Server.Started.{server_of, run-main-Exclusive, max_containers-main}
use warden_linux.Server.{
  Flags, Libraries, Server, defaults, main, checked, images, quota_manager, set_up, runner,
}
use warden_linux.System.{Error}
use warden_linux.Sysconfig
use warden_linux.Text.{split_on}
use warden_linux.CgroupsManager.{trim_newlines}

abbrev flags : Flags
flags = record (defaults "https://index.docker.io/v1/") {
  bin_path = "/bin";
  depot_path = "/depot";
  overlays_path = "/overlays";
  rootfs_path = "/rootfs";
  network_pool = "10.254.0.0/28";
}

abbrev driver : GraphDriver (Unit {0})
driver = record {
  create = λ id parent w. (ok tt, w);
  get = λ id label w. (ok "/graph", w);
  put = λ id w. w;
  remove = λ id w. (ok tt, w);
}

abbrev graph : Graph (Unit {0})
graph = record { exists = λ id w. true; register = λ json layer id w. (ok tt, w) }

abbrev reg : Registry (Unit {0})
reg = record {
  get_repository_data = λ name w. (err (Error.os "no registry"), w);
  get_remote_tags = λ endpoints name tokens w. (ok [], w);
  get_remote_history = λ image endpoint tokens w. (ok [], w);
  get_remote_image_json = λ image endpoint tokens w. (ok ("", 0), w);
  get_remote_image_layer = λ image endpoint tokens size w. (ok "", w);
  new_img_json = λ json. ok json;
}

abbrev lib : Libraries (Unit {0})
lib = record {
  runner = λ debug. sys_with (ok tt);
  os_environ = [];
  parse_cidr = λ text. ok block;
  ip_net_text = λ net. "10.254.0.0/28";
  new_graph_driver = λ root w. (ok driver, w);
  new_graph = λ root d w. (ok graph, w);
  new_registry = λ address w. (ok reg, w);
  parse_url = λ text. ok (record { scheme = ""; path = text; fragment = "" });
  codec = record { encode = λ s. ""; decode = λ text. none };
  ip_text = λ ip. "10.254.0.1";
  container_num = λ w. 7;
}

abbrev quota : QuotaManager
quota = record { enabled = true; bin_path = "/bin"; mount_point = trim_newlines "" }

abbrev server : Server (Unit {0})
server = server_of lib flags block quota driver graph reg tt tt

starts : (main lib flags tt).0 ≡ ok server
unfolding main defaults checked images quota_manager runner set_up QuotaManager.new
    Sysconfig.new_runner Backend.setup Backend.new ContainerPool.setup split_on
starts = refl

block_only : (net : IpNet) → lib.parse_cidr flags.network_pool ≡ ok net → IsV4Block net
block_only net parsed = let same : block ≡ net = cc (parsed) in subst IsV4Block same block-IsV4Block

run-main-Exclusive_example :
    Inv server.config
      (run server.config server.backend (creates spec ∷ maps "web" 0 8080 ∷ destroys "db" ∷ []))
run-main-Exclusive_example =
    run-main-Exclusive lib flags tt server (creates spec ∷ maps "web" 0 8080 ∷ destroys "db" ∷ [])
      starts block_only

max_containers-main_example : max_containers server.config server.backend.pools ≡ 4
unfolding defaults
max_containers-main_example =
    max_containers-main lib flags tt server block starts refl block-IsV4Block (omega arith)
