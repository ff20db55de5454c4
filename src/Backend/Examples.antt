-- ===== src/Backend/Examples.antt =====
-- A Create on a server with one free network.
use warden_linux.Backend.{new, register, create}
use warden_linux.Base.{◌≡◌, ok, arith}
use warden_linux.Container.Lifecycle
use warden_linux.Container.Lifecycle.Keeps.{start_works}
use warden_linux.Container.{Container}
use warden_linux.ContainerPool.Create.Examples.{free, good, made, good_created}
use warden_linux.ContainerPool.Create
use warden_linux.Examples.{sys_with, works, spec}

abbrev running : Container
running =
    (Lifecycle.start (sys_with (ok tt)) (record {
      container = made;
      port_pool = (Create.create good spec free).1.port_pool;
      world = (Create.create good spec free).1.world;
    })).1.container

web_runs : (create good spec (new free)).0 ≡ ok running
unfolding create register new
web_runs = ground (
  arith,
  good_created,
  start_works (sys_with (ok tt)) works (record {
    container = made;
    port_pool = (Create.create good spec free).1.port_pool;
    world = (Create.create good spec free).1.world;
  }),
)
