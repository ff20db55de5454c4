-- ===== src/Container/Snapshots/Examples.antt =====
-- The theorem on Snapshot and Restore at a container that has something of each kind.
use warden_linux.Base.{◌≡◌, refl, [], ◌∷◌, ok, none}
use warden_linux.Container
use warden_linux.Container.Snapshots.Restored.{restore-snapshot}
use warden_linux.Container.Snapshots.{snapshot, restore}
use warden_linux.Examples.{sys_with, works, web, ports_left}
use warden_linux.PortPool.Laws.{port_pool}
use warden_linux.ProcessTracker

restore-snapshot_example :
    let blank =
      Container.new "c7" "web" "/depot/c7" web.properties 60 web.resources
        (ProcessTracker.new "/depot/c7") in
    let r =
      restore port_pool
        (sys_with (ok tt))
        "/cgroups"
        (snapshot web)
        (record { container = blank; port_pool = ports_left (61002 ∷ []); world = tt }) in
    (r.0 ≡ ok tt)
    × (r.1.container.id ≡ "c7")
    × (r.1.container.handle ≡ "web")
    × (r.1.container.properties ≡ web.properties)
    × (r.1.container.state ≡ "active")
    × (r.1.container.events ≡ web.events)
    × (r.1.container.resources ≡ web.resources)
    × (r.1.container.net_ins ≡ web.net_ins)
    × (r.1.container.net_outs ≡ web.net_outs)
    × (r.1.container.current_memory_limits ≡ web.current_memory_limits)
    × (r.1.port_pool ≡ ports_left (61002 ∷ []))
    × (r.1.container.current_cpu_limits ≡ none)
    × (r.1.container.current_disk_limits ≡ none)
    × (r.1.container.current_bandwidth_limits ≡ none)
restore-snapshot_example =
    restore-snapshot port_pool (sys_with (ok tt)) "/cgroups" works web "/depot/c7"
      (ProcessTracker.new "/depot/c7") (ports_left (61002 ∷ [])) tt (refl, refl, tt) (refl, tt)
