-- ===== src/ContainerPool/Restore/Examples.antt =====
-- The theorems on Restore at a snapshot with one port.
use warden_linux.Container.Snapshots
use warden_linux.Container.Snapshots.Restored.{Leaves-restore}
use warden_linux.Container.{Container, Host}
use warden_linux.PortPool.Laws.{port_pool}
use warden_linux.Base.{some, arith, ◌≡◌, ◌≢◌, refl, [], ◌∷◌, ok}
use warden_linux.ContainerPool.PortCounts.{port_count}
use warden_linux.ContainerPool.Restore.Accounting.{reclaim_frees_taken_port}
use warden_linux.ContainerPool.Restore.{
  reclaim, remove_ports, remove_port, decoded, blank_container, restore,
}
use warden_linux.ContainerPool.{Config, Pools}
use warden_linux.Examples.{
  sys_with, works, config_with, config-ConfigLaws, network_at, pools_left, web_snapshot,
}
use warden_linux.Network.{same_string}
use warden_linux.NetworkPool
use warden_linux.NetworkPool.{NetworkPool}
use warden_linux.PortPool
use warden_linux.PortPool.{PortPool}
use warden_linux.UidPool
use warden_linux.UidPool.{UidPool}

abbrev pub good : Config UidPool NetworkPool PortPool (Unit {0})
good = config_with (ok tt) (ok "/rootfs")

abbrev pub free : Pools UidPool NetworkPool PortPool (Unit {0})
free = pools_left (10 ∷ 11 ∷ []) (network_at 0 ∷ []) (61000 ∷ [])

-- Another container has the port.
abbrev port_gone : Pools UidPool NetworkPool PortPool (Unit {0})
port_gone = pools_left (11 ∷ 10 ∷ []) (network_at 0 ∷ []) (61002 ∷ [])

-- Every text is read as the same snapshot.
abbrev pub reads_web : Config UidPool NetworkPool PortPool (Unit {0})
reads_web = record good { codec = record { encode = λ s. ""; decode = λ text. some web_snapshot } }

reclaimed : (reclaim reads_web web_snapshot free).0 ≡ ok tt
unfolding reclaim remove_ports remove_port UidPool.remove NetworkPool.remove PortPool.remove
    same_string
reclaimed = refl

abbrev blank_host : Host PortPool (Unit {0})
blank_host = record {
  container = blank_container reads_web web_snapshot;
  port_pool = (reclaim reads_web web_snapshot free).1.port_pool;
  world = tt;
}

abbrev pub web_restored : Container
web_restored =
    (Snapshots.restore port_pool (sys_with (ok tt)) "/cgroups" web_snapshot blank_host).1.container

pub restored_web : (restore reads_web "saved" free).0 ≡ ok web_restored
unfolding restore decoded
restored_web = ground (
  arith,
  reclaimed,
  Leaves-restore port_pool (sys_with (ok tt)) "/cgroups" works web_snapshot blank_host tt tt,
)

uid_there : (UidPool.remove 10 port_gone.uid_pool).0 ≡ ok tt
unfolding UidPool.remove
uid_there = refl

network_there : (NetworkPool.remove (network_at 0) port_gone.network_pool).0 ≡ ok tt
unfolding NetworkPool.remove same_string
network_there = refl

reclaim_frees_taken_port_example :
    let r = reclaim good web_snapshot port_gone in
    (r.0 ≢ ok tt) × (port_count good 61000 port_gone ≡ 0) × (port_count good 61000 r.1 ≡ 1)
reclaim_frees_taken_port_example =
    reclaim_frees_taken_port good (config-ConfigLaws (ok tt) (ok "/rootfs")) web_snapshot port_gone
      61000 uid_there network_there refl refl refl
