-- ===== src/Backend/Exclusive/Restores/Examples.antt =====
-- Restore of linux_backend/linux_backend.go at a new server with one free network.
use warden_linux.Backend.Exclusive.Restores.{restore-Inv}
use warden_linux.Backend.Exclusive.Runs.{new-Inv}
use warden_linux.Backend.Exclusive.{Inv}
use warden_linux.Backend.Snapshots as Saved
use warden_linux.Backend.{new, register}
use warden_linux.Base.{◌≡◌, ok, arith}
use warden_linux.ContainerPool.Create.Steps.{ConfigLaws}
use warden_linux.ContainerPool.Restore.Examples.{free, reads_web, web_restored, restored_web}
use warden_linux.NetworkPool.Examples as Networks
use warden_linux.NetworkPool.Laws.{network_pool-IdPoolLaws}
use warden_linux.PortPool.Examples as Ports
use warden_linux.PortPool.Laws.{port_pool-IdPoolLaws}
use warden_linux.UidPool.Examples as Uids
use warden_linux.UidPool.Laws.{uid_pool-IdPoolLaws}

reads-ConfigLaws : ConfigLaws reads_web
reads-ConfigLaws = record {
  uids = uid_pool-IdPoolLaws;
  networks = network_pool-IdPoolLaws;
  ports = port_pool-IdPoolLaws;
}

restored : (Saved.restore reads_web "/snapshots" "saved" (new free)).0 ≡ ok web_restored
unfolding Saved.restore register new
restored = ground (arith, restored_web)

restore-Inv_example : Inv reads_web (Saved.restore reads_web "/snapshots" "saved" (new free)).1
restore-Inv_example =
    restore-Inv reads_web "/snapshots" reads-ConfigLaws "saved" (new free) web_restored
      (new-Inv reads_web reads-ConfigLaws free Uids.two_left-IsSound Networks.one_left-IsSound
        Ports.one_left-IsSound)
      restored
