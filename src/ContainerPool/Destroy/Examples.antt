-- ===== src/ContainerPool/Destroy/Examples.antt =====
-- The theorems on Destroy at a container with two ports.
use warden_linux.Base.{◌+◌, ◌≡◌, refl, arith, [], ◌∷◌, ok, err, if◌then◌else◌}
use warden_linux.Container.{Container}
use warden_linux.Container.Net.{net_in}
use warden_linux.Container.Net.Uninterrupted.{host, back_to, net_in-Steps}
use warden_linux.ContainerPool.Create.{provider_of}
use warden_linux.ContainerPool.Create.Steps.{uid_count, network_count}
use warden_linux.ContainerPool.Destroy.Accounting.{IsHeld, destroy_ok}
use warden_linux.ContainerPool.Destroy.{destroy, destroy_id, saved_scheme}
use warden_linux.ContainerPool.Destroy.Uninterrupted.{holding, after_destroy, destroy-Steps}
use warden_linux.ContainerPool.Interleaved.{Steps}
use warden_linux.ContainerPool.PortCounts.{port_count}
use warden_linux.ContainerPool.{Config, Pools}
use warden_linux.Examples.{config_with, config-ConfigLaws, network_at, pools_left, web}
use warden_linux.NetworkPool.Examples.{contains_first}
use warden_linux.NetworkPool.{NetworkPool}
use warden_linux.PortPool.{PortPool}
use warden_linux.System.{Error}
use warden_linux.UidPool.{UidPool}

abbrev pub busy : Pools UidPool NetworkPool PortPool (Unit {0})
busy = pools_left (11 ∷ []) [] (61002 ∷ 61003 ∷ [])

abbrev good : Config UidPool NetworkPool PortPool (Unit {0})
good = config_with (ok tt) (ok "/rootfs")

abbrev pub stuck : Config UidPool NetworkPool PortPool (Unit {0})
stuck = config_with (err (Error.os "destroy.sh")) (ok "/rootfs")

web-IsHeld : IsHeld good (config-ConfigLaws (ok tt) (ok "/rootfs")) web busy
web-IsHeld = record {
  uid_out = refl;
  uid_owned = refl;
  network_out = refl;
  network_owned = contains_first;
  ports_out = record { once = λ port. ground arith; in_range = λ port named. ground arith };
}

pub destroyed : (destroy good web busy).0 ≡ ok tt
unfolding destroy destroy_id saved_scheme provider_of
destroyed = refl

destroy_ok_example :
    let t = (destroy good web busy).1 in
    (uid_count good 10 t ≡ 1)
    × (network_count good (network_at 0) t
        ≡ (if good.networks.same (network_at 0) (network_at 0) then 1 else 0) + 0)
    × (port_count good 61001 t ≡ 1)
destroy_ok_example =
    destroy_ok good (config-ConfigLaws (ok tt) (ok "/rootfs")) web busy 10 61001 (network_at 0)
      web-IsHeld destroyed

pub not_destroyed : (destroy stuck web busy).0 ≡ err (Error.os "destroy.sh")
unfolding destroy destroy_id saved_scheme provider_of
not_destroyed = refl

-- A second container beside the first.
abbrev api : Container
api = record web {
  id = "c8";
  handle = "api";
  resources = record { uid = 11; network = network_at 1; ports = 61002 ∷ [] };
}

abbrev full : Pools UidPool NetworkPool PortPool (Unit {0})
full = pools_left [] [] (61003 ∷ [])

destroy-Steps_example :
    Steps good full
      (holding web ∷ holding api ∷ [])
      (destroy good api full).1
      (holding web ∷ after_destroy api (destroy good api full).0 ∷ [])
destroy-Steps_example = destroy-Steps good (holding web ∷ []) [] api full

-- The port that NetIn asks the pool for is held while another container stands still.
net_in-Steps_example :
    let h = (net_in good.ports good.sys 0 8080 (host web full)).1 in
    Steps good full
      (holding web ∷ holding api ∷ [])
      (back_to full h)
      (holding h.container ∷ holding api ∷ [])
net_in-Steps_example = net_in-Steps good [] (holding api ∷ []) 0 8080 web full
