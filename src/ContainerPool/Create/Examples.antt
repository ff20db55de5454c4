-- ===== src/ContainerPool/Create/Examples.antt =====
-- The theorems on Create at a pool of two user ids and one network.
use warden_linux.Base.{◌≡◌, refl, [], ◌∷◌, ok, err, if◌then◌else◌}
use warden_linux.Container.{Container}
use warden_linux.ContainerPool.Create.Accounting.{create_ok, create_sh_err, create-provide_err}
use warden_linux.ContainerPool.Create.Steps.{Took, SameCounts, id, named}
use warden_linux.ContainerPool.Create.{
  reserve, next_id, provide, provider_of, new_container, save_rootfs_provider, write_bind_mounts,
  create,
}
use warden_linux.ContainerPool.Create.Uninterrupted.{AfterCreate, create-Steps}
use warden_linux.ContainerPool.Interleaved.{Phase, Steps, idle}
use warden_linux.ContainerPool.Ids.{container_id}
use warden_linux.ContainerPool.{Config, Pools}
use warden_linux.Examples.{config_with, config-ConfigLaws, network_at, pools_left, spec}
use warden_linux.NetworkPool.Examples.{one_left-IsSound}
use warden_linux.NetworkPool.{NetworkPool}
use warden_linux.NetworkPool
use warden_linux.PortPool.{PortPool}
use warden_linux.System.{Error}
use warden_linux.Text.{◌===◌}
use warden_linux.UidPool.Examples.{two_left-IsSound}
use warden_linux.UidPool.{UidPool}
use warden_linux.UidPool

abbrev pub free : Pools UidPool NetworkPool PortPool (Unit {0})
free = pools_left (10 ∷ 11 ∷ []) (network_at 0 ∷ []) (61000 ∷ [])

abbrev pub good : Config UidPool NetworkPool PortPool (Unit {0})
good = config_with (ok tt) (ok "/rootfs")

abbrev pub broken : Error
broken = Error.os "create.sh"

abbrev pub no_run : Config UidPool NetworkPool PortPool (Unit {0})
no_run = config_with (err broken) (ok "/rootfs")

abbrev no_rootfs : Config UidPool NetworkPool PortPool (Unit {0})
no_rootfs = config_with (ok tt) (err broken)

abbrev pub made : Container
made = new_container good spec (container_id 7) 10 (network_at 0)

pub good_created : (create good spec free).0 ≡ ok made
unfolding create reserve next_id provide provider_of save_rootfs_provider write_bind_mounts
    UidPool.acquire NetworkPool.acquire
good_created = refl

create_ok_example :
    Took good made.resources.uid made.resources.network free (create good spec free).1
    × ((create good spec free).1.port_pool ≡ free.port_pool)
    × (made.resources.ports ≡ [])
    × (made.id ≡ container_id 7)
    × (made.handle ≡ (if "web" === "" then made.id else "web"))
    × (made.state ≡ "born")
create_ok_example =
    create_ok good (config-ConfigLaws (ok tt) (ok "/rootfs")) spec free made good_created

reserved_first : (reserve no_run free).0 ≡ ok (10, network_at 0)
unfolding reserve UidPool.acquire NetworkPool.acquire
reserved_first = refl

found_rootfs :
    (provide no_run (id no_run spec free) "/rootfs" (named no_run spec free)).0
    ≡ ok (record { scheme = ""; path = "/rootfs"; fragment = "" }, "/rootfs")
unfolding provide provider_of
found_rootfs = refl

pub not_created : (create no_run spec free).0 ≡ err broken
not_created =
    (create_sh_err no_run (config-ConfigLaws (err broken) (ok "/rootfs")) spec free 10
      (network_at 0) (record { scheme = ""; path = "/rootfs"; fragment = "" }) "/rootfs" broken
      two_left-IsSound one_left-IsSound reserved_first found_rootfs refl).0

create_sh_err_example :
    ((create no_run spec free).0 ≡ err broken) × SameCounts no_run free (create no_run spec free).1
create_sh_err_example =
    create_sh_err no_run (config-ConfigLaws (err broken) (ok "/rootfs")) spec free 10 (network_at 0)
      (record { scheme = ""; path = "/rootfs"; fragment = "" }) "/rootfs" broken two_left-IsSound
      one_left-IsSound reserved_first found_rootfs refl

reserved_too : (reserve no_rootfs free).0 ≡ ok (10, network_at 0)
unfolding reserve UidPool.acquire NetworkPool.acquire
reserved_too = refl

missing_rootfs :
    (provide no_rootfs (id no_rootfs spec free) "/rootfs" (named no_rootfs spec free)).0
    ≡ err broken
unfolding provide provider_of
missing_rootfs = refl

create-provide_err_example :
    ((create no_rootfs spec free).0 ≡ err broken)
    × Took no_rootfs 10 (network_at 0) free (create no_rootfs spec free).1
create-provide_err_example =
    create-provide_err no_rootfs (config-ConfigLaws (ok tt) (err broken)) spec free 10
      (network_at 0) broken reserved_too missing_rootfs

-- A second client is waiting while create.sh fails for the first.
create-Steps_example :
    (call : Phase) × Steps no_run free
      (idle ∷ idle ∷ [])
      (create no_run spec free).1
      (call ∷ idle ∷ [])
    × AfterCreate (create no_run spec free).0 call
create-Steps_example = create-Steps no_run spec [] (idle ∷ []) free
