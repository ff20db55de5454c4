-- ===== src/Backend.antt =====
-- linux_backend/linux_backend.go: the table of the containers by their handles.
pub mod Snapshots
pub mod Exclusive
pub mod Registry
pub mod Restart
pub mod Examples
use warden_linux.Base.{
  ℕ, Bool, true, false, List, [], ◌∷◌, String, Option, none, some, if◌then◌else◌, Result, ok, err,
  Exec, ◌>>=◌, ◌>>◌, pure, zoom, ◌&&◌,
}
use warden_linux.Container.Lifecycle
use warden_linux.Container.{Container, Properties}
use warden_linux.ContainerPool.Create
use warden_linux.ContainerPool.Destroy
use warden_linux.ContainerPool.{Config, Pools, ContainerSpec, with_container, max_containers}
use warden_linux.ContainerPool
use warden_linux.Dict
use warden_linux.Dict.{Dict}
use warden_linux.System.{Error}
use warden_linux.Text.{◌===◌}

pub record Backend (U N P W : Type 0) : Type 0 where
  pub containers : Dict Container
  pub pools : Pools U N P W

pub record Capacity : Type 0 where
  pub memory_in_bytes : ℕ
  pub disk_in_bytes : ℕ
  pub max_containers : ℕ

module _ {U N P W A : Type 0} where
  abbrev pub in_pools : Exec (Pools U N P W) Error A → Exec (Backend U N P W) Error A
  in_pools = zoom (λ b. b.pools) (λ p b. record b { pools = p })

-- `for key, val := range properties`: each is there, with the same value.
pub has_properties : Properties → Properties → Bool
has_properties props [] = true
has_properties props ((key, val) ∷ rest) = elim (Dict.find key props) [
  | none ↦ false
  | some cval ↦ if cval === val then has_properties props rest else false
]

pub select : Properties → Dict Container → List Container
unfolding has_properties
select filter [] = []
select filter ((handle, c) ∷ rest) =
    let others = select filter rest in
    if has_properties c.properties filter then c ∷ others else others

module _ {U N P W : Type 0} where
  unfoldable pub new : Pools U N P W → Backend U N P W
  new pools = record { containers = []; pools = pools }

  -- `b.containers[container.Handle()] = container`
  unfoldable pub register : Container → Exec (Backend U N P W) Error (Unit {0})
  register c b = (ok tt, record b { containers = Dict.put c.handle c b.containers })

  pub lookup : String → Exec (Backend U N P W) Error Container
  lookup handle b = elim (Dict.find handle b.containers) [
    | none ↦ (err (Error.unknown_handle handle), b)
    | some c ↦ (ok c, b)
  ]

  pub containers : Properties → Exec (Backend U N P W) Error (List Container)
  unfolding select
  containers filter b = (ok (select filter b.containers), b)

  module _ (config : Config U N P W) where
    unfoldable pub setup : Exec (Backend U N P W) Error (Unit {0})
    setup = in_pools (ContainerPool.setup config)

    pub capacity : Exec W Error ℕ → Exec W Error ℕ → Exec (Backend U N P W) Error Capacity
    capacity total_memory total_disk = do
      memory ← in_pools (ContainerPool.in_world total_memory)
      disk ← in_pools (ContainerPool.in_world total_disk)
      λ b. (
        ok (record {
          memory_in_bytes = memory;
          disk_in_bytes = disk;
          max_containers = max_containers config b.pools;
        }),
        b,
      )

    pub create : ContainerSpec → Exec (Backend U N P W) Error Container
    unfolding register
    create spec = do
      made ← in_pools (Create.create config spec)
      started ← in_pools (with_container made (Lifecycle.start config.sys))
      register started
      pure started

    pub destroy : String → Exec (Backend U N P W) Error (Unit {0})
    unfolding lookup
    destroy handle = do
      c ← lookup handle
      in_pools (Destroy.destroy config c)
      λ b. (ok tt, record b { containers = Dict.delete c.handle b.containers })
