-- ===== src/Backend/Exclusive.antt =====
-- What the containers in the table of linux_backend/linux_backend.go hold.
pub mod Creates
pub mod Destroys
pub mod Runs
pub mod Restores
use warden_linux.Backend.{Backend, in_pools, register, create}
use warden_linux.Base.{
  ℕ, ◌+◌, ◌≤◌, ◌≡◌, ◌⊎◌, inl, inr, refl, List, [], ◌∷◌, String, Option, none, some, Result, ok, err,
  Result-cases, count, arith, if◌then◌else◌,
}
use warden_linux.Container.Lifecycle
use warden_linux.Container.Lifecycle.Keeps.{start_keeps}
use warden_linux.Container.{Container, Host}
use warden_linux.ContainerPool.Create
use warden_linux.ContainerPool.{Config, Pools, ContainerSpec}
use warden_linux.Dict.Totals.{total}
use warden_linux.Dict.{Dict, find, put}
use warden_linux.IdPool.Exclusive.{Exclusive}
use warden_linux.Network.{Network}
use warden_linux.System.{Error}

module _ {U N P W : Type 0} (config : Config U N P W) where
  -- How often a container holds a user id, a network or a port.
  abbrev pub holds_uid : ℕ → Container → ℕ
  holds_uid uid c = if config.uids.same c.resources.uid uid then 1 else 0

  abbrev pub holds_network : Network → Container → ℕ
  holds_network network c = if config.networks.same c.resources.network network then 1 else 0

  abbrev pub holds_port : ℕ → Container → ℕ
  holds_port port c = count config.ports.same port c.resources.ports

  -- No user id, network or port is free twice, held twice, or both free and held; all of them are
  -- of their pools' ranges; and each container stands in the table under its handle.
  pub record Inv (b : Backend U N P W) : Type 0 where
    pub named : (k : String) (c : Container) → find k b.containers ≡ some c → c.handle ≡ k
    pub uids : Exclusive config.uids b.pools.uid_pool (λ u. total (holds_uid u) b.containers)
    pub networks :
        Exclusive config.networks b.pools.network_pool (λ n. total (holds_network n) b.containers)
    pub ports : Exclusive config.ports b.pools.port_pool (λ p. total (holds_port p) b.containers)

  -- The pools after one call are those after another.
  abbrev pub PoolsOf : Pools U N P W → Pools U N P W → Type 0
  PoolsOf s t =
      (t.uid_pool ≡ s.uid_pool) × (t.network_pool ≡ s.network_pool) × (t.port_pool ≡ s.port_pool)

  -- A container that was made is started and put into the table, unless one of these fails.
  abbrev pub Registers : Result Error Container → Dict Container → Dict Container → Type 0
  Registers r before after =
      (made : Container) × (started : Container) × (r ≡ ok made)
      × (started.resources ≡ made.resources)
      × (after ≡ put started.handle started before)

  pub create-cases :
      (spec : ContainerSpec) (b : Backend U N P W)
      → let r = Create.create config spec b.pools in
        let t = (create config spec b).1 in
        PoolsOf r.1 t.pools
        × ((t.containers ≡ b.containers) ⊎ Registers r.0 b.containers t.containers)
  unfolding create register
  create-cases spec b = elim (Result-cases (Create.create config spec b.pools).0) [
    | inr (e, failed) ↦ (ground (arith, failed), inl (ground (arith, failed)))
    | inl (c, made) ↦
        (let s = (Create.create config spec b.pools).1 in
          let h : Host P W = record { container = c; port_pool = s.port_pool; world = s.world } in
          elim (Result-cases (Lifecycle.start config.sys h).0) [
            | inr (e, failed) ↦ (
              ground (arith, made, failed, start_keeps config.sys h),
              inl (ground (arith, made, failed)),
            )
            | inl (done, started) ↦ (
              ground (arith, made, started, start_keeps config.sys h),
              inr (
                c,
                (Lifecycle.start config.sys h).1.container,
                made,
                (start_keeps config.sys h).0,
                ground (arith, made, started),
              ),
            )
          ])
  ]
