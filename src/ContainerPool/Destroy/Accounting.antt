-- ===== src/ContainerPool/Destroy/Accounting.antt =====
-- The pools before and after Destroy of container_pool.go.
use warden_linux.Base.{if◌then◌else◌, String, ℕ, ◌+◌, ◌≡◌, true, ok, err, count, arith}
use warden_linux.Container.{Container}
use warden_linux.ContainerPool.Create.Steps.{ConfigLaws, uid_count, network_count}
use warden_linux.ContainerPool.Destroy.{destroy_id, destroy}
use warden_linux.ContainerPool.PortCounts.{
  port_count, port_count-release_ports, release_ports-others, release_ports-owns, CanRelease,
}
use warden_linux.ContainerPool.{Config, Pools, release_uid, release_network}
use warden_linux.IdPool.Counting.{release-count}
use warden_linux.Network.{Network}
use warden_linux.System.{Error}

module _ {U N P W : Type 0} (config : Config U N P W) where
  pub destroy_id-pools :
      (id : String) (s : Pools U N P W)
      → let t = (destroy_id config id s).1 in
        (t.uid_pool ≡ s.uid_pool) × (t.network_pool ≡ s.network_pool) × (t.port_pool ≡ s.port_pool)
  unfolding destroy_id
  destroy_id-pools id s = ground arith

module _ {U N P W : Type 0} (config : Config U N P W) (laws : ConfigLaws config) where
  -- What a container holds is of the pools' ranges, and is not free.
  pub record IsHeld (c : Container) (s : Pools U N P W) : Type 0 where
    pub uid_out : uid_count config c.resources.uid s ≡ 0
    pub uid_owned : config.uids.owns s.uid_pool c.resources.uid ≡ true
    pub network_out : network_count config c.resources.network s ≡ 0
    pub network_owned : config.networks.owns s.network_pool c.resources.network ≡ true
    pub ports_out : CanRelease config c.resources.ports s

  -- A Destroy that fails gives nothing back.
  pub destroy_err :
      (c : Container) (s : Pools U N P W) (e : Error)
      → (destroy config c s).0 ≡ err e
      → let t = (destroy config c s).1 in
        (t.uid_pool ≡ s.uid_pool) × (t.network_pool ≡ s.network_pool) × (t.port_pool ≡ s.port_pool)
  unfolding destroy
  destroy_err c s e failed = ground (arith, destroy_id-pools config c.id s)

  -- A Destroy that succeeds makes the container's user id, its network and each of its ports free
  -- once more, and changes how often anything else is free in no way.
  pub destroy_ok :
      (c : Container) (s : Pools U N P W) (uid port : ℕ) (network : Network)
      → IsHeld c s
      → (destroy config c s).0 ≡ ok tt
      → let t = (destroy config c s).1 in
        (uid_count config uid t
          ≡ (if config.uids.same c.resources.uid uid then 1 else 0) + uid_count config uid s)
        × (network_count config network t
            ≡ (if config.networks.same c.resources.network network then 1 else 0)
              + network_count config network s)
        × (port_count config port t
            ≡ count config.ports.same port c.resources.ports + port_count config port s)
  unfolding destroy release_uid release_network
  destroy_ok c s uid port network held done =
      let gone = (destroy_id config c.id s).1 in
      ground (
        arith,
        destroy_id-pools config c.id s,
        release_ports-others config c.resources.ports gone,
        port_count-release_ports config laws.ports c.resources.ports gone port (record {
          once = λ p. ground (arith, destroy_id-pools config c.id s, held.ports_out.once p);
          in_range =
              λ p h. ground (arith, destroy_id-pools config c.id s, held.ports_out.in_range p);
        }),
        release-count config.uids laws.uids s.uid_pool c.resources.uid uid held.uid_owned
            held.uid_out,
        release-count config.networks laws.networks s.network_pool c.resources.network network
            held.network_owned held.network_out,
      )

  -- Destroy leaves the ranges of the pools alone.
  pub destroy-owns :
      (c : Container) (s : Pools U N P W) (uid port : ℕ) (network : Network)
      → (destroy config c s).0 ≡ ok tt
      → let t = (destroy config c s).1 in
        (config.uids.owns t.uid_pool uid ≡ config.uids.owns s.uid_pool uid)
        × (config.networks.owns t.network_pool network
            ≡ config.networks.owns s.network_pool network)
        × (config.ports.owns t.port_pool port ≡ config.ports.owns s.port_pool port)
  unfolding destroy release_uid release_network
  destroy-owns c s uid port network done =
      let gone = (destroy_id config c.id s).1 in
      ground (
        arith,
        destroy_id-pools config c.id s,
        release_ports-others config c.resources.ports gone,
        release_ports-owns config laws.ports c.resources.ports gone port,
        laws.uids.release_owns s.uid_pool c.resources.uid uid,
        laws.networks.release_owns s.network_pool c.resources.network network,
      )
