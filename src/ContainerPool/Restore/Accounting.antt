-- ===== src/ContainerPool/Restore/Accounting.antt =====
-- The pools before and after Restore of container_pool.go.
use warden_linux.Base.{
  ◌≢◌, ℕ, ◌+◌, ◌≡◌, true, List, [], ◌∷◌, none, ok, count, cut, cut-none, arith, if◌then◌else◌,
}
use warden_linux.Container.Snapshots.{ContainerSnapshot}
use warden_linux.ContainerPool.Create.Steps.{ConfigLaws, uid_count, network_count}
use warden_linux.ContainerPool.PortCounts.{port_count}
use warden_linux.ContainerPool.Restore.{give_back, remove_port, remove_ports, reclaim}
use warden_linux.ContainerPool.{
  Config, Pools, release_ports, release_port, release_uid, release_network,
}
use warden_linux.IdPool.Counting.{remove-count, release-count}
use warden_linux.Network.{Network}

module _ {U N P W : Type 0} (config : Config U N P W) (laws : ConfigLaws config) where
  remove_ports_ok :
      (snapshot : ContainerSnapshot) (ports : List ℕ) (s : Pools U N P W) (port : ℕ)
      → (remove_ports config snapshot ports s).0 ≡ ok tt
      → let t = (remove_ports config snapshot ports s).1 in
        (port_count config port s ≡ count config.ports.same port ports + port_count config port t)
        × (t.uid_pool ≡ s.uid_pool)
        × (t.network_pool ≡ s.network_pool)
  unfolding remove_ports remove_port
  remove_ports_ok snapshot [] s port done = ground arith
  remove_ports_ok snapshot (a ∷ ports) s port done = ground (
    arith,
    remove-count config.ports laws.ports s.port_pool a port,
    remove_ports_ok snapshot ports (remove_port config snapshot a s).1 port,
  )

  -- A reclaim that succeeds takes the snapshot's user id, its network and each of its ports out of
  -- the pools once, and leaves everything else free as often as before.
  pub reclaim_ok :
      (snapshot : ContainerSnapshot) (s : Pools U N P W) (uid port : ℕ) (network : Network)
      → (reclaim config snapshot s).0 ≡ ok tt
      → let t = (reclaim config snapshot s).1 in
        let r = snapshot.resources in
        (uid_count config uid s
          ≡ (if config.uids.same r.uid uid then 1 else 0) + uid_count config uid t)
        × (network_count config network s
            ≡ (if config.networks.same r.network network then 1 else 0)
              + network_count config network t)
        × (port_count config port s
            ≡ count config.ports.same port r.ports + port_count config port t)
  unfolding reclaim
  reclaim_ok snapshot s uid port network done =
      let r = snapshot.resources in
      let no_uid : Pools U N P W = record s {
        uid_pool = (config.uids.remove r.uid s.uid_pool).1;
      } in
      let no_network : Pools U N P W = record no_uid {
        network_pool = (config.networks.remove r.network s.network_pool).1;
      } in
      ground (
        arith,
        remove-count config.uids laws.uids s.uid_pool r.uid uid,
        remove-count config.networks laws.networks s.network_pool r.network network,
        remove_ports_ok snapshot r.ports no_network port,
      )

  -- A snapshot whose port is already taken, by another container, is refused; but the port is then
  -- free, though the other container still has it.
  pub reclaim_frees_taken_port :
      (snapshot : ContainerSnapshot) (s : Pools U N P W) (port : ℕ)
      → (config.uids.remove snapshot.resources.uid s.uid_pool).0 ≡ ok tt
      → (config.networks.remove snapshot.resources.network s.network_pool).0 ≡ ok tt
      → snapshot.resources.ports ≡ port ∷ []
      → cut config.ports.same port (config.ports.free s.port_pool) ≡ none
      → config.ports.owns s.port_pool port ≡ true
      → let r = reclaim config snapshot s in
        (r.0 ≢ ok tt) × (port_count config port s ≡ 0) × (port_count config port r.1 ≡ 1)
  unfolding reclaim remove_ports remove_port give_back release_ports release_port release_uid
      release_network
  reclaim_frees_taken_port snapshot s port uid network ports taken owned =
      let (e, refused) = laws.ports.remove_taken s.port_pool port taken in
      let none_free = cut-none config.ports.same port (config.ports.free s.port_pool) taken in
      ground (
        arith,
        uid,
        network,
        ports,
        refused,
        none_free,
        laws.ports.same_refl port,
        release-count config.ports laws.ports s.port_pool port port owned none_free,
      )
