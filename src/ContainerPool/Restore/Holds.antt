-- ===== src/ContainerPool/Restore/Holds.antt =====
-- What a container that Restore of container_pool.go returns holds.
use warden_linux.Base.{
  ℕ, ◌+◌, ◌≡◌, refl, inl, inr, List, [], ◌∷◌, String, ok, Result-cases, count, arith, if◌then◌else◌,
}
use warden_linux.Container.Snapshots
use warden_linux.Container.Snapshots.Conserved.{restore-Conserves}
use warden_linux.Container.Snapshots.World.{IsStable, restore_world}
use warden_linux.Container.Snapshots.{ContainerSnapshot}
use warden_linux.Container.{Container, Host}
use warden_linux.Container
use warden_linux.ContainerPool.Create.Steps.{ConfigLaws, uid_count, network_count}
use warden_linux.ContainerPool.PortCounts.{port_count}
use warden_linux.ContainerPool.Restore.Accounting.{reclaim_ok}
use warden_linux.ContainerPool.Restore.{
  decoded, remove_port, remove_ports, reclaim, blank_container, restore,
}
use warden_linux.ContainerPool.{Config, Pools}
use warden_linux.Network.{Network}

module _ {U N P W : Type 0} (config : Config U N P W) (laws : ConfigLaws config) where
  -- The ranges of the pools are as they were.
  abbrev pub SameRanges : Pools U N P W → Pools U N P W → Type 0
  SameRanges s t =
      ((u : ℕ) → config.uids.owns t.uid_pool u ≡ config.uids.owns s.uid_pool u)
      × ((n : Network)
          → config.networks.owns t.network_pool n ≡ config.networks.owns s.network_pool n)
      × ((p : ℕ) → config.ports.owns t.port_pool p ≡ config.ports.owns s.port_pool p)

  remove_ports-owns :
      (snapshot : ContainerSnapshot) (ports : List ℕ) (s : Pools U N P W) (p : ℕ)
      → (remove_ports config snapshot ports s).0 ≡ ok tt
      → let t = (remove_ports config snapshot ports s).1 in
        (t.uid_pool ≡ s.uid_pool)
        × (t.network_pool ≡ s.network_pool)
        × (config.ports.owns t.port_pool p ≡ config.ports.owns s.port_pool p)
  unfolding remove_ports remove_port
  remove_ports-owns snapshot [] s p done = (refl, refl, refl)
  remove_ports-owns snapshot (a ∷ ports) s p done = ground (
    arith,
    laws.ports.remove_owns s.port_pool a p,
    remove_ports-owns snapshot ports (remove_port config snapshot a s).1 p,
  )

  reclaim-owns :
      (snapshot : ContainerSnapshot) (s : Pools U N P W) (u p : ℕ) (n : Network)
      → (reclaim config snapshot s).0 ≡ ok tt
      → let t = (reclaim config snapshot s).1 in
        (config.uids.owns t.uid_pool u ≡ config.uids.owns s.uid_pool u)
        × (config.networks.owns t.network_pool n ≡ config.networks.owns s.network_pool n)
        × (config.ports.owns t.port_pool p ≡ config.ports.owns s.port_pool p)
  unfolding reclaim
  reclaim-owns snapshot s u p n done =
      let r = snapshot.resources in
      let no_uid : Pools U N P W = record s {
        uid_pool = (config.uids.remove r.uid s.uid_pool).1;
      } in
      let no_network : Pools U N P W = record no_uid {
        network_pool = (config.networks.remove r.network s.network_pool).1;
      } in
      ground (
        arith,
        laws.uids.remove_owns s.uid_pool r.uid u,
        laws.networks.remove_owns s.network_pool r.network n,
        remove_ports-owns snapshot r.ports no_network p,
      )

  -- The container as Restore of linux_container.go leaves it, and the port pool and the world beside.
  host_after : ContainerSnapshot → Pools U N P W → Host P W
  host_after snapshot s =
      (Snapshots.restore config.ports config.sys config.cgroups_path snapshot (record {
        container = blank_container config snapshot;
        port_pool = s.port_pool;
        world = s.world;
      })).1

  restore-steps :
      (text : String) (s : Pools U N P W) (c : Container)
      → (restore config text s).0 ≡ ok c
      → (snapshot : ContainerSnapshot) × ((reclaim config snapshot s).0 ≡ ok tt)
        × (c ≡ (host_after snapshot (reclaim config snapshot s).1).container)
        × ((restore config text s).1.uid_pool ≡ (reclaim config snapshot s).1.uid_pool)
        × ((restore config text s).1.network_pool ≡ (reclaim config snapshot s).1.network_pool)
        × ((restore config text s).1.port_pool
            ≡ (host_after snapshot (reclaim config snapshot s).1).port_pool)
        × ((restore config text s).1.world
            ≡ (host_after snapshot (reclaim config snapshot s).1).world)
  unfolding restore host_after
  restore-steps text s c done = elim (Result-cases (decoded (config.codec.decode text))) [
    | inr (e, failed) ↦ absurd (ground (arith, failed))
    | inl (snapshot, got) ↦ elim (Result-cases (reclaim config snapshot s).0) [
      | inr (e, failed) ↦ absurd (ground (arith, got, failed))
      | inl (tt, taken) ↦
          (let t = (reclaim config snapshot s).1 in
            let h : Host P W = record {
              container = blank_container config snapshot;
              port_pool = t.port_pool;
              world = t.world;
            } in
            elim (Result-cases
              (Snapshots.restore config.ports config.sys config.cgroups_path snapshot h).0) [
                | inr (e, failed) ↦ absurd (ground (arith, got, taken, failed))
                | inl (tt, ran) ↦ (
                  snapshot,
                  taken,
                  ground (arith, got, taken, ran),
                  ground (arith, got, taken, ran),
                  ground (arith, got, taken, ran),
                  ground (arith, got, taken, ran),
                  ground (arith, got, taken, ran),
                )
              ])
    ]
  ]

  -- Everything is free as often as before, but for what the container holds.
  pub record TakesOut (c : Container) (s t : Pools U N P W) : Type 0 where
    pub uid_out :
        (u : ℕ)
        → uid_count config u s
          ≡ (if config.uids.same c.resources.uid u then 1 else 0) + uid_count config u t
    pub network_out :
        (n : Network)
        → network_count config n s
          ≡ (if config.networks.same c.resources.network n then 1 else 0) + network_count config n t
    pub port_out :
        (p : ℕ)
        → port_count config p s
          ≡ count config.ports.same p c.resources.ports + port_count config p t
    pub uid_range : (u : ℕ) → config.uids.owns t.uid_pool u ≡ config.uids.owns s.uid_pool u
    pub network_range :
        (n : Network)
        → config.networks.owns t.network_pool n ≡ config.networks.owns s.network_pool n
    pub port_range : (p : ℕ) → config.ports.owns t.port_pool p ≡ config.ports.owns s.port_pool p

  pub restore-TakesOut :
      (text : String) (s : Pools U N P W) (c : Container)
      → (restore config text s).0 ≡ ok c
      → TakesOut c s (restore config text s).1
  unfolding host_after blank_container Container.new
  restore-TakesOut text s c done =
      let (snapshot, taken, same, uids, networks, ports, world) = restore-steps text s c done in
      let t = (reclaim config snapshot s).1 in
      let kept =
        restore-Conserves config.ports config.sys config.cgroups_path laws.ports snapshot (record {
          container = blank_container config snapshot;
          port_pool = t.port_pool;
          world = t.world;
        }) in
      let no_network : Network = record {
        ip_net = record { ip = 0; addresses = 0 };
        host_ip = 0;
        container_ip = 0;
      } in
      record {
        uid_out = λ u. ground (
          arith,
          same,
          uids,
          kept.same_uid,
          reclaim_ok config laws snapshot s u 0 no_network taken,
        );
        network_out = λ n. ground (
          arith,
          same,
          networks,
          kept.same_network,
          reclaim_ok config laws snapshot s 0 0 n taken,
        );
        port_out = λ p. ground (
          arith,
          same,
          ports,
          kept.same_count p,
          reclaim_ok config laws snapshot s 0 p no_network taken,
        );
        uid_range = λ u. ground (arith, uids, reclaim-owns snapshot s u 0 no_network taken);
        network_range = λ n. ground (arith, networks, reclaim-owns snapshot s 0 0 n taken);
        port_range = λ p.
            ground (arith, ports, kept.same_range p, reclaim-owns snapshot s 0 p no_network taken);
      }

  remove_ports-world :
      (snapshot : ContainerSnapshot) (ports : List ℕ) (s : Pools U N P W)
      → (remove_ports config snapshot ports s).0 ≡ ok tt
      → (remove_ports config snapshot ports s).1.world ≡ s.world
  unfolding remove_ports remove_port
  remove_ports-world snapshot [] s done = refl
  remove_ports-world snapshot (a ∷ ports) s done =
      ground (arith, remove_ports-world snapshot ports (remove_port config snapshot a s).1)

  reclaim-world :
      (snapshot : ContainerSnapshot) (s : Pools U N P W)
      → (reclaim config snapshot s).0 ≡ ok tt
      → (reclaim config snapshot s).1.world ≡ s.world
  unfolding reclaim
  reclaim-world snapshot s done =
      let r = snapshot.resources in
      let no_uid : Pools U N P W = record s {
        uid_pool = (config.uids.remove r.uid s.uid_pool).1;
      } in
      let no_network : Pools U N P W = record no_uid {
        network_pool = (config.networks.remove r.network s.network_pool).1;
      } in
      ground (arith, remove_ports-world snapshot r.ports no_network)

  pub restore-world :
      (Kept : W → Type 0) (text : String) (s : Pools U N P W) (c : Container)
      → IsStable config.sys config.cgroups_path Kept
      → (restore config text s).0 ≡ ok c
      → Kept s.world
      → Kept (restore config text s).1.world
  unfolding host_after
  restore-world Kept text s c stable done kept =
      let (snapshot, taken, same, uids, networks, ports, world) = restore-steps text s c done in
      let t = (reclaim config snapshot s).1 in
      rw (world) (
        restore_world config.ports config.sys config.cgroups_path Kept stable snapshot
          (record {
            container = blank_container config snapshot;
            port_pool = t.port_pool;
            world = t.world;
          })
          (rw (reclaim-world snapshot s taken) kept))
