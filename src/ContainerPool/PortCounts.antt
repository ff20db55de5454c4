-- ===== src/ContainerPool/PortCounts.antt =====
-- The loop that gives a container's ports back.
use warden_linux.Base.{ℕ, ◌+◌, ◌≤◌, ◌<◌, ◌≡◌, refl, true, List, [], ◌∷◌, count, arith}
use warden_linux.ContainerPool.{Config, Pools, release_ports, release_port}
use warden_linux.IdPool.{IdPoolLaws}
use warden_linux.IdPool.Counting.{release-count}

module _ {U N P W : Type 0} (config : Config U N P W) where
  abbrev pub port_count : ℕ → Pools U N P W → ℕ
  port_count port s = count config.ports.same port (config.ports.free s.port_pool)

  -- Ports that are of the pool's range, and none of which is free or named twice.
  pub record CanRelease (ports : List ℕ) (s : Pools U N P W) : Type 0 where
    pub once : (port : ℕ) → count config.ports.same port ports + port_count port s ≤ 1
    pub in_range :
        (port : ℕ)
        → 0 < count config.ports.same port ports
        → config.ports.owns s.port_pool port ≡ true

  pub release_ports-others :
      (ports : List ℕ) (s : Pools U N P W)
      → ((release_ports config ports s).uid_pool ≡ s.uid_pool)
        × ((release_ports config ports s).network_pool ≡ s.network_pool)
        × ((release_ports config ports s).world ≡ s.world)
  unfolding release_ports
  release_ports-others [] s = ground arith
  release_ports-others (port ∷ ports) s =
      ground (arith, release_ports-others ports (release_port config port s))

  module _ (laws : IdPoolLaws config.ports) where
    release_port-CanRelease :
        (port : ℕ) (ports : List ℕ) (s : Pools U N P W)
        → CanRelease (port ∷ ports) s
        → CanRelease ports (release_port config port s)
    unfolding release_port
    release_port-CanRelease port ports s can = record {
      once = λ a. ground (
        arith,
        can.once a,
        can.once port,
        can.in_range port,
        laws.same_refl port,
        release-count config.ports laws s.port_pool port a,
      );
      in_range = λ a named. ground (arith, can.in_range a, laws.release_owns s.port_pool port a);
    }

    pub port_count-release_ports :
        (ports : List ℕ) (s : Pools U N P W) (port : ℕ)
        → CanRelease ports s
        → port_count port (release_ports config ports s)
          ≡ count config.ports.same port ports + port_count port s
    unfolding release_ports release_port
    port_count-release_ports [] s port can = ground arith
    port_count-release_ports (a ∷ ports) s port can = ground (
      arith,
      can.once a,
      can.in_range a,
      laws.same_refl a,
      release-count config.ports laws s.port_pool a port,
      port_count-release_ports ports (release_port config a s) port
          (release_port-CanRelease a ports s can),
    )

    pub release_ports-owns :
        (ports : List ℕ) (s : Pools U N P W) (port : ℕ)
        → config.ports.owns (release_ports config ports s).port_pool port
          ≡ config.ports.owns s.port_pool port
    unfolding release_ports release_port
    release_ports-owns [] s port = refl
    release_ports-owns (a ∷ ports) s port = ground (
      arith,
      laws.release_owns s.port_pool a port,
      release_ports-owns ports (release_port config a s) port,
    )
