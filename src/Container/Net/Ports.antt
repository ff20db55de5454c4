-- ===== src/Container/Net/Ports.antt =====
-- The host ports of NetIn, of linux_backend/linux_container.go.
use mathlib.Core.List.{append-nil}
use warden_linux.Base.{
  ℕ, ◌+◌, ◌≡◌, inl, inr, [], ◌∷◌, ◌++◌, ok, Result-cases, count, count-append, arith, if◌then◌else◌,
  ◌==◌,
}
use warden_linux.Container.Net.{net_in, choose_host_port, add_port}
use warden_linux.Container.{Host}
use warden_linux.IdPool.{IdPool, IdPoolLaws}
use warden_linux.IdPool.Counting.{acquire-count, acquire_err}
use warden_linux.PortPool.{PortError}
use warden_linux.System.{System}

module _ {P W : Type 0} (ports : IdPool P ℕ PortError) (sys : System W) where
  -- How often a port is free or the container's.
  abbrev pub port_count : ℕ → Host P W → ℕ
  port_count port h =
      count ports.same port (ports.free h.port_pool)
      + count ports.same port h.container.resources.ports

  module _ (laws : IdPoolLaws ports) where
    choose_host_port-count :
        (port host_port : ℕ) (h : Host P W)
        → port_count port (choose_host_port ports sys host_port h).1 ≡ port_count port h
    unfolding choose_host_port
    choose_host_port-count port host_port h = elim (Result-cases (ports.acquire h.port_pool).0) [
      | inl (a, got) ↦ ground (
        arith,
        got,
        acquire-count ports laws h.port_pool a port got,
        count-append ports.same port h.container.resources.ports (a ∷ []),
      )
      | inr (e, failed) ↦ ground (arith, failed, acquire_err ports laws h.port_pool e failed)
    ]

    -- NetIn loses no port and makes up none: whatever it is asked for and however it ends, each
    -- port is free or the container's as often as before. A port that was acquired before net.sh
    -- failed stays the container's.
    pub port_count-net_in :
        (port host_port container_port : ℕ) (h : Host P W)
        → port_count port (net_in ports sys host_port container_port h).1 ≡ port_count port h
    unfolding net_in
    port_count-net_in port host_port container_port h =
        ground (arith, choose_host_port-count port host_port h)

  -- A NetIn that returns has recorded the mapping that it returned, after the earlier ones; the
  -- container's port is the one asked for, or else the host's; and the host's port is the one asked
  -- for, with the pool and the container's ports unchanged, or else one that the pool handed out
  -- and that is now the last of the container's ports.
  pub net_in_ok :
      (host_port container_port host inner : ℕ) (h : Host P W)
      → (net_in ports sys host_port container_port h).0 ≡ ok (host, inner)
      → let after = (net_in ports sys host_port container_port h).1 in
        (after.container.net_ins
          ≡ h.container.net_ins ++ record { host_port = host; container_port = inner } ∷ [])
        × (inner ≡ (if container_port == 0 then host else container_port))
        × ((if host_port == 0 then (ports.acquire h.port_pool).0 else ok host_port) ≡ ok host)
        × (after.port_pool
            ≡ (if host_port == 0 then (ports.acquire h.port_pool).1 else h.port_pool))
        × (after.container.resources.ports
            ≡ h.container.resources.ports ++ (if host_port == 0 then host ∷ [] else []))
  unfolding net_in choose_host_port add_port
  net_in_ok host_port container_port host inner h e =
      ground (arith, append-nil h.container.resources.ports)
