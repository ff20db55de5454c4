-- ===== src/Container/Net/Outcomes.antt =====
-- NetIn and NetOut where both ports are given and net.sh succeeds.
use warden_linux.Base.{ℕ, ◌≡◌, false, [], ◌∷◌, ◌++◌, String, ok, Result, arith, if◌then◌else◌, ◌==◌}
use warden_linux.Container.Net.{net_in, net_cmd, net_out, net_out_env, in_env}
use warden_linux.Container.{Container, Host}
use warden_linux.IdPool.{IdPool}
use warden_linux.PortPool.{PortError}
use warden_linux.System.{Error, System, Succeeds}
use warden_linux.Text.{◌===◌}

-- A call that returns no error and leaves this container and this port pool.
abbrev pub Leaves : {P W A : Type 0} → Result Error A × Host P W → A → Container → P → Type 0
Leaves r a c p = (r.0 ≡ ok a) × (r.1.container ≡ c) × (r.1.port_pool ≡ p)

module _ {P W : Type 0} (ports : IdPool P ℕ PortError) (sys : System W) (works : Succeeds sys) where
  pub Leaves-net_in :
      (host_port container_port : ℕ) (h : Host P W)
      → (host_port == 0) ≡ false
      → (container_port == 0) ≡ false
      → Leaves
          (net_in ports sys host_port container_port h)
          (host_port, container_port)
          (record h.container {
            net_ins =
                h.container.net_ins
                ++ record { host_port = host_port; container_port = container_port } ∷ [];
          })
          h.port_pool
  unfolding net_in
  Leaves-net_in host_port container_port h given inner = ground (
    arith,
    works.run_ok (net_cmd h.container ("in" ∷ []) (in_env ports sys host_port container_port))
        h.world,
  )

  pub Leaves-net_out :
      (network : String) (port : ℕ) (h : Host P W)
      → (if port == 0 then network === "" else false) ≡ false
      → Leaves
          (net_out ports sys network port h)
          tt
          (record h.container {
            net_outs = h.container.net_outs ++ record { network = network; port = port } ∷ [];
          })
          h.port_pool
  unfolding net_out
  Leaves-net_out network port h given = ground (
    arith,
    works.run_ok (net_cmd h.container ("out" ∷ []) (net_out_env ports sys network port)) h.world,
  )
