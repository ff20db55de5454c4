-- ===== src/Container/Net/Keeps.antt =====
-- What NetIn and NetOut leave alone.
use warden_linux.Base.{
  ℕ, ◌≡◌, String, arith, false, [], ◌∷◌, ◌==◌, if◌then◌else◌, Bool-cases, Result-cases, inl, inr,
}
use warden_linux.Container.Net.{
  net_in, choose_host_port, acquire_port, add_port, net_out, permit, net_cmd, in_env, net_out_env,
}
use warden_linux.Container.{Host}
use warden_linux.IdPool.{IdPool, IdPoolLaws}
use warden_linux.PortPool.{PortError}
use warden_linux.System.{Cmd, System}
use warden_linux.Text.{◌===◌}

module _ {P W : Type 0} (ports : IdPool P ℕ PortError) (sys : System W) where
  -- NetIn changes neither the name of a container nor its user id nor its network.
  pub net_in_keeps :
      (host_port container_port : ℕ) (h : Host P W)
      → let t = (net_in ports sys host_port container_port h).1 in
        (t.container.handle ≡ h.container.handle)
        × (t.container.resources.uid ≡ h.container.resources.uid)
        × (t.container.resources.network ≡ h.container.resources.network)
  unfolding net_in choose_host_port acquire_port add_port
  net_in_keeps host_port container_port h = ground arith

  pub net_in-owns :
      (laws : IdPoolLaws ports) (host_port container_port port : ℕ) (h : Host P W)
      → ports.owns (net_in ports sys host_port container_port h).1.port_pool port
        ≡ ports.owns h.port_pool port
  unfolding net_in choose_host_port acquire_port add_port
  net_in-owns laws host_port container_port port h =
      ground (arith, laws.acquire_owns h.port_pool port)

  pub net_out_keeps :
      (network : String) (port : ℕ) (h : Host P W)
      → let t = (net_out ports sys network port h).1 in
        (t.container.handle ≡ h.container.handle)
        × (t.container.resources ≡ h.container.resources)
        × (t.port_pool ≡ h.port_pool)
  unfolding net_out permit
  net_out_keeps network port h = ground arith

  -- One run of net.sh is all that they do to the world.
  module _ (Kept : W → Type 0) (runs : (cmd : Cmd) (w : W) → Kept w → Kept (sys.run cmd w).1) where
    choose_host_port_world :
        (host_port : ℕ) (h : Host P W) → (choose_host_port ports sys host_port h).1.world ≡ h.world
    unfolding choose_host_port acquire_port
    choose_host_port_world host_port h = ground arith

    pub net_in_world :
        (host_port container_port : ℕ) (h : Host P W)
        → Kept h.world
        → Kept (net_in ports sys host_port container_port h).1.world
    unfolding net_in
    net_in_world host_port container_port h kept =
        let r = choose_host_port ports sys host_port h in
        let same : Kept r.1.world = rw (choose_host_port_world host_port h) kept in
        elim (Result-cases r.0) [
          | inr (e, failed) ↦ rw (failed) same
          | inl (host, chosen) ↦
              (let inner = if container_port == 0 then host else container_port in
                let cmd = net_cmd r.1.container ("in" ∷ []) (in_env ports sys host inner) in
                elim (Result-cases (sys.run cmd r.1.world).0) [
                  | inr (e, failed) ↦ rw (chosen, failed) (runs cmd r.1.world same)
                  | inl (done, ran) ↦ rw (chosen, ran) (runs cmd r.1.world same)
                ])
        ]

    pub net_out_world :
        (network : String) (port : ℕ) (h : Host P W)
        → Kept h.world
        → Kept (net_out ports sys network port h).1.world
    unfolding net_out permit
    net_out_world network port h kept =
        let cmd = net_cmd h.container ("out" ∷ []) (net_out_env ports sys network port) in
        let ran = runs cmd h.world kept in
        elim (Bool-cases (if port == 0 then network === "" else false)) [
          | inl refused ↦ rw (refused) kept
          | inr given ↦ elim (Result-cases (sys.run cmd h.world).0) [
            | inr (e, failed) ↦ rw (given, failed) ran
            | inl (done, works) ↦ rw (given, works) ran
          ]
        ]
