-- ===== src/Container/Net/Uninterrupted.antt =====
-- NetIn of linux_backend/linux_container.go, run without interruption, as steps among other calls.
use mathlib.Core.Path.{subst}
use warden_linux.Base.{
  Bool-cases, ℕ, ◌≡◌, sym, inl, inr, List, ◌∷◌, ◌++◌, Result-cases, arith, ◌==◌,
}
use warden_linux.Container.Net.{net_in, choose_host_port, add_port}
use warden_linux.Container.{Container, Host, Resources}
use warden_linux.ContainerPool.Destroy.Uninterrupted.{holding}
use warden_linux.ContainerPool.Interleaved.Runs.{Run, Run-step, Run-same}
use warden_linux.ContainerPool.Interleaved.{in_net_in, Phase, Steps, made, takes_port, no_port}
use warden_linux.ContainerPool.{Config, Pools}

-- What the container pool has, for a container.
abbrev pub host : {U N P W : Type 0} → Container → Pools U N P W → Host P W
host c s = record { container = c; port_pool = s.port_pool; world = s.world }

abbrev pub back_to : {U N P W : Type 0} → Pools U N P W → Host P W → Pools U N P W
back_to s h = record s { port_pool = h.port_pool; world = h.world }

abbrev of_resources : Resources → Phase
of_resources r = made r.uid r.network r.ports

module _ {U N P W : Type 0} (config : Config U N P W) (front back : List Phase) where
  net_in-ends :
      (host_port container_port : ℕ) (c : Container) (s : Pools U N P W) (r : Resources)
      → let h = (net_in config.ports config.sys host_port container_port (host c s)).1 in
        h.container.resources ≡ r
        → Run config front back s (holding c) (back_to s h) (of_resources r)
        → Run config front back s (holding c) (back_to s h) (holding h.container)
  net_in-ends host_port container_port c s r ends run =
      let h = (net_in config.ports config.sys host_port container_port (host c s)).1 in
      subst (λ r. Run config front back s (holding c) (back_to s h) (of_resources r)) (sym ends) run

  -- A NetIn that is not interrupted is a run of one call among any others that stand still,
  -- however it ends: the container then holds the ports that it has.
  pub net_in-Steps :
      (host_port container_port : ℕ) (c : Container) (s : Pools U N P W)
      → let h = (net_in config.ports config.sys host_port container_port (host c s)).1 in
        Steps config s
          (front ++ holding c ∷ back)
          (back_to s h)
          (front ++ holding h.container ∷ back)
  unfolding net_in choose_host_port add_port
  net_in-Steps host_port container_port c s = elim (Bool-cases (host_port == 0)) [
    | inr given ↦
        net_in-ends host_port container_port c s c.resources (ground (arith, given))
          (Run-same config front back (holding c) (ground (arith, given)))
    | inl asked ↦ elim (Result-cases (config.ports.acquire s.port_pool).0) [
      | inr (e, failed) ↦
          net_in-ends host_port container_port c s c.resources (ground (arith, asked, failed)) (
            Run-step config front back (holding c)
              (in_net_in (no_port c.resources.uid c.resources.network c.resources.ports e s failed))
              (Run-same config front back (holding c) (ground (arith, asked, failed))))
      | inl (port, got) ↦
          (let r = add_port port c.resources in
            net_in-ends host_port container_port c s r (ground (arith, asked, got)) (
              Run-step config front back (of_resources r)
                (in_net_in
                  (takes_port c.resources.uid c.resources.network c.resources.ports port s got))
                (Run-same config front back (of_resources r) (ground (arith, asked, got)))))
    ]
  ]
