-- ===== src/ContainerPool/Interleaved/Exclusion.antt =====
-- The calls of container_pool.go that run at the same time hold nothing twice, and nothing gets lost
-- but what a failed call keeps.
use mathlib.Core.Path.{subst}
use warden_linux.Base.{ℕ, ◌+◌, ◌≤◌, ◌≡◌, refl, sym, List, ◌++◌, arith}
use warden_linux.ContainerPool.Create.Steps.{ConfigLaws, uid_count, network_count}
use warden_linux.ContainerPool.PortCounts.{port_count}
use warden_linux.ContainerPool.Interleaved.Kept.{
  AreSound, CreateStep-Beside, NetInStep-Beside, DestroyStep-Beside,
}
use warden_linux.ContainerPool.Interleaved.{
  Phase, Local, in_create, in_net_in, in_destroy, works, not_started, Step, one, Steps, here, next,
  idles,
}
use warden_linux.ContainerPool.{Config, Pools}
use warden_linux.ContainerPool.Interleaved.Held.{
  total, holds_uid, holds_network, holds_port, Inv, idles-Inv, Beside, Inv-Beside, Beside-Inv,
}
use warden_linux.IdPool.Accounted.{Accounted-same}
use warden_linux.Network.{Network}

module _ {U N P W : Type 0} (config : Config U N P W) (start : Pools U N P W) where
  module _ (laws : ConfigLaws config) (sound : AreSound config start) (uids : ℕ → ℕ)
      (networks : Network → ℕ) (ports : ℕ → ℕ) where
    Local-Beside :
        {s t : Pools U N P W} {ph ph' : Phase}
        → Local config s ph t ph'
        → Beside config start uids networks ports s ph
        → Beside config start uids networks ports t ph'
    Local-Beside (in_create step) v =
        CreateStep-Beside config start laws sound uids networks ports step v
    Local-Beside (in_net_in step) v =
        NetInStep-Beside config start laws sound uids networks ports step v
    Local-Beside (in_destroy step) v =
        DestroyStep-Beside config start laws sound uids networks ports step v
    Local-Beside (not_started uid network held s) v = record {
      uids_apart = v.uids_apart;
      networks_apart = v.networks_apart;
      ports_apart = v.ports_apart;
    }
    Local-Beside (works ph s t u n p) v = record {
      uids_apart =
          Accounted-same config.uids start.uid_pool s.uid_pool t.uid_pool
            (λ b. holds_uid config b ph + uids b) (λ b. holds_uid config b ph + uids b) v.uids_apart
            u (λ b. refl);
      networks_apart =
          Accounted-same config.networks start.network_pool s.network_pool t.network_pool
            (λ b. holds_network config b ph + networks b)
            (λ b. holds_network config b ph + networks b) v.networks_apart n (λ b. refl);
      ports_apart =
          Accounted-same config.ports start.port_pool s.port_pool t.port_pool
            (λ b. holds_port config b ph + ports b) (λ b. holds_port config b ph + ports b)
            v.ports_apart p (λ b. refl);
    }

  module _ (laws : ConfigLaws config) (sound : AreSound config start) where
    Step-Inv :
        {s t : Pools U N P W} {before after : List Phase}
        → Step config s before t after
        → Inv config start s before
        → Inv config start t after
    Step-Inv {s} {t} (one {ph} {ph'} front back e e' local) v =
        subst (Inv config start t) (sym e') (
          Beside-Inv config start front back ph' t (
            Local-Beside laws sound (λ u. total (holds_uid config u) (front ++ back))
              (λ n. total (holds_network config n) (front ++ back))
              (λ p. total (holds_port config p) (front ++ back)) local
              (Inv-Beside config start front back ph s (subst (Inv config start s) e v))))

    pub Steps-Inv :
        {s t : Pools U N P W} {before after : List Phase}
        → Steps config s before t after
        → Inv config start s before
        → Inv config start t after
    Steps-Inv here v = v
    Steps-Inv (next step steps) v = Steps-Inv steps (Step-Inv step v)

  -- Calls of Create for any number of containers run at the same time, from sound pools, and for each
  -- container that was made calls of NetIn and then one of Destroy follow, one after the other for
  -- the same container and at the same time for different ones. At each moment every user id, network
  -- and port is free or held by the calls and containers as often as it was free at the start, and at
  -- most one of them holds it, once. Two calls of Destroy, or NetIn and Destroy, at the same time for
  -- one container are not among these runs.
  pub Steps-apart :
      (laws : ConfigLaws config) (n : ℕ) (t : Pools U N P W) (calls : List Phase)
      → AreSound config start
      → Steps config start (idles n) t calls
      → ((uid : ℕ)
          → (uid_count config uid t + total (holds_uid config uid) calls
              ≡ uid_count config uid start)
            × (total (holds_uid config uid) calls ≤ 1))
        × ((network : Network)
            → (network_count config network t + total (holds_network config network) calls
                ≡ network_count config network start)
              × (total (holds_network config network) calls ≤ 1))
        × ((port : ℕ)
            → (port_count config port t + total (holds_port config port) calls
                ≡ port_count config port start)
              × (total (holds_port config port) calls ≤ 1))
  Steps-apart laws n t calls sound steps =
      let v = Steps-Inv laws sound steps (idles-Inv config start n) in
      (
        λ u. (v.uids.accounted u, omega (arith, v.uids.accounted u, sound.uids.once u)),
        λ b. (v.networks.accounted b, omega (arith, v.networks.accounted b, sound.networks.once b)),
        λ p. (v.ports.accounted p, omega (arith, v.ports.accounted p, sound.ports.once p)),
      )
