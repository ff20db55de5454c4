-- ===== src/ContainerPool/Interleaved/Kept.antt =====
-- Each step of Create, NetIn and Destroy of container_pool.go and linux_container.go keeps what is
-- free and held, for one call beside the others.
use warden_linux.Base.{ℕ, ◌+◌, refl, [], ◌∷◌, ◌++◌, count, count-append, arith, if◌then◌else◌}
use warden_linux.ContainerPool.Create.Steps.{ConfigLaws}
use warden_linux.ContainerPool.Interleaved.{
  Phase, idle, undoing, without_uid, CreateStep, NetInStep, DestroyStep, undoes_uid, undoes_network,
  takes_uid, takes_network, no_uid, no_port, no_network, refunds_uid, makes, fails, create_sh_fails,
  takes_port, destroys, gives_port, emptied, gives_uid, gives_network,
}
use warden_linux.ContainerPool.{Config, Pools, release_uid, release_network, release_port}
use warden_linux.ContainerPool.Interleaved.Held.{Beside}
use warden_linux.IdPool.Accounted.{Accounted-same, Accounted-acquire, Accounted-release}
use warden_linux.IdPool.Counting.{acquire_err}
use warden_linux.IdPool.{IsSound}
use warden_linux.Network.{Network}

pub record AreSound {U N P W : Type 0} (config : Config U N P W) (s : Pools U N P W) : Type 0 where
  pub uids : IsSound config.uids s.uid_pool
  pub networks : IsSound config.networks s.network_pool
  pub ports : IsSound config.ports s.port_pool

module _ {U N P W : Type 0} (config : Config U N P W) (start : Pools U N P W) where
  module _ (laws : ConfigLaws config) (sound : AreSound config start) (uids : ℕ → ℕ)
      (networks : Network → ℕ) (ports : ℕ → ℕ) where
    undoing-Beside :
        (uid : ℕ) (network : Network) (s : Pools U N P W)
        → Beside config start uids networks ports s (undoing uid network)
        → Beside config start uids networks ports (release_uid config uid s) (without_uid network)
    unfolding release_uid
    undoing-Beside uid network s v = record {
      uids_apart =
          Accounted-same config.uids start.uid_pool (config.uids.release uid s.uid_pool)
            (config.uids.release uid s.uid_pool) uids (λ b. 0 + uids b)
            (Accounted-release config.uids start.uid_pool laws.uids s.uid_pool uid uids sound.uids
              v.uids_apart)
            refl (λ b. omega arith);
      networks_apart = v.networks_apart;
      ports_apart = v.ports_apart;
    }

    without_uid-Beside :
        (network : Network) (s : Pools U N P W)
        → Beside config start uids networks ports s (without_uid network)
        → Beside config start uids networks ports (release_network config network s) idle
    unfolding release_network
    without_uid-Beside network s v = record {
      uids_apart = v.uids_apart;
      networks_apart =
          Accounted-same config.networks start.network_pool
            (config.networks.release network s.network_pool)
            (config.networks.release network s.network_pool) networks (λ b. 0 + networks b)
            (Accounted-release config.networks start.network_pool laws.networks s.network_pool
              network networks sound.networks v.networks_apart)
            refl (λ b. omega arith);
      ports_apart = v.ports_apart;
    }

    pub CreateStep-Beside :
        {s t : Pools U N P W} {ph ph' : Phase}
        → CreateStep config s ph t ph'
        → Beside config start uids networks ports s ph
        → Beside config start uids networks ports t ph'
    unfolding release_uid
    CreateStep-Beside (takes_uid uid s got) v = record {
      uids_apart = Accounted-acquire config.uids start.uid_pool laws.uids s.uid_pool uid uids got (
          Accounted-same config.uids start.uid_pool s.uid_pool s.uid_pool (λ b. 0 + uids b) uids
            v.uids_apart refl (λ b. omega arith));
      networks_apart = v.networks_apart;
      ports_apart = v.ports_apart;
    }
    CreateStep-Beside (no_uid e s failed) v = record {
      uids_apart =
          Accounted-same config.uids start.uid_pool s.uid_pool (config.uids.acquire s.uid_pool).1
            (λ b. 0 + uids b) (λ b. 0 + uids b) v.uids_apart
            (acquire_err config.uids laws.uids s.uid_pool e failed) (λ b. refl);
      networks_apart = v.networks_apart;
      ports_apart = v.ports_apart;
    }
    CreateStep-Beside (takes_network uid network s got) v = record {
      uids_apart = v.uids_apart;
      networks_apart =
          Accounted-acquire config.networks start.network_pool laws.networks s.network_pool network
            networks got
            (Accounted-same config.networks start.network_pool s.network_pool s.network_pool
              (λ b. 0 + networks b) networks v.networks_apart refl (λ b. omega arith));
      ports_apart = v.ports_apart;
    }
    CreateStep-Beside (no_network uid e s failed) v = record {
      uids_apart = v.uids_apart;
      networks_apart =
          Accounted-same config.networks start.network_pool s.network_pool
            (config.networks.acquire s.network_pool).1 (λ b. 0 + networks b) (λ b. 0 + networks b)
            v.networks_apart (acquire_err config.networks laws.networks s.network_pool e failed)
            (λ b. refl);
      ports_apart = v.ports_apart;
    }
    CreateStep-Beside (refunds_uid uid s) v = record {
      uids_apart =
          Accounted-same config.uids start.uid_pool (config.uids.release uid s.uid_pool)
            (config.uids.release uid s.uid_pool) uids (λ b. 0 + uids b)
            (Accounted-release config.uids start.uid_pool laws.uids s.uid_pool uid uids sound.uids
              v.uids_apart)
            refl (λ b. omega arith);
      networks_apart = v.networks_apart;
      ports_apart = v.ports_apart;
    }
    CreateStep-Beside (makes uid network s) v = record {
      uids_apart = v.uids_apart;
      networks_apart = v.networks_apart;
      ports_apart = v.ports_apart;
    }
    CreateStep-Beside (fails uid network s) v = record {
      uids_apart = v.uids_apart;
      networks_apart = v.networks_apart;
      ports_apart = v.ports_apart;
    }
    CreateStep-Beside (create_sh_fails uid network s) v = record {
      uids_apart = v.uids_apart;
      networks_apart = v.networks_apart;
      ports_apart = v.ports_apart;
    }
    CreateStep-Beside (undoes_uid uid network s) v = undoing-Beside uid network s v
    CreateStep-Beside (undoes_network network s) v = without_uid-Beside network s v

    pub NetInStep-Beside :
        {s t : Pools U N P W} {ph ph' : Phase}
        → NetInStep config s ph t ph'
        → Beside config start uids networks ports s ph
        → Beside config start uids networks ports t ph'
    NetInStep-Beside (takes_port uid network held port s got) v = record {
      uids_apart = v.uids_apart;
      networks_apart = v.networks_apart;
      ports_apart =
          Accounted-same config.ports start.port_pool (config.ports.acquire s.port_pool).1
            (config.ports.acquire s.port_pool).1
            (λ b.
              (if config.ports.same port b then 1 else 0)
              + (count config.ports.same b held + ports b))
            (λ b. count config.ports.same b (held ++ port ∷ []) + ports b)
            (Accounted-acquire config.ports start.port_pool laws.ports s.port_pool port
              (λ b. count config.ports.same b held + ports b) got v.ports_apart)
            refl (λ b. ground (arith, count-append config.ports.same b held (port ∷ [])));
    }
    NetInStep-Beside (no_port uid network held e s failed) v = record {
      uids_apart = v.uids_apart;
      networks_apart = v.networks_apart;
      ports_apart =
          Accounted-same config.ports start.port_pool s.port_pool
            (config.ports.acquire s.port_pool).1 (λ b. count config.ports.same b held + ports b)
            (λ b. count config.ports.same b held + ports b) v.ports_apart
            (acquire_err config.ports laws.ports s.port_pool e failed) (λ b. refl);
    }

    pub DestroyStep-Beside :
        {s t : Pools U N P W} {ph ph' : Phase}
        → DestroyStep config s ph t ph'
        → Beside config start uids networks ports s ph
        → Beside config start uids networks ports t ph'
    unfolding release_port
    DestroyStep-Beside (destroys uid network held s) v = record {
      uids_apart = v.uids_apart;
      networks_apart = v.networks_apart;
      ports_apart = v.ports_apart;
    }
    DestroyStep-Beside (gives_port uid network port held s) v = record {
      uids_apart = v.uids_apart;
      networks_apart = v.networks_apart;
      ports_apart =
          Accounted-release config.ports start.port_pool laws.ports s.port_pool port
            (λ b. count config.ports.same b held + ports b) sound.ports
            (Accounted-same config.ports start.port_pool s.port_pool s.port_pool
              (λ b. count config.ports.same b (port ∷ held) + ports b)
              (λ b.
                (if config.ports.same port b then 1 else 0)
                + (count config.ports.same b held + ports b))
              v.ports_apart refl (λ b. ground arith));
    }
    DestroyStep-Beside (emptied uid network s) v = record {
      uids_apart = v.uids_apart;
      networks_apart = v.networks_apart;
      ports_apart = v.ports_apart;
    }
    DestroyStep-Beside (gives_uid uid network s) v = undoing-Beside uid network s v
    DestroyStep-Beside (gives_network network s) v = without_uid-Beside network s v
