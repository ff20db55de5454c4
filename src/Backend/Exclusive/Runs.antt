-- ===== src/Backend/Exclusive/Runs.antt =====
-- Sequences of calls of linux_backend/linux_backend.go, and what containers hold.
use warden_linux.Backend.Exclusive.Creates.{create-Inv, named-put}
use warden_linux.Backend.Exclusive.Destroys.{destroy-Inv}
use warden_linux.Backend.Exclusive.{holds_uid, holds_network, holds_port, Inv}
use warden_linux.Backend.{Backend, create, destroy, new}
use warden_linux.Base.{
  ℕ, ◌≡◌, inl, inr, refl, List, [], ◌∷◌, String, none, some, Option-cases, arith,
}
use warden_linux.Container.Net
use warden_linux.Container.Net.Keeps.{net_in_keeps, net_in-owns}
use warden_linux.Container.Net.Ports.{port_count-net_in}
use warden_linux.Container.{Container, Host}
use warden_linux.ContainerPool.Create.Steps.{ConfigLaws}
use warden_linux.ContainerPool.{Config, Pools, ContainerSpec}
use warden_linux.Dict.Totals.{total-put-find}
use warden_linux.Dict.{find, put}
use warden_linux.IdPool.Exclusive.{Exclusive-step}
use warden_linux.IdPool.{IsSound}

-- The calls that move user ids, networks and ports between the pools and the containers of the
-- table: Create, Destroy, and NetIn of the container with a handle.
pub data Call : Type 0 where
  creates : ContainerSpec → Call
  destroys : String → Call
  maps : String → ℕ → ℕ → Call

module _ {U N P W : Type 0} (config : Config U N P W) where
  abbrev host_of : Backend U N P W → Container → Host P W
  host_of b c = record { container = c; port_pool = b.pools.port_pool; world = b.pools.world }

  -- The container that the table holds is changed in place.
  pub map_port : String → ℕ → ℕ → Backend U N P W → Backend U N P W
  map_port handle host_port container_port b = elim (find handle b.containers) [
    | none ↦ b
    | some c ↦
        (let h = (Net.net_in config.ports config.sys host_port container_port (host_of b c)).1 in
          record b {
            containers = put handle h.container b.containers;
            pools = record b.pools { port_pool = h.port_pool; world = h.world };
          })
  ]

  pub step : Backend U N P W → Call → Backend U N P W
  step b (creates spec) = (create config spec b).1
  step b (destroys handle) = (destroy config handle b).1
  step b (maps handle host_port container_port) = map_port handle host_port container_port b

  pub run : Backend U N P W → List Call → Backend U N P W
  unfolding step map_port
  run b [] = b
  run b (c ∷ cs) = run (step b c) cs

  module _ (laws : ConfigLaws config) where
    mapped-Inv :
        (handle : String) (host_port container_port : ℕ) (b : Backend U N P W) (c : Container)
        → Inv config b
        → find handle b.containers ≡ some c
        → Inv config (map_port handle host_port container_port b)
    unfolding map_port
    mapped-Inv handle host_port container_port b c v found =
        let h : Host P W =
          (Net.net_in config.ports config.sys host_port container_port (host_of b c)).1 in
        let kept = net_in_keeps config.ports config.sys host_port container_port (host_of b c) in
        rw (found, map_port)
          (record {
            named =
                named-put handle h.container b.containers v.named
                  (ground (arith, kept, v.named handle c found));
            uids =
                Exclusive-step config.uids b.pools.uid_pool b.pools.uid_pool _ _ v.uids (λ u. refl)
                  (λ u. ground (
                    arith,
                    kept,
                    total-put-find (holds_uid config u) handle h.container c b.containers found,
                  ));
            networks =
                Exclusive-step config.networks b.pools.network_pool b.pools.network_pool _ _
                  v.networks (λ n. refl)
                  (λ n. ground (
                    arith,
                    kept,
                    total-put-find (holds_network config n) handle h.container c b.containers found,
                  ));
            ports =
                Exclusive-step config.ports b.pools.port_pool h.port_pool _ _ v.ports
                  (λ p.
                    net_in-owns config.ports config.sys laws.ports host_port container_port p
                      (host_of b c))
                  (λ p. ground (
                    arith,
                    port_count-net_in config.ports config.sys laws.ports p host_port container_port
                        (host_of b c),
                    total-put-find (holds_port config p) handle h.container c b.containers found,
                  ));
          })

    unmapped :
        (handle : String) (host_port container_port : ℕ) (b : Backend U N P W)
        → find handle b.containers ≡ none
        → map_port handle host_port container_port b ≡ b
    unfolding map_port
    unmapped handle host_port container_port b absent = ground (arith, absent)

    step-Inv : (b : Backend U N P W) (c : Call) → Inv config b → Inv config (step b c)
    unfolding step
    step-Inv b (creates spec) v = create-Inv config laws spec b v
    step-Inv b (destroys handle) v = destroy-Inv config laws handle b v
    step-Inv b (maps handle host_port container_port) v =
        elim (Option-cases (find handle b.containers)) [
          | inl absent ↦ rw (unmapped handle host_port container_port b absent) v
          | inr (c, found) ↦ mapped-Inv handle host_port container_port b c v found
        ]

    run-Inv : (b : Backend U N P W) (cs : List Call) → Inv config b → Inv config (run b cs)
    unfolding run
    run-Inv b [] v = v
    run-Inv b (c ∷ cs) v = run-Inv (step b c) cs (step-Inv b c v)

    pub new-Inv :
        (pools : Pools U N P W)
        → IsSound config.uids pools.uid_pool
        → IsSound config.networks pools.network_pool
        → IsSound config.ports pools.port_pool
        → Inv config (new pools)
    unfolding new find
    new-Inv pools uids networks ports = record {
      named = λ k c found. ground (arith, found);
      uids = record {
        once = λ u. ground (arith, uids.once u);
        in_range = λ u free. uids.in_range u (ground arith);
      };
      networks = record {
        once = λ n. ground (arith, networks.once n);
        in_range = λ n free. networks.in_range n (ground arith);
      };
      ports = record {
        once = λ p. ground (arith, ports.once p);
        in_range = λ p free. ports.in_range p (ground arith);
      };
    }

    -- However the calls of Create, Destroy and NetIn follow each other, and whichever of them fail:
    -- no two containers of the table have the same user id, network or host port from the pools, no
    -- container has one that is free, nothing is free twice, and each container stands under its
    -- handle. This is so for pools that keep the laws of a pool, and in which nothing is free twice
    -- or out of range at the beginning.
    pub run-new-Exclusive :
        (pools : Pools U N P W) (cs : List Call)
        → IsSound config.uids pools.uid_pool
        → IsSound config.networks pools.network_pool
        → IsSound config.ports pools.port_pool
        → Inv config (run (new pools) cs)
    run-new-Exclusive pools cs uids networks ports =
        run-Inv (new pools) cs (new-Inv pools uids networks ports)
