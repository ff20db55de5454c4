-- ===== src/Backend/Exclusive/Creates.antt =====
-- Create of linux_backend/linux_backend.go, and what containers hold.
use warden_linux.Backend.Exclusive.{holds_uid, holds_network, holds_port, Inv, create-cases}
use warden_linux.Backend.{Backend, create}
use warden_linux.Base.{ℕ, ◌+◌, ◌≤◌, ◌≡◌, inl, inr, refl, String, some, arith}
use warden_linux.Container.{Container}
use warden_linux.ContainerPool.Create
use warden_linux.ContainerPool.Create.Bounds.{create_le, uid_held_by, network_held_by}
use warden_linux.ContainerPool.Create.Ranges.{create-owns, create-port_pool}
use warden_linux.ContainerPool.Create.Accounting.{create_ok}
use warden_linux.ContainerPool.Create.Steps.{ConfigLaws, uid_count, network_count}
use warden_linux.ContainerPool.PortCounts.{port_count}
use warden_linux.ContainerPool.{Config, Pools, ContainerSpec}
use warden_linux.Dict.Totals.{total, total-put}
use warden_linux.Dict.{Dict, find, put, find-put}
use warden_linux.IdPool.Exclusive.{Exclusive-step, Exclusive-IsSound}
use warden_linux.Network.{Network}
use text.Mathlib.TextEquality.{eq_iff}

pub named-put :
    (k : String) (c : Container) (m : Dict Container)
    → ((j : String) (d : Container) → find j m ≡ some d → d.handle ≡ j)
    → c.handle ≡ k
    → (j : String) (d : Container) → find j (put k c m) ≡ some d
    → d.handle ≡ j
named-put k c m named e j d found = ground (arith, find-put k j c m, eq_iff k j, named j d)

abbrev pub no_network : Network
no_network = record { ip_net = record { ip = 0; addresses = 0 }; host_ip = 0; container_ip = 0 }

-- A sum over the table, after a container was put into it.
total-Registers :
    (f : Container → ℕ) (m n : Dict Container) (d : Container)
    → n ≡ put d.handle d m
    → total f n ≤ f d + total f m
total-Registers f m n d e = rw e (total-put f d.handle d m)

module _ {U N P W : Type 0} (config : Config U N P W) (laws : ConfigLaws config) where
  module _ (spec : ContainerSpec) (b : Backend U N P W) (v : Inv config b) where
    abbrev pooled : Pools U N P W
    pooled = (Create.create config spec b.pools).1

    abbrev after : Backend U N P W
    after = (create config spec b).1

    pools_le :
        (u : ℕ) (n : Network)
        → let r = (Create.create config spec b.pools).0 in
          (uid_count config u pooled + uid_held_by config r u ≤ uid_count config u b.pools)
          × (network_count config n pooled + network_held_by config r n
              ≤ network_count config n b.pools)
    pools_le u n =
        create_le config laws spec b.pools u n
          (Exclusive-IsSound config.uids b.pools.uid_pool _ v.uids)
          (Exclusive-IsSound config.networks b.pools.network_pool _ v.networks)

    create-uids :
        (u : ℕ)
        → uid_count config u after.pools + total (holds_uid config u) after.containers
          ≤ uid_count config u b.pools + total (holds_uid config u) b.containers
    create-uids u = elim (create-cases config spec b).1 [
      | inl kept ↦ ground (arith, (create-cases config spec b).0, kept, pools_le u no_network)
      | inr (c, d, made, holds, put_in) ↦ ground (
        arith,
        (create-cases config spec b).0,
        made,
        holds,
        pools_le u no_network,
        total-Registers (holds_uid config u) b.containers after.containers d put_in,
      )
    ]

    create-networks :
        (n : Network)
        → network_count config n after.pools + total (holds_network config n) after.containers
          ≤ network_count config n b.pools + total (holds_network config n) b.containers
    create-networks n = elim (create-cases config spec b).1 [
      | inl kept ↦ ground (arith, (create-cases config spec b).0, kept, pools_le 0 n)
      | inr (c, d, made, holds, put_in) ↦ ground (
        arith,
        (create-cases config spec b).0,
        made,
        holds,
        pools_le 0 n,
        total-Registers (holds_network config n) b.containers after.containers d put_in,
      )
    ]

    create-ports :
        (p : ℕ)
        → port_count config p after.pools + total (holds_port config p) after.containers
          ≤ port_count config p b.pools + total (holds_port config p) b.containers
    create-ports p = elim (create-cases config spec b).1 [
      | inl kept ↦
          ground (arith, (create-cases config spec b).0, kept, create-port_pool config spec b.pools)
      | inr (c, d, made, holds, put_in) ↦ ground (
        arith,
        (create-cases config spec b).0,
        made,
        holds,
        create_ok config laws spec b.pools c made,
        total-Registers (holds_port config p) b.containers after.containers d put_in,
      )
    ]

    create-named : (k : String) (c : Container) → find k after.containers ≡ some c → c.handle ≡ k
    create-named k c found = elim (create-cases config spec b).1 [
      | inl kept ↦ v.named k c (rw (← kept) found)
      | inr (made, d, ok_made, holds, put_in) ↦
          named-put d.handle d b.containers v.named refl k c (rw (← put_in) found)
    ]

    pub create-Inv : Inv config after
    create-Inv = record {
      named = create-named;
      uids =
          Exclusive-step config.uids b.pools.uid_pool after.pools.uid_pool _ _ v.uids
            (λ u. ground (
              arith,
              (create-cases config spec b).0,
              create-owns config spec b.pools laws u no_network,
            ))
            create-uids;
      networks =
          Exclusive-step config.networks b.pools.network_pool after.pools.network_pool _ _
            v.networks
            (λ n.
              ground
                (arith, (create-cases config spec b).0, create-owns config spec b.pools laws 0 n))
            create-networks;
      ports =
          Exclusive-step config.ports b.pools.port_pool after.pools.port_pool _ _ v.ports
            (λ p.
              ground (arith, (create-cases config spec b).0, create-port_pool config spec b.pools))
            create-ports;
    }
