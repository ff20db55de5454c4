-- ===== src/Backend/Exclusive/Destroys.antt =====
-- Destroy of linux_backend/linux_backend.go, and what containers hold.
use warden_linux.Backend.Exclusive.{holds_uid, holds_network, holds_port, Inv, PoolsOf}
use warden_linux.Backend.Exclusive.Creates.{no_network}
use warden_linux.Backend.{Backend, lookup, destroy}
use warden_linux.Base.{
  ℕ, ◌+◌, ◌≤◌, ◌≡◌, inl, inr, String, none, some, ok, err, Result-cases, Option-cases, arith,
}
use warden_linux.Container.{Container}
use warden_linux.ContainerPool.Create.Steps.{ConfigLaws, uid_count, network_count}
use warden_linux.ContainerPool.Destroy
use warden_linux.ContainerPool.PortCounts.{port_count}
use warden_linux.ContainerPool.Destroy.Accounting.{IsHeld, destroy_ok, destroy_err, destroy-owns}
use warden_linux.ContainerPool.{Config}
use warden_linux.Dict.Totals.{total, total-delete-find}
use warden_linux.Dict.{Dict, find, delete, find-delete}
use warden_linux.IdPool.Exclusive.{Exclusive-step}
use warden_linux.Network.{Network}
use warden_linux.System.{Error}

named-delete :
    (k : String) (m : Dict Container)
    → ((j : String) (d : Container) → find j m ≡ some d → d.handle ≡ j)
    → (j : String) (d : Container) → find j (delete k m) ≡ some d
    → d.handle ≡ j
named-delete k m named j d found = ground (arith, find-delete k j m, named j d)

module _ {U N P W : Type 0} (config : Config U N P W) (laws : ConfigLaws config) where
  module _ (handle : String) (b : Backend U N P W) (v : Inv config b) where
    abbrev left : Backend U N P W
    left = (destroy config handle b).1

    destroy_unknown : find handle b.containers ≡ none → left ≡ b
    unfolding destroy lookup
    destroy_unknown absent = ground (arith, absent)

    destroy_failed :
        (c : Container) (e : Error)
        → find handle b.containers ≡ some c
        → (Destroy.destroy config c b.pools).0 ≡ err e
        → PoolsOf config (Destroy.destroy config c b.pools).1 left.pools
          × (left.containers ≡ b.containers)
    unfolding destroy lookup
    destroy_failed c e found failed = ground (arith, found, failed)

    destroy_done :
        (c : Container)
        → find handle b.containers ≡ some c
        → (Destroy.destroy config c b.pools).0 ≡ ok tt
        → PoolsOf config (Destroy.destroy config c b.pools).1 left.pools
          × (left.containers ≡ delete handle b.containers)
    unfolding destroy lookup
    destroy_done c found done = ground (arith, found, done, v.named handle c found)

    -- What a container of the table holds is out of the pools.
    held : (c : Container) → find handle b.containers ≡ some c → IsHeld config laws c b.pools
    held c found = record {
      uid_out = ground (
        arith,
        v.uids.once c.resources.uid,
        laws.uids.same_refl c.resources.uid,
        total-delete-find (holds_uid config c.resources.uid) handle c b.containers found,
      );
      uid_owned = v.uids.in_range c.resources.uid (
          ground (
            arith,
            laws.uids.same_refl c.resources.uid,
            total-delete-find (holds_uid config c.resources.uid) handle c b.containers found,
          ));
      network_out = ground (
        arith,
        v.networks.once c.resources.network,
        laws.networks.same_refl c.resources.network,
        total-delete-find (holds_network config c.resources.network) handle c b.containers found,
      );
      network_owned = v.networks.in_range c.resources.network (
          ground (
            arith,
            laws.networks.same_refl c.resources.network,
            total-delete-find (holds_network config c.resources.network) handle c b.containers
                found,
          ));
      ports_out = record {
        once = λ p. ground (
          arith,
          v.ports.once p,
          total-delete-find (holds_port config p) handle c b.containers found,
        );
        in_range = λ p named.
            v.ports.in_range p
              (ground (arith, total-delete-find (holds_port config p) handle c b.containers found));
      };
    }

    destroy-counts :
        (c : Container) (u p : ℕ) (n : Network)
        → find handle b.containers ≡ some c
        → (Destroy.destroy config c b.pools).0 ≡ ok tt
        → (uid_count config u left.pools + total (holds_uid config u) left.containers
            ≤ uid_count config u b.pools + total (holds_uid config u) b.containers)
          × (network_count config n left.pools + total (holds_network config n) left.containers
              ≤ network_count config n b.pools + total (holds_network config n) b.containers)
          × (port_count config p left.pools + total (holds_port config p) left.containers
              ≤ port_count config p b.pools + total (holds_port config p) b.containers)
    destroy-counts c u p n found done = ground (
      arith,
      destroy_done c found done,
      destroy_ok config laws c b.pools u p n (held c found) done,
      total-delete-find (holds_uid config u) handle c b.containers found,
      total-delete-find (holds_network config n) handle c b.containers found,
      total-delete-find (holds_port config p) handle c b.containers found,
    )

    done-Inv :
        (c : Container)
        → find handle b.containers ≡ some c
        → (Destroy.destroy config c b.pools).0 ≡ ok tt
        → Inv config left
    done-Inv c found done = record {
      named = λ k d there.
          named-delete handle b.containers v.named k d (rw (← (destroy_done c found done).1) there);
      uids =
          Exclusive-step config.uids b.pools.uid_pool left.pools.uid_pool _ _ v.uids
            (λ u. ground (
              arith,
              destroy_done c found done,
              destroy-owns config laws c b.pools u 0 no_network done,
            ))
            (λ u. (destroy-counts c u 0 no_network found done).0);
      networks =
          Exclusive-step config.networks b.pools.network_pool left.pools.network_pool _ _ v.networks
            (λ n.
              ground
                (arith, destroy_done c found done, destroy-owns config laws c b.pools 0 0 n done))
            (λ n. (destroy-counts c 0 0 n found done).1);
      ports =
          Exclusive-step config.ports b.pools.port_pool left.pools.port_pool _ _ v.ports
            (λ p. ground (
              arith,
              destroy_done c found done,
              destroy-owns config laws c b.pools 0 p no_network done,
            ))
            (λ p. (destroy-counts c 0 p no_network found done).2);
    }

    failed-Inv :
        (c : Container) (e : Error)
        → find handle b.containers ≡ some c
        → (Destroy.destroy config c b.pools).0 ≡ err e
        → Inv config left
    failed-Inv c e found failed =
        let same = destroy_err config laws c b.pools e failed in
        let after = destroy_failed c e found failed in
        record {
          named = λ k d there. v.named k d (rw (← after.1) there);
          uids =
              Exclusive-step config.uids b.pools.uid_pool left.pools.uid_pool _ _ v.uids
                (λ u. ground (arith, same, after)) (λ u. ground (arith, same, after));
          networks =
              Exclusive-step config.networks b.pools.network_pool left.pools.network_pool _ _
                v.networks (λ n. ground (arith, same, after)) (λ n. ground (arith, same, after));
          ports =
              Exclusive-step config.ports b.pools.port_pool left.pools.port_pool _ _ v.ports
                (λ p. ground (arith, same, after)) (λ p. ground (arith, same, after));
        }

    pub destroy-Inv : Inv config left
    destroy-Inv = elim (Option-cases (find handle b.containers)) [
      | inl absent ↦ rw (destroy_unknown absent) v
      | inr (c, found) ↦ elim (Result-cases (Destroy.destroy config c b.pools).0) [
        | inl (done, gone) ↦ done-Inv c found gone
        | inr (e, failed) ↦ failed-Inv c e found failed
      ]
    ]
