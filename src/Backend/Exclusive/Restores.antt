-- ===== src/Backend/Exclusive/Restores.antt =====
-- Restore of linux_backend/linux_backend.go, and what containers hold.
pub mod Examples
use warden_linux.Backend.Exclusive.Creates.{named-put}
use warden_linux.Backend.Exclusive.{holds_uid, holds_network, holds_port, Inv}
use warden_linux.Backend.Snapshots as Saved
use warden_linux.Backend.{Backend, register}
use warden_linux.Base.{
  ℕ, ◌+◌, ◌≤◌, ◌≡◌, refl, inl, inr, String, Result, ok, err, Result-cases, arith,
}
use warden_linux.Container.{Container}
use warden_linux.ContainerPool.Create.Steps.{ConfigLaws}
use warden_linux.ContainerPool.Restore
use warden_linux.ContainerPool.Restore.Holds.{TakesOut, restore-TakesOut}
use warden_linux.ContainerPool.{Config, Pools}
use warden_linux.Dict.Totals.{total, total-put}
use warden_linux.Dict.{put}
use warden_linux.IdPool.Exclusive.{Exclusive-step}
use warden_linux.Network.{Network}
use warden_linux.System.{Error}

module _ {U N P W : Type 0} (config : Config U N P W) (snapshots_path : String) where
  restore-registers :
      (text : String) (b : Backend U N P W) (c : Container)
      → (Saved.restore config snapshots_path text b).0 ≡ ok c
      → ((Restore.restore config text b.pools).0 ≡ ok c)
        × (Saved.restore config snapshots_path text b ≡ (
          ok c,
          record b {
            containers = put c.handle c b.containers;
            pools = (Restore.restore config text b.pools).1;
          },
        ))
  unfolding Saved.restore register
  restore-registers text b c done = elim (Result-cases (Restore.restore config text b.pools).0) [
    | inl (d, made) ↦ ground (arith, made)
    | inr (e, failed) ↦ absurd (ground (arith, failed))
  ]

  -- A Restore that succeeds keeps what containers hold apart: if no user id, network or port was free
  -- twice, held twice, or both free and held before, then so it is with the restored container in the
  -- table, also where it takes the place of another of its handle.
  pub restore-Inv :
      (laws : ConfigLaws config) (text : String) (b : Backend U N P W) (c : Container)
      → Inv config b
      → (Saved.restore config snapshots_path text b).0 ≡ ok c
      → Inv config (Saved.restore config snapshots_path text b).1
  restore-Inv laws text b c v done =
      let (made, after) = restore-registers text b c done in
      let pooled = (Restore.restore config text b.pools).1 in
      let out = restore-TakesOut config laws text b.pools c made in
      rw (after) (record {
        named = named-put c.handle c b.containers v.named refl;
        uids =
            Exclusive-step config.uids b.pools.uid_pool pooled.uid_pool _ _ v.uids out.uid_range
              (λ u.
                omega
                  (arith, out.uid_out u, total-put (holds_uid config u) c.handle c b.containers));
        networks =
            Exclusive-step config.networks b.pools.network_pool pooled.network_pool _ _ v.networks
              out.network_range
              (λ n. omega (
                arith,
                out.network_out n,
                total-put (holds_network config n) c.handle c b.containers,
              ));
        ports =
            Exclusive-step config.ports b.pools.port_pool pooled.port_pool _ _ v.ports
              out.port_range
              (λ p.
                omega
                  (arith, out.port_out p, total-put (holds_port config p) c.handle c b.containers));
      })
