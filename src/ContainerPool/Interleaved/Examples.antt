-- ===== src/ContainerPool/Interleaved/Examples.antt =====
-- The theorem on calls that run at the same time, at two calls of Create and one network.
use warden_linux.Base.{ℕ, ◌+◌, ◌≤◌, ◌≡◌, arith, refl, [], ◌∷◌, ok}
use warden_linux.ContainerPool.Create.Examples.{free, good}
use warden_linux.ContainerPool.Create.Steps.{uid_count, network_count}
use warden_linux.ContainerPool.Interleaved.Exclusion.{Steps-apart}
use warden_linux.ContainerPool.Interleaved.Kept.{AreSound}
use warden_linux.ContainerPool.Interleaved.Held.{total, holds_uid, holds_network, holds_port}
use warden_linux.ContainerPool.Interleaved.{
  in_create, idle, with_uid, making, takes_uid, takes_network, no_network, refunds_uid, one, Steps,
  here, next, idles,
}
use warden_linux.ContainerPool.PortCounts.{port_count}
use warden_linux.ContainerPool.{Pools, in_uid_pool, in_network_pool, release_uid}
use warden_linux.Examples.{config-ConfigLaws, network_at}
use warden_linux.Network.{Network}
use warden_linux.NetworkPool.Examples.{one_left-IsSound}
use warden_linux.NetworkPool.{NetworkError, NetworkPool}
use warden_linux.NetworkPool
use warden_linux.PortPool.{PortPool}
use warden_linux.UidPool.Examples.{two_left-IsSound}
use warden_linux.UidPool.{UidPool}
use warden_linux.UidPool

abbrev one_taken : Pools UidPool NetworkPool PortPool (Unit {0})
one_taken = (in_uid_pool good.uids.acquire free).1

abbrev both_taken : Pools UidPool NetworkPool PortPool (Unit {0})
both_taken = (in_uid_pool good.uids.acquire one_taken).1

abbrev none_left : Pools UidPool NetworkPool PortPool (Unit {0})
none_left = (in_network_pool good.networks.acquire both_taken).1

abbrev refused_one : Pools UidPool NetworkPool PortPool (Unit {0})
refused_one = (in_network_pool good.networks.acquire none_left).1

-- Both calls have a user id when the second takes the network; the first then gives its id back.
raced :
    Steps good free
      (idles 2)
      (release_uid good 10 refused_one)
      (idle ∷ making 11 (network_at 0) ∷ [])
unfolding UidPool.acquire NetworkPool.acquire
raced = next (one [] (idle ∷ []) refl refl (in_create (takes_uid 10 free refl))) (
    next (one (with_uid 10 ∷ []) [] refl refl (in_create (takes_uid 11 one_taken refl))) (
      next
        (one (with_uid 10 ∷ []) [] refl refl
          (in_create (takes_network 11 (network_at 0) both_taken refl)))
        (next
          (one [] (making 11 (network_at 0) ∷ []) refl refl
            (in_create (no_network 10 NetworkError.pool_exhausted none_left refl)))
          (next
            (one [] (making 11 (network_at 0) ∷ []) refl refl
              (in_create (refunds_uid 10 refused_one)))
            here))))

free-AreSound : AreSound good free
free-AreSound = record {
  uids = two_left-IsSound;
  networks = one_left-IsSound;
  ports = record { once = λ p. ground arith; in_range = λ p free. ground arith };
}

Steps-apart_example :
    let t = release_uid good 10 refused_one in
    let calls = idle ∷ making 11 (network_at 0) ∷ [] in
    ((uid : ℕ)
      → (uid_count good uid t + total (holds_uid good uid) calls ≡ uid_count good uid free)
        × (total (holds_uid good uid) calls ≤ 1))
    × ((network : Network)
        → (network_count good network t + total (holds_network good network) calls
            ≡ network_count good network free)
          × (total (holds_network good network) calls ≤ 1))
    × ((port : ℕ)
        → (port_count good port t + total (holds_port good port) calls ≡ port_count good port free)
          × (total (holds_port good port) calls ≤ 1))
Steps-apart_example =
    Steps-apart good free (config-ConfigLaws (ok tt) (ok "/rootfs")) 2
      (release_uid good 10 refused_one) (idle ∷ making 11 (network_at 0) ∷ []) free-AreSound raced
