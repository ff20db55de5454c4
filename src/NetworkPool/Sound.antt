-- ===== src/NetworkPool/Sound.antt =====
-- A new pool of linux_backend/network_pool/network_pool.go holds no network twice.
use warden_linux.Base.{ℕ, zero, suc, ◌+◌, ◌*◌, ◌/◌, ◌≤◌, ◌<◌, ◌≡◌, count, arith}
use warden_linux.IdPool.{IsSound}
use warden_linux.Network.{IpNet, Network, same_string}
use warden_linux.NetworkPool.Laws.{network_pool}
use warden_linux.NetworkPool.Subnets.{IsV4Block, subnets, pool-new, inside}
use warden_linux.NetworkPool.{new}

count-before : (ip n : ℕ) (a : Network) → a.ip_net.ip < ip → count same_string a (subnets ip n) ≡ 0
unfolding same_string
count-before ip zero a h = omega arith
count-before ip (suc n) a h = ground (arith, count-before (ip + 4) n a)

count-subnets : (ip n : ℕ) (a : Network) → count same_string a (subnets ip n) ≤ 1
unfolding same_string
count-subnets ip zero a = omega arith
count-subnets ip (suc n) a = ground (arith, count-before (ip + 4) n a, count-subnets (ip + 4) n a)

count-within :
    (ip n : ℕ) (a : Network)
    → 0 < count same_string a (subnets ip n)
    → (ip ≤ a.ip_net.ip) × (a.ip_net.ip < ip + 4 * n)
unfolding same_string
count-within ip zero a h = absurd (omega arith)
count-within ip (suc n) a h = ground (arith, count-within (ip + 4) n a)

pub new-IsSound : (net : IpNet) → IsV4Block net → IsSound network_pool (new net)
unfolding new
new-IsSound net v = record {
  once = λ a. rw (pool-new net v) (count-subnets net.ip (net.addresses / 4) a);
  in_range = λ a free.
      let w = count-within net.ip (net.addresses / 4) a (rw (pool-new net v) at free) in
      inside net v a.ip_net.ip w.0 (omega (arith, w.1, v.fours));
}
