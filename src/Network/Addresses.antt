-- ===== src/Network/Addresses.antt =====
-- The loop over the bytes of an address, of linux_backend/network/network.go.
use native.Mathlib.Nat.{pow-suc}
use warden_linux.Base.{
  false, ◌≢◌, true, ℕ, zero, suc, ◌+◌, ◌/◌, ◌^◌, ◌<◌, ◌≡◌, ◌==◌, if◌then◌else◌, arith,
}
use warden_linux.Network.{
  Network, same_string, new, IpNet, next_ip, bytes, number, inc_bytes, inc, next_ip, new, IpNet,
}

pub ip_mod : ℕ
ip_mod = 2 ^ 128

number-bytes : (k n : ℕ) → n < 256 ^ k → number (bytes k n) ≡ n
unfolding number bytes
number-bytes zero n h = omega arith
number-bytes (suc k) n h = omega (arith, pow-suc 256 k, number-bytes k (n / 256))

-- A carry out of the first byte leaves zero.
number-inc_bytes :
    (k n : ℕ)
    → n < 256 ^ k
    → number (inc_bytes (bytes k n)) ≡ (if n + 1 == 256 ^ k then 0 else n + 1)
unfolding number bytes inc_bytes
number-inc_bytes zero n h = ground arith
number-inc_bytes (suc k) n h =
    ground (arith, pow-suc 256 k, number-bytes k (n / 256), number-inc_bytes k (n / 256))

pub inc_lem : (ip : ℕ) → ip + 1 < 2 ^ 128 → inc ip ≡ ip + 1
unfolding inc
inc_lem ip h = ground (arith, number-inc_bytes 16 ip)

-- A network's host has the second address of it, its container the third.
pub new_lem :
    (net : IpNet)
    → net.ip + 2 < 2 ^ 128
    → new net ≡ record { ip_net = net; host_ip = net.ip + 1; container_ip = net.ip + 2 }
unfolding new next_ip
new_lem net h = ground (arith, inc_lem net.ip, inc_lem (net.ip + 1))

pub same_string_refl : (n : Network) → same_string n n ≡ true
unfolding same_string
same_string_refl n = ground arith

pub same_string_cong :
    (a b c : Network) → same_string a b ≡ true → same_string a c ≡ same_string b c
unfolding same_string
same_string_cong a b c e = ground arith

pub same_string_ip : (a b : Network) → a.ip_net.ip ≢ b.ip_net.ip → same_string a b ≡ false
unfolding same_string
same_string_ip a b d = ground arith
