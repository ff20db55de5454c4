-- ===== src/Network.antt =====
-- linux_backend/network/network.go. An address is the number that its 16 bytes stand for, most
-- significant byte first; Go keeps an IPv4 address a in them as 0xffff * 2^32 + a. A network is its
-- first address and the number of its addresses, which stands for the mask.
pub mod Addresses
use warden_linux.Base.{
  ℕ, zero, suc, ◌+◌, ◌*◌, ◌/◌, ◌%◌, ◌^◌, Bool, ◌&&◌, List, [], ◌∷◌, ltb, ◌==◌, if◌then◌else◌,
}

-- net.IPNet
pub record IpNet : Type 0 where
  pub ip : ℕ
  pub addresses : ℕ

pub record Network : Type 0 where
  pub ip_net : IpNet
  pub host_ip : ℕ
  pub container_ip : ℕ

-- The last `k` bytes of an address, the last one first.
pub bytes : ℕ → ℕ → List ℕ
bytes zero n = []
bytes (suc k) n = (n % 256) ∷ bytes k (n / 256)

pub number : List ℕ → ℕ
number [] = 0
number (b ∷ bs) = b + 256 * number bs

-- `for j := len(ip) - 1; j >= 0; j-- { ip[j]++; if ip[j] > 0 { break } }`, from the last byte on.
pub inc_bytes : List ℕ → List ℕ
inc_bytes [] = []
inc_bytes (b ∷ bs) =
    let next = (b + 1) % 256 in if ltb 0 next then next ∷ bs else next ∷ inc_bytes bs

pub inc : ℕ → ℕ
unfolding bytes number inc_bytes
inc ip = number (inc_bytes (bytes 16 ip))

-- The address is copied by way of its text, then incremented.
pub next_ip : ℕ → ℕ
next_ip ip = inc ip

pub new : IpNet → Network
unfolding next_ip
new ip_net = record {
  ip_net = ip_net;
  host_ip = next_ip ip_net.ip;
  container_ip = next_ip (next_ip ip_net.ip);
}

-- `n.String() == m.String()`: the text shows the first address and the mask, and nothing else.
unfoldable pub same_string : Network → Network → Bool
same_string n m = n.ip_net.ip == m.ip_net.ip && n.ip_net.addresses == m.ip_net.addresses
