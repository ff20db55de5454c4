-- ===== src/NetworkPool.antt =====
-- linux_backend/network_pool/network_pool.go: the pool of /30 networks, one for each container.
-- Each method holds the pool's mutex for its whole body, so a call is one step on the state.
pub mod Examples
pub mod Laws
pub mod Subnets
pub mod Sound
use warden_linux.Base.{
  ℕ, zero, suc, ◌+◌, ◌-◌, ◌/◌, ◌%◌, ◌^◌, Bool, false, not, Option, none, some, List, [], ◌∷◌, ◌++◌,
  ◌==◌, if◌then◌else◌, length, cut, Result, ok, err, Exec,
}
use warden_linux.Network
use warden_linux.Network.{IpNet, Network, inc, same_string}

pub record NetworkPool : Type 0 where
  pub ip_net : IpNet
  pub pool : List Network
  pub initial_pool_size : ℕ

pub data NetworkError : Type 0 where
  pool_exhausted : NetworkError
  network_taken : Network → NetworkError

-- `ip.To4() != nil`
pub is_v4 : ℕ → Bool
is_v4 ip = ip / 2 ^ 32 == 0xffff

-- The network that `net.ParseCIDR(ip.String() + "/30")` returns: the mask has 30 of 32 bits for an
-- IPv4 address, and 30 of 128 for another.
pub subnet_30 : ℕ → IpNet
unfolding is_v4
subnet_30 ip =
    if is_v4 ip
    then record { ip = ip - ip % 4; addresses = 4 }
    else record { ip = ip - ip % 2 ^ 98; addresses = 2 ^ 98 }

-- net.IPNet's `Contains`: an address of the other family is never contained.
pub contains : IpNet → ℕ → Bool
unfolding is_v4
contains net ip =
    if (if is_v4 net.ip then is_v4 ip else not (is_v4 ip))
    then ip / net.addresses == net.ip / net.addresses
    else false

pub next_subnet : IpNet → IpNet
unfolding subnet_30
next_subnet net = subnet_30 (inc (inc (inc (inc net.ip))))

-- `for subnet := startNet; ipNet.Contains(subnet.IP); subnet = nextSubnet(subnet)`, on fuel.
pub fill : ℕ → IpNet → IpNet → List Network
unfolding contains next_subnet
fill zero net subnet = []
fill (suc fuel) net subnet =
    let rest = Network.new subnet ∷ fill fuel net (next_subnet subnet) in
    if contains net subnet.ip then rest else []

-- Each round takes another address of the network, so their number bounds the rounds.
pub new : IpNet → NetworkPool
unfolding fill subnet_30
new net = record { ip_net = net; pool = pool; initial_pool_size = length pool }
  where
    pool : List Network
    pool = fill (suc net.addresses) net (subnet_30 net.ip)

unfoldable pub acquire : Exec NetworkPool NetworkError Network
acquire p = elim p.pool [
  | [] ↦ (err pool_exhausted, p)
  | acquired ∷ rest ↦ (ok acquired, record p { pool = rest })
]

unfoldable pub remove : Network → Exec NetworkPool NetworkError (Unit {0})
remove network p = elim (cut same_string network p.pool) [
  | none ↦ (err (network_taken network), p)
  | some rest ↦ (ok tt, record p { pool = rest })
]

unfoldable pub release : Network → NetworkPool → NetworkPool
release network p =
    if contains p.ip_net network.ip_net.ip then record p { pool = p.pool ++ network ∷ [] } else p

pub initial_size : NetworkPool → ℕ
initial_size p = p.initial_pool_size
