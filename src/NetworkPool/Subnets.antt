-- ===== src/NetworkPool/Subnets.antt =====
-- The networks of a new pool, of linux_backend/network_pool/network_pool.go.
use warden_linux.Base.{
  ◌∙◌, ◌≢◌, get_elem?, some, ap, ℕ, zero, suc, ◌+◌, ◌*◌, ◌/◌, ◌%◌, ◌^◌, ◌≤◌, ◌<◌, ◌≡◌, refl, true,
  false, List, [], ◌∷◌, arith, length,
}
use warden_linux.Network.{same_string, IpNet, Network}
use warden_linux.Network.Addresses.{inc_lem, new_lem, same_string_ip}
use warden_linux.NetworkPool.{subnet_30, contains, next_subnet, fill, new, initial_size}

-- The first address after the IPv4 ones.
abbrev pub v4_end : ℕ
v4_end = 2 ^ 48

-- An IPv4 network of whole /30 networks, with its first address at a multiple of its size.
pub record IsV4Block (net : IpNet) : Type 0 where
  pub above : 0xffff * 2 ^ 32 ≤ net.ip
  pub below : net.ip + net.addresses ≤ v4_end
  pub aligned : net.ip % net.addresses ≡ 0
  pub fours : net.addresses % 4 ≡ 0
  pub some_address : 0 < net.addresses
  pub start_fours : net.ip % 4 ≡ 0

-- `n` networks of four addresses, one after the other: the second address of each is the host's,
-- the third the container's.
abbrev pub subnets : ℕ → ℕ → List Network
subnets ip zero = []
subnets ip (suc n) =
    record { ip_net = record { ip = ip; addresses = 4 }; host_ip = ip + 1; container_ip = ip + 2 }
    ∷ subnets (ip + 4) n

div_block : (base ip s : ℕ) → base % s ≡ 0 → base ≤ ip → ip < base + s → ip / s ≡ base / s
div_block base ip s a l h = grind arith

div_next : (base s : ℕ) → base % s ≡ 0 → 0 < s → (base + s) / s ≡ base / s + 1
div_next base s a l = grind arith

-- The next network, while its addresses are IPv4 ones.
next_subnet_lem :
    (ip : ℕ)
    → 0xffff * 2 ^ 32 ≤ ip
    → ip ≤ v4_end
    → next_subnet (record { ip = ip; addresses = 4 }) ≡ subnet_30 (ip + 4)
unfolding next_subnet
next_subnet_lem ip l h =
    ground (arith, inc_lem ip, inc_lem (ip + 1), inc_lem (ip + 2), inc_lem (ip + 3))

subnet_30_lem :
    (ip : ℕ)
    → 0xffff * 2 ^ 32 ≤ ip
    → ip < v4_end
    → ip % 4 ≡ 0
    → subnet_30 ip ≡ record { ip = ip; addresses = 4 }
unfolding subnet_30
subnet_30_lem ip l h a = ground arith

length-subnets : (ip n : ℕ) → length (subnets ip n) ≡ n
length-subnets ip zero = refl
length-subnets ip (suc n) = ap suc (length-subnets (ip + 4) n)

get_elem?-subnets :
    (ip n k : ℕ) (a : Network)
    → get_elem? (subnets ip n) k ≡ some a
    → (k < n)
      × (a.ip_net.ip ≡ ip + 4 * k)
      × (a.host_ip ≡ ip + 4 * k + 1)
      × (a.container_ip ≡ ip + 4 * k + 2)
get_elem?-subnets ip zero k a e = cc
get_elem?-subnets ip (suc n) zero a e = ground arith
get_elem?-subnets ip (suc n) (suc k) a e = ground (arith, get_elem?-subnets (ip + 4) n k a e)

module _ (net : IpNet) (v : IsV4Block net) where
  pub inside : (ip : ℕ) → net.ip ≤ ip → ip < net.ip + net.addresses → contains net ip ≡ true
  unfolding contains
  inside ip l h = ground (arith, v, div_block net.ip ip net.addresses)

  past_end : contains net (subnet_30 (net.ip + net.addresses)).ip ≡ false
  unfolding contains subnet_30
  past_end = ground (arith, v, div_next net.ip net.addresses)

  fill_lem :
      (fuel n ip : ℕ)
      → n < fuel
      → ip + 4 * n ≡ net.ip + net.addresses
      → net.ip ≤ ip
      → ip % 4 ≡ 0
      → fill fuel net (subnet_30 ip) ≡ subnets ip n
  unfolding fill
  fill_lem zero n ip h e l a = absurd (omega arith)
  fill_lem (suc fuel) zero ip h e l a =
      let at_end : ip ≡ net.ip + net.addresses = omega arith in rw (at_end, past_end)
  fill_lem (suc fuel) (suc n) ip h e l a = rw (
    subnet_30_lem ip (omega (arith, v)) (omega (arith, v)) a,
    inside ip l (omega arith),
    new_lem (record { ip = ip; addresses = 4 }) (omega (arith, v)),
    next_subnet_lem ip (omega (arith, v)) (omega (arith, v)),
    fill_lem fuel n (ip + 4) (omega arith) (omega arith) (omega arith) (omega arith),
  )

  -- A new pool over an IPv4 network of whole /30 networks holds exactly these, in order of their
  -- addresses: the k-th starts 4 * k addresses after the first, and its second address is the
  -- host's and its third the container's. No round of the loop is cut off.
  pub pool-new : (new net).pool ≡ subnets net.ip (net.addresses / 4)
  unfolding new
  pool-new =
      fill_lem (suc net.addresses) (net.addresses / 4) net.ip (omega arith) (omega (arith, v))
        (omega arith) v.start_fours

  -- So the number of containers that the networks allow is a quarter of the addresses.
  pub initial_size-new : initial_size (new net) ≡ net.addresses / 4
  unfolding new initial_size
  initial_size-new = ap length pool-new ∙ length-subnets net.ip (net.addresses / 4)

  -- Networks at different places of a new pool have different texts, and no address of a host or of
  -- a container in common; and the two addresses of one network differ and lie in the pool's range.
  pub new-Apart :
      (i j : ℕ) (a b : Network)
      → get_elem? (new net).pool i ≡ some a
      → get_elem? (new net).pool j ≡ some b
      → i ≢ j
      → (same_string a b ≡ false)
        × (a.host_ip ≢ b.host_ip)
        × (a.host_ip ≢ b.container_ip)
        × (a.container_ip ≢ b.container_ip)
        × (a.host_ip ≢ a.container_ip)
        × (net.ip < a.host_ip)
        × (a.container_ip < net.ip + net.addresses)
  new-Apart i j a b p q d = ground (
    arith,
    v,
    same_string_ip a b,
    get_elem?-subnets net.ip (net.addresses / 4) i a (rw (← pool-new) p),
    get_elem?-subnets net.ip (net.addresses / 4) j b (rw (← pool-new) q),
  )
