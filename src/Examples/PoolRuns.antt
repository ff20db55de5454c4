-- ===== src/Examples/PoolRuns.antt =====
-- The theorems on pools at concrete values.
use warden_linux.Base.{◌≡◌, refl, ◌≢◌, ◌<◌, ◌+◌, [], ◌∷◌, false, some, get_elem?, arith}
use warden_linux.Examples.{block, network_at}
use warden_linux.Network.{same_string}
use warden_linux.NetworkPool
use warden_linux.NetworkPool.Subnets.{IsV4Block, pool-new, new-Apart, subnets}
use warden_linux.PortPool
use warden_linux.PortPool.Invariant.{Inv, run, acquires, removes, releases, run-new-Inv}

pub block-IsV4Block : IsV4Block block
block-IsV4Block = record {
  above = omega arith;
  below = omega arith;
  aligned = refl;
  fours = refl;
  some_address = omega arith;
  start_fours = refl;
}

pool-new_example : (NetworkPool.new block).pool ≡ subnets block.ip 4
pool-new_example = pool-new block block-IsV4Block

second : get_elem? (NetworkPool.new block).pool 1 ≡ some (network_at 1)
second = rw (pool-new block block-IsV4Block) refl

fourth : get_elem? (NetworkPool.new block).pool 3 ≡ some (network_at 3)
fourth = rw (pool-new block block-IsV4Block) refl

new-Apart_example :
    (same_string (network_at 1) (network_at 3) ≡ false)
    × ((network_at 1).host_ip ≢ (network_at 3).host_ip)
    × ((network_at 1).host_ip ≢ (network_at 3).container_ip)
    × ((network_at 1).container_ip ≢ (network_at 3).container_ip)
    × ((network_at 1).host_ip ≢ (network_at 1).container_ip)
    × (block.ip < (network_at 1).host_ip)
    × ((network_at 1).container_ip < block.ip + 16)
new-Apart_example =
    new-Apart block block-IsV4Block 1 3 (network_at 1) (network_at 3) second fourth (omega arith)

run-new-Inv_example :
    Inv
      (run (PortPool.new 61000 3) (acquires ∷ removes 61002 ∷ releases 61000 ∷ releases 61000 ∷ []))
run-new-Inv_example =
    run-new-Inv 61000 3 (acquires ∷ removes 61002 ∷ releases 61000 ∷ releases 61000 ∷ [])
