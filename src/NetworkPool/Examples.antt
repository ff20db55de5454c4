-- ===== src/NetworkPool/Examples.antt =====
-- A small pool of networks in which nothing is free twice.
use warden_linux.Base.{◌≡◌, refl, true, false, arith, [], ◌∷◌}
use warden_linux.Examples.{block, network_at, networks_left}
use warden_linux.IdPool.{IsSound}
use warden_linux.Network.{same_string}
use warden_linux.Network.Addresses.{same_string_ip}
use warden_linux.NetworkPool.Laws.{network_pool}
use warden_linux.NetworkPool.{contains}

pub one_left-IsSound : IsSound network_pool (networks_left (network_at 0 ∷ []))
unfolding contains
one_left-IsSound = record {
  once = λ a. ground arith;
  in_range = λ a free. ground (arith, same_string_ip (network_at 0) a);
}

pub contains_first : contains block (network_at 0).ip_net.ip ≡ true
unfolding contains
contains_first = refl

pub contains_second : contains block (network_at 1).ip_net.ip ≡ true
unfolding contains
contains_second = refl

pub second_apart : same_string (network_at 0) (network_at 1) ≡ false
unfolding same_string
second_apart = refl
