-- ===== src/NetworkPool/Laws.antt =====
-- linux_backend/network_pool/network_pool.go: the pool of networks against the laws of a pool.
use warden_linux.Base.{arith}
use warden_linux.IdPool.{IdPool, IdPoolLaws}
use warden_linux.Network.{Network, same_string}
use warden_linux.Network.Addresses.{same_string_refl, same_string_cong}
use warden_linux.NetworkPool.{
  NetworkPool, NetworkError, pool_exhausted, network_taken, contains, acquire, remove, release,
}

abbrev pub network_pool : IdPool NetworkPool Network NetworkError
network_pool = record {
  same = same_string;
  free = λ p. p.pool;
  owns = λ p network. contains p.ip_net network.ip_net.ip;
  acquire = acquire;
  remove = remove;
  release = release;
}

-- The pool of networks keeps the laws of a pool, where two networks are the same if their texts are:
-- the oldest free entry is acquired, an empty pool refuses and stays as it is, a free entry is
-- removed by name and a taken one is refused, what is out of range is not released, and what is in
-- range and not free goes to the end of the queue.
pub network_pool-IdPoolLaws : IdPoolLaws network_pool
unfolding acquire remove release
network_pool-IdPoolLaws = record {
  same_refl = same_string_refl;
  same_cong = same_string_cong;
  acquire_empty = λ s e. (pool_exhausted, ground arith);
  acquire_first = λ s a rest e. ground arith;
  acquire_owns = λ s a. ground arith;
  remove_taken = λ s a e. (network_taken a, ground arith);
  remove_free = λ s a rest e. ground arith;
  remove_owns = λ s a b. ground arith;
  release_foreign = λ s a e. ground arith;
  release_owned = λ s a o c. ground arith;
  release_owns = λ s a b. ground arith;
}
