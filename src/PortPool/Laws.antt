-- ===== src/PortPool/Laws.antt =====
-- linux_backend/port_pool/port_pool.go: the pool of host ports against the laws of a pool.
use warden_linux.Base.{
  ℕ, zero, suc, ◌+◌, ◌%◌, ◌≤◌, ◌<◌, ◌≡◌, Bool, not, ◌||◌, ◌&&◌, ◌==◌, ltb, leb, if◌then◌else◌,
  count, count-contains, ==_refl, arith, add_u32, u32_mod,
}
use warden_linux.IdPool.{IdPool, IdPoolLaws, IsSound}
use warden_linux.PortPool.{
  PortPool, PortError, pool_exhausted, port_taken, acquire, remove, release, fill, new,
}

abbrev pub owns : PortPool → ℕ → Bool
owns p port = not (ltb port p.start || leb (add_u32 p.start p.size) port)

abbrev pub port_pool : IdPool PortPool ℕ PortError
port_pool = record {
  same = ◌==◌;
  free = λ p. p.pool;
  owns = owns;
  acquire = acquire;
  remove = remove;
  release = release;
}

-- The pool of host ports keeps the laws of a pool: the oldest free entry is acquired, an empty pool
-- refuses and stays as it is, a free entry is removed by name and a taken one is refused, what is
-- out of range is not released, and what is in range and not free goes to the end of the queue.
pub port_pool-IdPoolLaws : IdPoolLaws port_pool
unfolding acquire remove release
port_pool-IdPoolLaws = record {
  same_refl = ==_refl;
  same_cong = λ a b c e. ground arith;
  acquire_empty = λ s e. (pool_exhausted, ground arith);
  acquire_first = λ s a rest e. ground arith;
  acquire_owns = λ s a. ground arith;
  remove_taken = λ s a e. (port_taken a, ground arith);
  remove_free = λ s a rest e. ground arith;
  remove_owns = λ s a b. ground arith;
  release_foreign = λ s a e. ground arith;
  release_owned = λ s a o c. ground (arith, count-contains ◌==◌ a s.pool);
  release_owns = λ s a b. ground arith;
}

count-fill :
    (fuel i end a : ℕ)
    → end ≤ i + fuel
    → end < u32_mod
    → count ◌==◌ a (fill fuel i end) ≡ (if leb i a && ltb a end then 1 else 0)
unfolding fill
count-fill zero i end a h w = ground arith
count-fill (suc fuel) i end a h w = ground (arith, count-fill fuel ((i + 1) % u32_mod) end a)

pub count-new :
    (start size port : ℕ)
    → count ◌==◌ port (new start size).pool
      ≡ (if leb start port && ltb port (add_u32 start size) then 1 else 0)
unfolding new
count-new start size port =
    ground (arith, count-fill (add_u32 start size) start (add_u32 start size) port)

pub new-IsSound : (start size : ℕ) → IsSound port_pool (new start size)
unfolding new
new-IsSound start size = record {
  once = λ port. ground (arith, count-new start size port);
  in_range = λ port free. ground (arith, count-new start size port);
}
