-- ===== src/UidPool/Laws.antt =====
-- linux_backend/uid_pool/unix_uid_pool.go: the pool of user ids against the laws of a pool.
use warden_linux.Base.{
  ℕ, zero, suc, ◌+◌, ◌-◌, ◌%◌, ◌≤◌, ◌<◌, ◌≡◌, Bool, not, ◌||◌, ◌&&◌, ◌==◌, ltb, leb, if◌then◌else◌,
  count, ==_refl, arith, add_u32, u32_mod, length,
}
use warden_linux.IdPool.{IdPool, IdPoolLaws, IsSound}
use warden_linux.UidPool.{
  UidPool, UidError, pool_exhausted, uid_taken, acquire, remove, release, fill, new, initial_size,
}

abbrev pub owns : UidPool → ℕ → Bool
owns p uid = not (ltb uid p.start || leb (add_u32 p.start p.size) uid)

abbrev pub uid_pool : IdPool UidPool ℕ UidError
uid_pool = record {
  same = ◌==◌;
  free = λ p. p.pool;
  owns = owns;
  acquire = acquire;
  remove = remove;
  release = release;
}

-- The pool of user ids keeps the laws of a pool: the oldest free entry is acquired, an empty pool
-- refuses and stays as it is, a free entry is removed by name and a taken one is refused, what is
-- out of range is not released, and what is in range and not free goes to the end of the queue.
pub uid_pool-IdPoolLaws : IdPoolLaws uid_pool
unfolding acquire remove release
uid_pool-IdPoolLaws = record {
  same_refl = ==_refl;
  same_cong = λ a b c e. ground arith;
  acquire_empty = λ s e. (pool_exhausted, ground arith);
  acquire_first = λ s a rest e. ground arith;
  acquire_owns = λ s a. ground arith;
  remove_taken = λ s a e. (uid_taken a, ground arith);
  remove_free = λ s a rest e. ground arith;
  remove_owns = λ s a b. ground arith;
  release_foreign = λ s a e. ground arith;
  release_owned = λ s a o c. ground arith;
  release_owns = λ s a b. ground arith;
}

count-fill :
    (fuel i end a : ℕ)
    → end ≤ i + fuel
    → end < u32_mod
    → count ◌==◌ a (fill fuel i end) ≡ (if leb i a && ltb a end then 1 else 0)
unfolding fill
count-fill zero i end a h w = ground arith
count-fill (suc fuel) i end a h w = ground (arith, count-fill fuel ((i + 1) % u32_mod) end a)

-- A new pool holds each id from `start` up to `start + size`, as a `uint32`, exactly once, and
-- nothing else.
pub count-new :
    (start size uid : ℕ)
    → count ◌==◌ uid (new start size).pool
      ≡ (if leb start uid && ltb uid (add_u32 start size) then 1 else 0)
unfolding new
count-new start size uid =
    ground (arith, count-fill (add_u32 start size) start (add_u32 start size) uid)

pub new-IsSound : (start size : ℕ) → IsSound uid_pool (new start size)
unfolding new
new-IsSound start size = record {
  once = λ uid. ground (arith, count-new start size uid);
  in_range = λ uid free. ground (arith, count-new start size uid);
}

length-fill :
    (fuel i end : ℕ) → end ≤ i + fuel → end < u32_mod → i ≤ end → length (fill fuel i end) ≡ end - i
unfolding fill
length-fill zero i end h w l = omega arith
length-fill (suc fuel) i end h w l = ground (arith, length-fill fuel ((i + 1) % u32_mod) end)

pub initial_size-new :
    (start size : ℕ) → start + size < u32_mod → initial_size (new start size) ≡ size
unfolding initial_size new
initial_size-new start size h =
    ground (arith, length-fill (add_u32 start size) start (add_u32 start size))
