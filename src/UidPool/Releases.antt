-- ===== src/UidPool/Releases.antt =====
-- Release of linux_backend/uid_pool/unix_uid_pool.go, called twice for one user id.
use warden_linux.Base.{ℕ, ◌+◌, ◌≡◌, true, [], ◌∷◌, ◌==◌, count, count-append, arith}
use warden_linux.UidPool.Laws.{owns}
use warden_linux.UidPool.{UidPool, release}

-- A user id of the pool's range that is released twice is free twice more, even where it was free
-- before: two later calls of Acquire hand it out.
pub count-release-release :
    (p : UidPool) (uid : ℕ)
    → owns p uid ≡ true
    → count ◌==◌ uid (release uid (release uid p)).pool ≡ count ◌==◌ uid p.pool + 2
unfolding release
count-release-release p uid own = ground (
  arith,
  count-append ◌==◌ uid p.pool (uid ∷ []),
  count-append ◌==◌ uid (release uid p).pool (uid ∷ []),
)
