-- ===== src/UidPool.antt =====
-- linux_backend/uid_pool/unix_uid_pool.go: the pool of user ids.
-- Each method holds the pool's mutex for its whole body, so a call is one step on the state.
pub mod Examples
pub mod Laws
pub mod Releases
use warden_linux.Base.{
  ℕ, zero, suc, ◌+◌, ◌||◌, Option, none, some, List, [], ◌∷◌, ◌++◌, ltb, leb, ◌==◌, if◌then◌else◌,
  add_u32, length, cut, Result, ok, err, Exec,
}
use warden_linux.IdPool.{IdPool}

pub record UidPool : Type 0 where
  pub start : ℕ
  pub size : ℕ
  pub pool : List ℕ
  pub initial_pool_size : ℕ

pub data UidError : Type 0 where
  pool_exhausted : UidError
  uid_taken : ℕ → UidError

-- `for i := start; i < start+size; i++ { pool = append(pool, i) }` on fuel; the sum wraps.
pub fill : ℕ → ℕ → ℕ → List ℕ
fill zero i end = []
fill (suc fuel) i end = if ltb i end then i ∷ fill fuel (add_u32 i 1) end else []

-- The loop makes at most `start+size` rounds.
pub new : ℕ → ℕ → UidPool
unfolding fill
new start size = record { start = start; size = size; pool = pool; initial_pool_size = length pool }
  where
    pool : List ℕ
    pool = fill (add_u32 start size) start (add_u32 start size)

pub initial_size : UidPool → ℕ
initial_size p = p.initial_pool_size

unfoldable pub acquire : Exec UidPool UidError ℕ
acquire p = elim p.pool [
  | [] ↦ (err pool_exhausted, p)
  | uid ∷ rest ↦ (ok uid, record p { pool = rest })
]

unfoldable pub remove : ℕ → Exec UidPool UidError (Unit {0})
remove uid p = elim (cut ◌==◌ uid p.pool) [
  | none ↦ (err (uid_taken uid), p)
  | some rest ↦ (ok tt, record p { pool = rest })
]

unfoldable pub release : ℕ → UidPool → UidPool
release uid p =
    if ltb uid p.start || leb (add_u32 p.start p.size) uid
    then p
    else record p { pool = p.pool ++ uid ∷ [] }
